-- ===== src/Lib.antt =====
-- Verification of the message-driven components of the drone economy (sbd-drones-economics).
--
-- Each component of the program subscribes to a topic of a message bus, looks a message up by its
-- action in a table of handlers, and answers. The development models a handler as a tree of the
-- calls it makes to the bus, with a branch for every answer (Py/Act): what is proved of a tree
-- holds for every behaviour of the other components and of the broker.
--
-- - Base: names shared by all files, Boolean tests, lists.
-- - Py: what the components use of Python. Py/Value is a decoded JSON value with `get`, `bool`,
--   `str`; Py/Text is strip, replace, split and the order of texts; Py/Float the comparisons of
--   floats; Py/Maths their arithmetic, of which rounding operations are an interface; Py/Run a
--   handler run in an environment; Py/Read what handlers read from values; Py/Dict dicts and sets
--   whose keys are any values that hash, with Key the classes of equal values; Py/Asking what is
--   published only after an answer; Py/Act the calls of a handler, exceptions, and the predicate
--   `Always` on trees.
-- - Sdk: sdk/messages.py (Sdk/Messages), sdk/base_component.py with `respond` of
--   broker/src/system_bus.py (Sdk/Component), and sdk/safe_bus.py with sdk/security_monitor.py
--   (Sdk/SafeBus), whose policy is an argument. The fields of a component are a type `S` with a
--   function that reads the part of the base class.
-- - Monitor: systems/agrodron/src/security_monitor/src/security_monitor.py. Monitor/Policy is the
--   set of policies and the access check, Monitor/Parse the reading of SECURITY_POLICIES,
--   Monitor/State the fields and the isolation, Monitor/Proxy the two forwarding handlers,
--   Monitor/Handlers the others, Monitor/Table the table of handlers and the dispatch.
-- - Agro: other components of the drone, systems/agrodron/src/. Agro/Place is what they share, with
--   topic_utils.py and journal_log.py; Agro/Emergensy is emergensy, Agro/Sprayer sprayer,
--   Agro/Motors motors, with its arithmetic in Agro/Motors/Command; Agro/Autopilot autopilot, with
--   its handlers in Agro/Autopilot/Commands and its loop in Agro/Autopilot/Control; Agro/Missions
--   is mission_handler, with its parser in Agro/Missions/Wpl; Agro/Limiter is limiter,
--   Agro/Telemetry telemetry, Agro/Gateway gateway, and Agro/ProxyReply
--   systems/agrodron/scripts/proxy_reply.py. Agro/Emergency and Agro/Limiter/Alarm compose them
--   with the monitor: the messages of one are handed to the other in the order of their sending
--   (Py/Run).
-- - Orvd: systems/orvd_system/src/orvd_component/src/orvd_component.py, air traffic control.
--   Orvd/State is the fields, Orvd/Zones the no-fly zones, Orvd/Flights the handlers of drones,
--   missions and flights, Orvd/Watch those of telemetry and history, Orvd/Table the table and the
--   dispatch.
-- - Port: systems/drone_port/src/. Port/Place is what its components share (with
--   sdk/topic_naming.py), Port/Redis the interface of the database and the laws that are relied on,
--   Port/Store state_store, Port/Manager port_manager, Port/Registry drone_registry, Port/Drones
--   drone_manager, Port/Orchestrator orchestrator, Port/Charging charging_manager.
--   Port/Manager/Landing composes the port manager with the store.
-- - Gcs: systems/gcs/src/. Gcs/Redis is the interface of the database, of json, `int` and
--   `dict.update`; Gcs/Drones is drone_store, Gcs/Missions mission_store, Gcs/Orchestrator
--   orchestrator, Gcs/Planner path_planner, with the routes of sdk/wpl_generator.py and
--   sdk/wpl_generator_2.py in Gcs/Route, Gcs/Converter mission_converter, Gcs/Manager
--   drone_manager, with the turns of its polling loop in Gcs/Telemetry, and Gcs/Station what they
--   share. Gcs/Manager/Assigned composes the manager with the two stores.
-- - Tests: runs on concrete inputs, and each theorem at one.
--
-- A `set` of Python is a list without duplicates; its order is used nowhere. Requests answer None
-- on a timeout, so timeouts themselves are not modelled. `str` of what is no text, None or bool,
-- the texts of exceptions, `float(text)` and `json.loads` are functions of a record `Runtime` that
-- every theorem takes as it is. Log lines have no effect and are left out. The bus does not raise.
-- Environment variables are read as the texts that they give. A loop in a thread is a function of
-- the list of what its turns read of the stop event or of `_running`, so it ends with that list;
-- the loop of a charge has a bound on its turns, which is enough; threads run between messages
-- only, but for the wait of a START, which is given the messages that are handled in the meantime.
-- How a text is put in upper case and how numbers are written into texts (`Formats`) is taken as it
-- is. Redis, `json`, `int` and the arithmetic of floats that rounds are interfaces with the laws
-- that are relied on; a connection to Redis does not fail.
--
-- Not modelled: the start and stop of components and the warm-up loop of the monitor, which only
-- subscribe and wait; the navigation of the agrodron, whose answers are taken as they come; the
-- other gateways and the base class of systems; the brokers, which are clients of other programs;
-- reading and writing of files of waypoints; and the operator, the aggregator, the insurers, the
-- regulators and the analytics, which are services of their own.
pub mod Base
pub mod Py
pub mod Sdk
pub mod Monitor
pub mod Port
pub mod Orvd
pub mod Agro
pub mod Gcs
pub mod Tests
