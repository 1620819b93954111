-- ===== src/Orvd.antt =====
-- systems/orvd_system/src/orvd_component/src/orvd_component.py: air traffic control. It registers
-- drones and missions, authorizes missions, grants and revokes take-offs, and watches the zones.
pub mod State
pub mod Zones
pub mod Flights
pub mod Watch
pub mod Table
