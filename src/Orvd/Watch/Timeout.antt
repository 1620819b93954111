-- ===== src/Orvd/Watch/Timeout.antt =====
-- What becomes of a request for telemetry that the drone does not answer.
use https_gitflic_ru_project.Base.{◌≡◌, refl, true, Option, none}
use https_gitflic_ru_project.Py.Value.{Fields, attribute_error, Runtime, get, truthy}
use https_gitflic_ru_project.Py.Act.{Tree, ret, asks, Result, ok, raised}
use https_gitflic_ru_project.Orvd.State.{Orvd, payload_of}
use https_gitflic_ru_project.Orvd.Watch.{get_nav_state, record_answer, handle_request_telemetry}

-- A request for telemetry of a named drone asks the drone once, and where the bus answers None, as
-- it does on a timeout, the handler raises an AttributeError and changes nothing: the reply
-- `telemetry_timeout` is not made.
pub telemetry_timeout_raises :
    (rt : Runtime) (message : Fields) (o : Orvd) (payload : Fields)
    → payload_of message ≡ ok payload
    → truthy (get payload "drone_id") ≡ true
    → (k : Option Fields → Tree (Result (Option Fields) × Orvd)) × (handle_request_telemetry rt
          message o
        ≡ asks (get payload "drone_topic") (get_nav_state o (get payload "drone_id")) k)
      × (k none ≡ ret (raised attribute_error, o))
unfolding handle_request_telemetry record_answer
telemetry_timeout_raises rt message o payload p h =
    (λ response. record_answer rt (get payload "drone_id") response o, rw (p, h), refl)
