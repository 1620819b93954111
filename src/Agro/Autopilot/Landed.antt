-- ===== src/Agro/Autopilot/Landed.antt =====
-- The landing of the autopilot: what it waits for, and when it is over.
use https_gitflic_ru_project.Base.{String, Bool, true, false, ◌||◌, none, List, ◌∷◌, ◌≡◌, ◌⊎◌}
use https_gitflic_ru_project.Py.Float.{Float, of_nat, float_ge}
use https_gitflic_ru_project.Py.Value.{Value, text, Fields, Runtime, fields_of}
use https_gitflic_ru_project.Py.Act.{ok, Act, Always, AnyCall, Ends}
use https_gitflic_ru_project.Py.Maths.{Maths}
use https_gitflic_ru_project.Agro.Place.{place_topic, proxied, entry}
use https_gitflic_ru_project.Agro.Autopilot.{idle, Settings, Autopilot, target_fields}
use https_gitflic_ru_project.Agro.Autopilot.Geometry.{Position, landing_position}
use https_gitflic_ru_project.Agro.Autopilot.Landing.{hover}

-- A port is confirmed, or the landing did not begin with a request for one.
abbrev pub is_confirmed : Autopilot → Bool
is_confirmed s = s.landing_port_confirmed || float_ge (of_nat 0) s.last_landing_port_request_ts

-- Targets that hold the altitude, and those that leave it, only if `confirmed`; entries for the
-- journal; events for the ground station.
pub data Lands (c : Settings) (nav : Fields) (confirmed : Type 0) : Value → Fields → Type 0 where
  holds :
      (p : Position)
      → Lands c nav confirmed (text c.place.monitor_topic) (
          proxied "proxy_publish" c.place
            (place_topic c.place "motors")
            "set_target"
            (target_fields (hover nav p (of_nat 0) p.alt)))
  descends :
      (p : Position) (vz : Float)
      → confirmed
      → Lands c nav confirmed (text c.place.monitor_topic) (
          proxied "proxy_publish" c.place
            (place_topic c.place "motors")
            "set_target"
            (target_fields (hover nav p vz (of_nat 0))))
  journals :
      (event : String) (details : Fields)
      → Lands c nav confirmed (text c.place.monitor_topic) (
          proxied "proxy_publish" c.place c.journal_topic "log_event"
            (entry event "autopilot" details))
  notifies :
      (event : String) (details : List (String × Value))
      → Lands c nav confirmed (text c.place.monitor_topic) (
          proxied "proxy_publish" c.place c.nus_topic "mission_status"
            (fields_of (("event", text event) ∷ details)))

module _ (rt : Runtime) (maths : Maths) (c : Settings) (nav : Fields) (s : Autopilot) where
  -- The landing goes on with the same mission.
  abbrev Continues : Autopilot → Type 0
  Continues t = (t.landing_active ≡ true) × (t.mission ≡ s.mission) × (t.state ≡ s.state)

  -- The drone stands on the ground of its port, and is ready for the next mission.
  abbrev Finishes : Autopilot → Type 0
  Finishes t =
      (t.landing_active ≡ false)
      × (t.mission ≡ none)
      × (t.state ≡ idle)
      × (is_confirmed s ≡ true)
      × ((p : Position) × (landing_position rt nav ≡ ok p)
          × (float_ge (maths.literal "0.5") p.alt ≡ true))

  abbrev pub IsLanding : Autopilot → Type 0
  IsLanding t = Continues t ⊎ Finishes t

  abbrev Step : {A : Type 0} → Act Autopilot A → Autopilot → Type 0
  Step act t = Always AnyCall (Lands c nav (is_confirmed s ≡ true)) (Ends IsLanding) (act t)
