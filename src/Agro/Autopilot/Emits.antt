-- ===== src/Agro/Autopilot/Emits.antt =====
-- What the control loop of the autopilot publishes.
use https_gitflic_ru_project.Base.{
  String, Bool, true, false, List, [], ◌∷◌, ◌≡◌, refl, arith, Bool-cases, inl, inr,
}
use https_gitflic_ru_project.Py.Float.{Float, of_nat, float_ge, float_lt}
use https_gitflic_ru_project.Py.Value.{
  Value, text, bool, Fields, fields_of, type_error, value_error, attribute_error, key_error,
  index_error, overflow_error, Runtime,
}
use https_gitflic_ru_project.Py.Act.{
  Result, ok, raised, Act, lift, Always, at_ret, at_ask, at_send, at_clock, calls, AnyCall, Ends,
  Always-lift, Always-seq, Always-if_act, Always-then, Always-attempt, Always-weaken, ◌>>◌,
}
use https_gitflic_ru_project.Py.Maths.{Maths, of_neg, Within, clamp-Within}
use https_gitflic_ru_project.Agro.Place.{place_topic, proxied, entry}
use https_gitflic_ru_project.Agro.Autopilot.{
  Settings, Autopilot, Target, target_fields, send_motors_target, send_sprayer, log_to_journal,
}
use https_gitflic_ru_project.Agro.Autopilot.External.{
  request_departure_orvd, request_takeoff_droneport, request_landing_droneport,
  request_charging_droneport, notify_nus, proxy_request_external,
}
use https_gitflic_ru_project.Agro.Autopilot.Geometry.{Position, or_return, climb_rate}
use https_gitflic_ru_project.Agro.Autopilot.Landing.{hover}

-- Targets that climb or sink by at most 3 m/s and that drop, like the sprayer that opens, only
-- where `spraying` holds; entries for the journal; events for the ground station.
pub data Emits (c : Settings) (spraying : Type 0) : Value → Fields → Type 0 where
  steers :
      (t : Target)
      → Within (of_neg 3) (of_nat 3) t.vz
      → (t.drop ≡ true → spraying)
      → Emits c spraying (text c.place.monitor_topic) (
          proxied "proxy_publish" c.place
            (place_topic c.place "motors")
            "set_target"
            (target_fields t))
  sprays :
      (b : Bool)
      → (b ≡ true → spraying)
      → Emits c spraying (text c.place.monitor_topic) (
          proxied "proxy_publish" c.place
            (place_topic c.place "sprayer")
            "set_spray"
            (fields_of (("spray", bool b) ∷ [])))
  journals :
      (event : String) (details : Fields)
      → Emits c spraying (text c.place.monitor_topic) (
          proxied "proxy_publish" c.place c.journal_topic "log_event"
            (entry event "autopilot" details))
  notifies :
      (event : String) (details : List (String × Value))
      → Emits c spraying (text c.place.monitor_topic) (
          proxied "proxy_publish" c.place c.nus_topic "mission_status"
            (fields_of (("event", text event) ∷ details)))

pub still-Within : Within (of_neg 3) (of_nat 3) (of_nat 0)
unfolding float_ge
still-Within = ground arith

pub sinking-Within : Within (of_neg 3) (of_nat 3) (of_neg 1)
unfolding float_ge
sinking-Within = ground arith

pub climb_rate-Within :
    (maths : Maths) (alt_diff : Float) → Within (of_neg 3) (of_nat 3) (climb_rate maths alt_diff)
climb_rate-Within maths alt_diff =
    elim (Bool-cases (float_lt (maths.absolute alt_diff) (maths.literal "0.2"))) [
      | inl level ↦ rw level still-Within
      | inr steep ↦ rw steep (clamp-Within 3 3 (maths.times alt_diff (of_nat 2)))
    ]

module _ (rt : Runtime) (c : Settings) (spraying : Type 0) (Q : Autopilot → Type 0) where
  -- Such messages only, and fields at the end that satisfy `Q`.
  abbrev pub Emitting : {A : Type 0} → Act Autopilot A → Autopilot → Type 0
  Emitting act s = Always AnyCall (Emits c spraying) (Ends Q) (act s)

  any : Unit {0}
  any = tt

  pub hover-Emitting :
      (nav : Fields) (p : Position) (vz alt : Float) (s : Autopilot)
      → Within (of_neg 3) (of_nat 3) vz
      → Q s
      → Emitting (send_motors_target c (hover nav p vz alt)) s
  unfolding send_motors_target
  hover-Emitting nav p vz alt s w q = at_send (steers _ w (λ e. cc)) (λ _. at_ret q)

  pub close-Emitting :
      (s : Autopilot) → Q (record s { sprayer_on = false }) → Emitting (send_sprayer c false) s
  unfolding send_sprayer
  close-Emitting s q = at_send (sprays false (λ e. cc)) (λ _. at_ret q)

  pub log-Emitting :
      (event : String) (details : List (String × Value)) (s : Autopilot)
      → Q s
      → Emitting (log_to_journal c event details) s
  unfolding log_to_journal
  log-Emitting event details s q = at_send (journals event _) (λ _. at_ret q)

  pub notify-Emitting :
      (event : String) (details : List (String × Value)) (s : Autopilot)
      → Q s
      → Emitting (notify_nus c event details) s
  unfolding notify_nus
  notify-Emitting event details s q = search (calls, any, notifies)

  external-Emitting :
      (topic action : String) (sent_data : List (String × Value)) (s : Autopilot)
      → Q s
      → Emitting (proxy_request_external c topic action sent_data) s
  unfolding proxy_request_external
  external-Emitting topic action sent_data s q = search (calls, any)

  ruleset requests = (calls, any, Always-lift, Always-seq, log-Emitting, external-Emitting)

  pub departure-Emitting :
      (id : Value) (s : Autopilot) → Q s → Emitting (request_departure_orvd c id) s
  unfolding request_departure_orvd
  departure-Emitting id s q = search (requests) depth 12

  pub release-Emitting :
      (id : Value) (s : Autopilot) → Q s → Emitting (request_takeoff_droneport c id) s
  unfolding request_takeoff_droneport
  release-Emitting id s q = search (requests) depth 12

  pub port-Emitting : (s : Autopilot) → Q s → Emitting (request_landing_droneport rt c) s
  unfolding request_landing_droneport
  port-Emitting s q = search (requests) depth 12

  pub charging-Emitting : (s : Autopilot) → Q s → Emitting (request_charging_droneport rt c) s
  unfolding request_charging_droneport
  charging-Emitting s q = search (requests) depth 12

  pub or_return-Emitting :
      {A : Type 0} (r : Result A) (f : A → Act Autopilot (Unit {0})) (s : Autopilot)
      → Q s
      → ((a : A) → r ≡ ok a → Emitting (f a) s)
      → Emitting (or_return r f) s
  or_return-Emitting (ok a) f s q k = k a refl
  or_return-Emitting (raised type_error) f s q k = at_ret q
  or_return-Emitting (raised value_error) f s q k = at_ret q
  or_return-Emitting (raised attribute_error) f s q k = at_ret q
  or_return-Emitting (raised key_error) f s q k = at_ret q
  or_return-Emitting (raised index_error) f s q k = at_ret q
  or_return-Emitting (raised overflow_error) f s q k = at_ret q

  pub ruleset emitting = (
    calls, Always-lift, Always-seq, log-Emitting, notify-Emitting, hover-Emitting, close-Emitting,
    still-Within, sinking-Within, departure-Emitting, release-Emitting, port-Emitting,
    charging-Emitting, or_return-Emitting,
  )
