-- ===== src/Gcs/Telemetry/Named.antt =====
-- What the polling of a drone asks for and has saved.
use https_gitflic_ru_project.Base.{
  ℕ, zero, suc, String, ◌≡◌, Bool, true, false, not, Option, none, some, List, [], ◌∷◌, ◌++◌, ◌==◌,
  if◌then◌else◌,
}
use https_gitflic_ru_project.Py.Value.{Value, null, text, dict, Fields, find}
use https_gitflic_ru_project.Py.Act.{Act, Always, Ends, AnyCall}
use https_gitflic_ru_project.Py.Run.{Env, run}
use https_gitflic_ru_project.Gcs.Station.{station_topic, message_from, id_of}
use https_gitflic_ru_project.Gcs.Manager.{DroneManager, component_of, proxy_message, unwrap_answer}
use https_gitflic_ru_project.Gcs.Telemetry.{normalize_telemetry}

-- What stands under a key, or else a given value.
abbrev pub given_or : Value → Option Value → Value
given_or v none = v
given_or v (some w) = w

-- Telemetry with the name of the drone that was asked: what the drone itself wrote under `drone_id`,
-- whatever it is, stays, and so does each other field.
pub record IsNamed (drone_id : Value) (telemetry saved : Fields) : Type 0 where
  pub named : find saved "drone_id" ≡ some (given_or drone_id (find telemetry "drone_id"))
  pub kept : (f : String) → ("drone_id" == f) ≡ false → find saved f ≡ find telemetry f

module _ (m : DroneManager) (drone_id : Value) where
  -- The request for the state of the drone.
  abbrev pub state_request : Fields
  state_request =
      proxy_message m.station m.station.telemetry "get_state" null (("drone_id", drone_id) ∷ [])

  abbrev pub IsPoll : Value → Fields → Type 0
  IsPoll topic body = (topic ≡ text m.station.security_monitor) × (body ≡ state_request)

  -- What one turn of the loop publishes for the telemetry of an answer.
  pub data Saved : Option Fields → List (Value × Fields) → Type 0 where
    unsaved : Saved none []
    saves :
        {telemetry saved : Fields}
        → IsNamed drone_id telemetry saved
        → Saved (some telemetry) (
            (
              station_topic m.station "drone_store",
              message_from (id_of m.station) "telemetry.save" (("telemetry", dict saved) ∷ []),
            )
            ∷ [])

  -- What several turns publish, each for the same answer.
  pub data Polled (telemetry : Option Fields) : ℕ → List (Value × Fields) → Type 0 where
    stopped : Polled telemetry zero []
    polls :
        {n : ℕ} {l more : List (Value × Fields)}
        → Saved telemetry l
        → Polled telemetry n more
        → Polled telemetry (suc n) (l ++ more)

  -- The turns before the first wait that the stop event ended, if the component runs.
  abbrev pub turns_of : List Bool → ℕ
  turns_of [] = zero
  turns_of (true ∷ waits) = zero
  turns_of (false ∷ waits) = if not (component_of m).running then zero else suc (turns_of waits)

  abbrev Asks : {A : Type 0} → Act DroneManager A → Type 0
  Asks act = Always IsPoll AnyCall (Ends (λ s. s ≡ m)) (act m)

  module _ (env : Env) where
    -- The telemetry that the drone answers.
    abbrev pub telemetry_of : Option Fields
    telemetry_of =
        normalize_telemetry
          (unwrap_answer (env.answer (text m.station.security_monitor) state_request))

    abbrev Publishes : ℕ → Act DroneManager (Unit {0}) → Type 0
    Publishes n act = Polled telemetry_of n (run env (act m)).1
