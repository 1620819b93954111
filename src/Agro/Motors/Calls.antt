-- ===== src/Agro/Motors/Calls.antt =====
-- What the handlers of the motors publish, given what is so of every command that they build.
use https_gitflic_ru_project.Base.{String, ◌≡◌, Bool}
use https_gitflic_ru_project.Py.Value.{Value, text, dict, Fields, Runtime}
use https_gitflic_ru_project.Py.Act.{
  Act, Always, at_ret, at_send, calls, Ends, Always-lift, Always-seq,
}
use https_gitflic_ru_project.Py.Maths.{Maths}
use https_gitflic_ru_project.Py.Read.Outcome.{IfOk, IfOk-ok}
use https_gitflic_ru_project.Agro.Place.{place_topic, proxied, entry, publish_journal_event}
use https_gitflic_ru_project.Agro.Motors.Command.{build_sitl_command}
use https_gitflic_ru_project.Agro.Motors.{
  Motors, journal_sitl_command, emit_sitl_command, set_target, handle_set_target, land, handle_land,
}

-- The place and the topic of the commands stay as they are.
abbrev pub IsSame : Motors → Motors → Type 0
IsSame m s = (s.place ≡ m.place) × (s.sitl_commands_topic ≡ m.sitl_commands_topic)

-- What the motors ask the monitor to forward: commands that are `Good`, raw, and entries for the
-- journal.
pub data Sends (Good : Fields → Type 0) (m : Motors) : Value → Fields → Type 0 where
  forwards :
      (s : Motors) (command : Fields)
      → IsSame m s
      → Good command
      → Sends Good m
          (text s.place.monitor_topic)
          (proxied "proxy_publish" s.place s.sitl_commands_topic "__raw__" command)
  journals :
      (s : Motors) (event : String) (details : Fields)
      → IsSame m s
      → Sends Good m (text (place_topic s.place "security_monitor")) (
          proxied "proxy_publish" s.place
            (place_topic s.place "journal")
            "log_event"
            (entry event "motors" details))

module _ (rt : Runtime) (maths : Maths) (Good : Fields → Type 0)
    (built : (drone_id : String) (command : Fields)
      → IfOk Good (build_sitl_command rt maths drone_id command))
    (m : Motors) where
  abbrev Keeps : {A : Type 0} → Act Motors A → Motors → Type 0
  Keeps act s = Always (λ topic body. ⊥) (Sends Good m) (Ends (IsSame m)) (act s)

  journal-Keeps :
      (sitl_msg : Fields) (reason : String) (emergency : Bool) (s : Motors)
      → IsSame m s
      → Keeps (journal_sitl_command rt maths sitl_msg reason emergency) s
  unfolding journal_sitl_command publish_journal_event
  journal-Keeps sitl_msg reason emergency s q = search (calls, Always-seq, journals) depth 9

  emit-Keeps :
      (command : Fields) (reason : String) (s : Motors)
      → IsSame m s
      → Keeps (emit_sitl_command rt maths command reason) s
  unfolding emit_sitl_command
  emit-Keeps command reason s q =
      Always-lift (build_sitl_command rt maths s.sitl_drone_id command) _ s (λ e. q)
        (λ sitl_msg b.
          at_send
            (forwards s sitl_msg q (IfOk-ok Good _ sitl_msg (built s.sitl_drone_id command) b))
            (λ _. journal-Keeps sitl_msg reason _ s q))

  land-Keeps : (s : Motors) → IsSame m s → Keeps (land rt maths) s
  unfolding land
  land-Keeps s q = search (calls, Always-seq, emit-Keeps) depth 9

  set_target-Keeps :
      (payload : Value) (s : Motors) → IsSame m s → Keeps (set_target rt maths payload) s
  unfolding set_target
  set_target-Keeps (dict payload) s q = search (calls, Always-lift, Always-seq, emit-Keeps) depth 9
  set_target-Keeps payload s q = at_ret q

  pub handle_land-Keeps :
      (message : Fields) (s : Motors) → IsSame m s → Keeps (handle_land rt maths message) s
  unfolding handle_land
  handle_land-Keeps message s q = search (calls, land-Keeps) depth 9

  pub handle_set_target-Keeps :
      (message : Fields) (s : Motors) → IsSame m s → Keeps (handle_set_target rt maths message) s
  unfolding handle_set_target
  handle_set_target-Keeps message s q = search (calls, set_target-Keeps) depth 9
