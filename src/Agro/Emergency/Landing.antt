-- ===== src/Agro/Emergency/Landing.antt =====
-- What becomes of the commands that the monitor delivered in the emergency protocol.
use https_gitflic_ru_project.Base.{
  String, ◌≡◌, ◌≢◌, refl, Bool, true, false, Option, some, none, [], ◌∷◌, inl, inr, All, All-map,
  Bool-cases, ap,
}
use https_gitflic_ru_project.Py.Text.{nonempty}
use https_gitflic_ru_project.Py.Value.{Value, Fields, Runtime}
use https_gitflic_ru_project.Py.Act.{
  ret, Act, ok, Always, calls, Ends, AnyCall, Always-lift, Always-seq,
}
use https_gitflic_ru_project.Py.Maths.{Maths}
use https_gitflic_ru_project.Py.Run.{Env, Messages, run, run_all, bodies, Always-run}
use https_gitflic_ru_project.Monitor.Policy.{Target, is_allowed}
use https_gitflic_ru_project.Monitor.State.{Monitor, topic_for, load_emergency_policies}
use https_gitflic_ru_project.Monitor.State.Lockdown.{lockdown_exact}
use https_gitflic_ru_project.Monitor.Proxy.{publish_target, handle_proxy_publish}
use https_gitflic_ru_project.Monitor.Table.{handle}
use https_gitflic_ru_project.Agro.Place.{
  Place, place_topic, proxied, entry, is_trusted_sender, publish_journal_event,
}
use https_gitflic_ru_project.Agro.Motors.{
  Motors, landing, journal_sitl_command, emit_sitl_command, land, handle_land,
}
use https_gitflic_ru_project.Py.Read.Outcome.{IfOk, IfOk-any}
use https_gitflic_ru_project.Agro.Motors.Command.{build_sitl_command}
use https_gitflic_ru_project.Agro.Motors.Calls.{Sends, forwards, journals, handle_land-Keeps}

-- A component other than the emergency component, with automatic entries off.
pub record IsLockedOut (m : Monitor) (p : Place) : Type 0 where
  pub filled : nonempty p.component.topic ≡ true
  pub other : p.component.topic ≢ topic_for m "emergensy"
  pub quiet : nonempty m.component.journal_topic ≡ false

-- A request to forward, of the component at that place.
abbrev IsProxied : Place → Fields → Type 0
IsProxied p body =
    (topic : String) × (action : String) × (forwarded : Fields) × (body
      ≡ proxied "proxy_publish" p topic action forwarded)

module _ (rt : Runtime) (env : Env) (m : Monitor) (p : Place) (out : IsLockedOut m p) where
  refused :
      (t a : String) → is_allowed (load_emergency_policies m).policies p.component.topic t a ≡ false
  refused t a =
      elim (Bool-cases (is_allowed (load_emergency_policies m).policies p.component.topic t a)) [
        | inl h ↦ absurd (out.other ((lockdown_exact m _ _ _).0 h).0)
        | inr h ↦ h
      ]

  publish_refused :
      (target : Option Target) (message : Fields)
      → publish_target p.component.topic target message (load_emergency_policies m)
        ≡ ret (ok none, load_emergency_policies m)
  unfolding publish_target
  publish_refused none message = refl
  publish_refused (some t) message = rw (refused t.target_topic t.target_action)

  same_component : (load_emergency_policies m).component ≡ m.component
  unfolding load_emergency_policies
  same_component = refl

  -- The isolated monitor drops what such a component asks it to publish.
  dropped :
      (topic action : String) (forwarded : Fields)
      → run env
          (handle rt (proxied "proxy_publish" p topic action forwarded) (load_emergency_policies m))
        ≡ ((ok tt, load_emergency_policies m), [])
  unfolding handle handle_proxy_publish
  dropped topic action forwarded = rw (out.filled, publish_refused _ _, same_component, out.quiet)

  drops :
      (l : Messages)
      → All (λ e. IsProxied p e.1) l
      → run_all env (handle rt) (load_emergency_policies m) (bodies l)
        ≡ (load_emergency_policies m, [])
  drops [] h = refl
  drops (x ∷ l) h = rw (h.0.3, dropped h.0.0 h.0.1 h.0.2) (drops l h.1)

Sends-IsProxied :
    {Good : Fields → Type 0} (s : Motors) {topic : Value} {body : Fields}
    → Sends Good s topic body
    → IsProxied s.place body
Sends-IsProxied s (forwards u command same g) = (
  u.sitl_commands_topic,
  "__raw__",
  command,
  ap (λ (p : Place). proxied "proxy_publish" p u.sitl_commands_topic "__raw__" command) same.0,
)
Sends-IsProxied s (journals u event details same) = (
  place_topic u.place "journal",
  "log_event",
  entry event "motors" details,
  ap
      (λ (p : Place).
        proxied "proxy_publish" p (place_topic u.place "journal") "log_event"
          (entry event "motors" details))
      same.0,
)

module _ (rt : Runtime) (maths : Maths) where
  any_command :
      (drone_id : String) (command : Fields)
      → IfOk (λ c. Unit {0}) (build_sitl_command rt maths drone_id command)
  any_command drone_id command = IfOk-any (build_sitl_command rt maths drone_id command)

  abbrev pub LandingKept : {A : Type 0} → Act Motors A → Motors → Type 0
  LandingKept act s = Always AnyCall AnyCall (Ends (λ u. u.mode ≡ landing)) (act s)

  journal-LandingKept :
      (sitl_msg : Fields) (reason : String) (emergency : Bool) (s : Motors)
      → s.mode ≡ landing
      → LandingKept (journal_sitl_command rt maths sitl_msg reason emergency) s
  unfolding journal_sitl_command publish_journal_event
  journal-LandingKept sitl_msg reason emergency s h = search (calls, Always-seq) depth 9

  emit-LandingKept :
      (command : Fields) (reason : String) (s : Motors)
      → s.mode ≡ landing
      → LandingKept (emit_sitl_command rt maths command reason) s
  unfolding emit_sitl_command
  emit-LandingKept command reason s h = search (calls, Always-lift, journal-LandingKept) depth 9

  pub handle_land-LandingKept :
      (message : Fields) (s : Motors)
      → is_trusted_sender s.place message ≡ true
      → LandingKept (handle_land rt maths message) s
  unfolding handle_land land
  handle_land-LandingKept message s h = rw h (search (calls, Always-seq, emit-LandingKept) depth 9)

  -- A landing that the monitor orders puts the motors into the mode of landing. Yet while the
  -- emergency policies are in force, the monitor drops everything that the motors then ask it to
  -- forward, the command for the simulator included.
  pub landing_lost :
      (env : Env) (m : Monitor) (s : Motors) (message : Fields)
      → IsLockedOut m s.place
      → is_trusted_sender s.place message ≡ true
      → ((run env (handle_land rt maths message s)).0.1.mode ≡ landing)
        × (run_all env
              (handle rt)
              (load_emergency_policies m)
              (bodies (run env (handle_land rt maths message s)).1)
            ≡ (load_emergency_policies m, []))
  landing_lost env m s message out trusted = (
    (Always-run env _ (handle_land-LandingKept message s trusted)).1,
    drops rt env m s.place out (run env (handle_land rt maths message s)).1 (
        All-map _ _ (λ e h. Sends-IsProxied s h) _
          (Always-run env _
            (handle_land-Keeps rt maths (λ c. Unit {0}) any_command s message s (refl, refl))).0),
  )
