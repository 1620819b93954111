-- ===== src/Agro/Emergency/Obeyed.antt =====
-- What the sprayer and the motors do with the commands that the monitor delivers.
use https_gitflic_ru_project.Base.{String, ◌≡◌, true, false, eq_refl, arith, if◌then◌else◌}
use https_gitflic_ru_project.Py.Value.{Fields, dict, Runtime}
use https_gitflic_ru_project.Py.Act.{
  Act, Always, calls, Ends, AnyCall, pure, at_ret, Always-if_act, Always-seq,
}
use https_gitflic_ru_project.Py.Maths.{Maths}
use https_gitflic_ru_project.Py.Run.{Env, run, Always-run}
use https_gitflic_ru_project.Monitor.State.{Monitor}
use https_gitflic_ru_project.Agro.Place.{Place, is_trusted_sender, publish_journal_event}
use https_gitflic_ru_project.Agro.Emergensy.{spray_data, land_data}
use https_gitflic_ru_project.Agro.Sprayer.{
  Sprayer, off, same_state, SprayerState, emit_command, log_state_change, change_state, set_spray,
  handle_set_spray,
}
use https_gitflic_ru_project.Agro.Motors.{Motors, landing, handle_land}
use https_gitflic_ru_project.Agro.Emergency.Protocol.{forwarded_to}
use https_gitflic_ru_project.Agro.Emergency.Landing.{handle_land-LandingKept}

module _ (rt : Runtime) (maths : Maths) where
  abbrev Closed : {A : Type 0} → Act Sprayer A → Sprayer → Type 0
  Closed act s = Always AnyCall AnyCall (Ends (λ u. u.state ≡ off)) (act s)

  change-Closed : (s : Sprayer) (old : SprayerState) → Closed (change_state rt maths false old) s
  unfolding change_state emit_command log_state_change publish_journal_event
  change-Closed s old = search calls depth 9

  same_off : (x : SprayerState) → same_state off x ≡ true → x ≡ off
  same_off x h = ground arith

  set_spray-Closed : (s : Sprayer) → Closed (set_spray rt maths (dict spray_data)) s
  unfolding set_spray
  set_spray-Closed s =
      Always-seq (if same_state off s.state then pure tt else change_state rt maths false s.state) _
        s
        (Always-if_act (same_state off s.state) _ _ s (λ h. at_ret (same_off s.state h))
          (λ h. change-Closed s s.state))
        (λ a u q. at_ret q)

  module _ (m : Monitor) where
    trusts :
        (p : Place) (suffix action : String) (d : Fields)
        → p.monitor_topic ≡ m.component.topic
        → is_trusted_sender p (forwarded_to m suffix action d).1 ≡ true
    unfolding is_trusted_sender
    trusts p suffix action d h = rw (h, eq_refl m.component.topic)

    closes :
        (s : Sprayer)
        → s.place.monitor_topic ≡ m.component.topic
        → Closed (handle_set_spray rt maths (forwarded_to m "sprayer" "set_spray" spray_data).1) s
    unfolding handle_set_spray
    closes s h = rw (trusts s.place "sprayer" "set_spray" spray_data h) (set_spray-Closed s)

    -- A sprayer and motors that trust this monitor obey the commands that it delivers in the
    -- emergency protocol: the sprayer is closed then, and the motors are landing.
    pub delivered_obeyed :
        (env : Env) (sprayer : Sprayer) (motors : Motors)
        → sprayer.place.monitor_topic ≡ m.component.topic
        → motors.place.monitor_topic ≡ m.component.topic
        → ((run env (
              handle_set_spray rt maths
                (forwarded_to m "sprayer" "set_spray" spray_data).1
                sprayer)).0.1.state
            ≡ off)
          × ((run env
                (handle_land rt maths (forwarded_to m "motors" "land" land_data).1 motors)).0.1.mode
              ≡ landing)
    delivered_obeyed env sprayer motors h k = (
      (Always-run env _ (closes sprayer h)).1,
      (Always-run env _ (
          handle_land-LandingKept rt maths (forwarded_to m "motors" "land" land_data).1 motors
            (trusts motors.place "motors" "land" land_data k))).1,
    )
