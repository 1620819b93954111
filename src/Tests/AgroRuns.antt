-- ===== src/Tests/AgroRuns.antt =====
-- The drone's components on concrete messages.
use https_gitflic_ru_project.Base.{String, ◌≡◌, refl, true, false, none, [], ◌∷◌, arith, eq_iff}
use https_gitflic_ru_project.Py.Float.{of_nat, float_ge}
use https_gitflic_ru_project.Py.Value.{text, bool, Fields, fields_of, get, str}
use https_gitflic_ru_project.Py.Text.{strip}
use https_gitflic_ru_project.Py.Act.{ok, Always, Ends}
use https_gitflic_ru_project.Py.Maths.{Maths, IsRounding}
use https_gitflic_ru_project.Py.Run.{Env, run, run_all, bodies}
use https_gitflic_ru_project.Monitor.State.{topic_for, load_emergency_policies}
use https_gitflic_ru_project.Monitor.Table.{handle}
use https_gitflic_ru_project.Agro.Place.{Place, is_trusted_sender, reply}
use https_gitflic_ru_project.Agro.Emergensy.{Emergensy, spray_data, land_data, handle_limiter_event}
use https_gitflic_ru_project.Agro.Sprayer.{Sprayer, on, off, handle_set_spray}
use https_gitflic_ru_project.Agro.Motors.{Motors, tracking, landing, handle_land}
use https_gitflic_ru_project.Agro.Motors
use https_gitflic_ru_project.Agro.Motors.Calls.{IsSame}
use https_gitflic_ru_project.Agro.Motors.Bounds.{SendsOrServes, handle-IsWithinLimits}
use https_gitflic_ru_project.Agro.Emergency.Protocol.{
  IsWired, IsAlarm, delivered, forwarded_to, emergency_protocol,
}
use https_gitflic_ru_project.Agro.Emergency.Landing.{IsLockedOut, landing_lost}
use https_gitflic_ru_project.Agro.Emergency.Obeyed.{delivered_obeyed}
use https_gitflic_ru_project.Tests.Samples.{rt, component, monitor, message_of}

abbrev pub maths : Maths
maths = record {
  literal = λ s. of_nat 1;
  pi = of_nat 3;
  seconds = λ t. of_nat 0;
  plus = λ a b. a;
  minus = λ a b. a;
  times = λ a b. a;
  over = λ a b. a;
  modulo = λ a b. a;
  power = λ a b. ok a;
  absolute = λ a. a;
  round_to = λ n a. a;
  radians = λ a. a;
  degrees = λ a. a;
  sin = λ a. ok a;
  cos = λ a. ok a;
  atan2 = λ a b. a;
  hypot = λ a b. a;
  sqrt = λ a. ok a;
}

maths-IsRounding : IsRounding maths
unfolding float_ge
maths-IsRounding = record {
  round-Within = λ digits a b x h. h;
  heading_positive = ground arith;
  round_heading-Within = λ x h. h;
}

abbrev pub env : Env
env = record { answer = λ topic m. none; sent = λ topic m. true; clock = "noon" }

abbrev pub place_of : String → Place
place_of topic = record {
  component = record component { topic = topic };
  prefix = "components.Agro";
  monitor_topic = "components.Agro.security_monitor";
}

abbrev pub emergensy : Emergensy
emergensy = record {
  place = place_of "components.Agro.emergensy";
  security_monitor_topic = "components.Agro.security_monitor";
  active = false;
}

wired : IsWired monitor emergensy
unfolding topic_for strip
wired = record {
  prefix = refl;
  named = refl;
  emergensy = (refl, refl);
  sprayer = (refl, refl);
  motors = (refl, refl);
  journal = (refl, refl);
  quiet = refl;
}

abbrev alarm : Fields
alarm =
    message_of "components.Agro.security_monitor" "limiter_event"
      (("event", text "EMERGENCY_LAND_REQUIRED") ∷ ("mission_id", text "m1") ∷ [])

alarm-IsAlarm : IsAlarm rt emergensy alarm
unfolding is_trusted_sender get str
alarm-IsAlarm = record {
  trusted = refl;
  payload = fields_of (("event", text "EMERGENCY_LAND_REQUIRED") ∷ ("mission_id", text "m1") ∷ []);
  carries = refl;
  event = refl;
}

emergency_protocol_example :
    ((run env (handle_limiter_event rt alarm emergensy)).0
      ≡ (ok (reply (("ok", bool true) ∷ [])), record emergensy { active = true }))
    × (run_all env
          (handle rt)
          monitor
          (bodies (run env (handle_limiter_event rt alarm emergensy)).1)
        ≡ (load_emergency_policies monitor, delivered monitor alarm-IsAlarm.payload))
emergency_protocol_example = emergency_protocol rt env monitor emergensy wired alarm alarm-IsAlarm

abbrev sprayer : Sprayer
sprayer = record {
  place = place_of "components.Agro.sprayer";
  state = on;
  last_change_ts = of_nat 0;
  temperature_c = of_nat 20;
  tank_level_pct = of_nat 80;
  sitl_mode = "mock";
  sitl_topic = "sitl";
  journal_topic = "components.Agro.journal";
}

abbrev motors : Motors
motors = record {
  place = place_of "components.Agro.motors";
  mode = tracking;
  last_target = none;
  last_cmd_ts = of_nat 0;
  temperature_c = of_nat 55;
  last_sitl_journal_ts = of_nat 0;
  sitl_mode = "mock";
  sitl_commands_topic = "sitl.commands";
  sitl_drone_id = "Agro001";
}

delivered_obeyed_example :
    ((run env (
        handle_set_spray rt maths
          (forwarded_to monitor "sprayer" "set_spray" spray_data).1
          sprayer)).0.1.state
      ≡ off)
    × ((run env
          (handle_land rt maths (forwarded_to monitor "motors" "land" land_data).1 motors)).0.1.mode
        ≡ landing)
delivered_obeyed_example = delivered_obeyed rt maths monitor env sprayer motors refl refl

locked_out : IsLockedOut monitor motors.place
unfolding topic_for
locked_out = record {
  filled = refl;
  other = ground (arith, eq_iff "components.Agro.motors" "components.Agro.emergensy");
  quiet = refl;
}

abbrev land : Fields
land = message_of "components.Agro.security_monitor" "land" []

land_trusted : is_trusted_sender motors.place land ≡ true
unfolding is_trusted_sender
land_trusted = refl

landing_lost_example :
    ((run env (handle_land rt maths land motors)).0.1.mode ≡ landing)
    × (run_all env
          (handle rt)
          (load_emergency_policies monitor)
          (bodies (run env (handle_land rt maths land motors)).1)
        ≡ (load_emergency_policies monitor, []))
landing_lost_example = landing_lost rt maths env monitor motors land locked_out land_trusted

handle-IsWithinLimits_example :
    Always
      (λ topic body. ⊥)
      (SendsOrServes maths motors land)
      (Ends (IsSame motors))
      (Motors.handle rt maths land motors)
handle-IsWithinLimits_example = handle-IsWithinLimits rt maths maths-IsRounding motors land
