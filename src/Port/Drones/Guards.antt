-- ===== src/Port/Drones/Guards.antt =====
-- When the drone manager sends anything.
use https_gitflic_ru_project.Base.{String, ◌≡◌, true, Option, none, some, Bool-cases, inl, inr}
use https_gitflic_ru_project.Py.Read.{iterated}
use https_gitflic_ru_project.Py.Float.{Float, of_nat, float_lt}
use https_gitflic_ru_project.Py.Value.{Value, list, nil, Fields, Runtime, get, get_or, truthy}
use https_gitflic_ru_project.Py.Act.{
  Tree, ok, Always-if_act, Always, at_ret, at_send, calls, AnyCall, Always-lift,
}
use https_gitflic_ru_project.Py.Asking.{
  AfterAsking, at_end, at_other, at_answer, AfterAsking-lift, AfterAsking-if,
}
use https_gitflic_ru_project.Port.Place.{
  Place, topic, is_blank, extract_payload, dict_or_none, only_dict,
}
use https_gitflic_ru_project.Port.Drones.{
  succeeds, parse_battery_value, land, tell_battery, landing, handle_landing, take_off, take_off_at,
  port_of, decide, takeoff, handle_takeoff,
}

-- The answer of the registry that lets a drone take off: a success with a battery above 60 %.
pub record IsCharged (rt : Runtime) (response : Option Fields) : Type 0 where
  pub succeeds : succeeds response ≡ true
  pub battery : Float
  pub reads : parse_battery_value rt (get (extract_payload response) "battery") ≡ ok (some battery)
  pub above : float_lt (of_nat 60) battery ≡ true

-- The answer of the port manager that names a port.
abbrev pub HasPort : Option Fields → Type 0
HasPort response = truthy (get (extract_payload response) "port_id") ≡ true

abbrev done : Unit {0}
done = tt

abbrev Sends : {A : Type 0} → Type 0 → Tree A → Type 0
Sends G t = Always AnyCall (λ u b. G) (λ a. Unit {0}) t

module _ (rt : Runtime) (sitl_home : String) (p : Place) where
  take_off-Sends :
      {G : Type 0}
      → G
      → (drone_id : Value) (port : Fields) (port_id : Value) (b : Float)
      → Sends G (take_off rt sitl_home drone_id port port_id b p)
  unfolding take_off
  take_off-Sends g drone_id port port_id b = search (calls, Always-lift, g, done) depth 9

  take_off_at-Sends :
      (drone_id : Value) (port : Fields) (port_id : Value) (response : Option Fields)
      (b : Option Float)
      → succeeds response ≡ true
      → parse_battery_value rt (get (extract_payload response) "battery") ≡ ok b
      → Sends (IsCharged rt response) (take_off_at rt sitl_home drone_id port port_id b p)
  unfolding take_off_at
  take_off_at-Sends drone_id port port_id response none s r = at_ret tt
  take_off_at-Sends drone_id port port_id response (some b) s r =
      Always-if_act (float_lt (of_nat 60) b) _ _ p
        (λ h.
          take_off-Sends (record { succeeds = s; battery = b; reads = r; above = h }) drone_id port
            port_id b)
        (λ h. at_ret tt)

  decide-Sends :
      (drone_id : Value) (port : Fields) (response : Option Fields)
      → Sends (IsCharged rt response) (decide rt sitl_home drone_id port response p)
  unfolding decide
  decide-Sends drone_id port response =
      Always-if_act (succeeds response) _ _ p
        (λ s.
          Always-lift (parse_battery_value rt (get (extract_payload response) "battery")) _ p
            (λ e. tt) (λ b r. take_off_at-Sends drone_id port _ response b s r))
        (λ h. at_ret tt)

  takeoff_asks :
      (payload : Option Fields)
      → AfterAsking (topic p "registry") (λ r u b. IsCharged rt r) (takeoff rt sitl_home payload p)
  unfolding takeoff
  takeoff_asks none = at_end
  takeoff_asks (some payload) = AfterAsking-if (is_blank rt (get payload "drone_id")) _ _ p at_end (
      at_other (λ ports.
        AfterAsking-lift (iterated (get_or (extract_payload ports) "ports" (list nil))) _ p
          (λ items.
            AfterAsking-lift (port_of rt (get payload "drone_id") items) _ p
              (λ port. at_answer (λ r. decide-Sends (get payload "drone_id") port r)))))

  -- A request for take-off publishes nothing before the registry was asked for the drone, and
  -- nothing after it unless the answer is a success with a battery above 60 %.
  pub handle_takeoff-IsCharged :
      (message : Fields)
      → AfterAsking
          (topic p "registry")
          (λ r u b. IsCharged rt r)
          (handle_takeoff rt sitl_home message p)
  unfolding handle_takeoff
  handle_takeoff-IsCharged message = takeoff_asks (only_dict (get message "payload"))

module _ (rt : Runtime) (p : Place) where
  land-Sends :
      {G : Type 0}
      → G
      → (drone_id model : Value) (b : Option Float) (port_id : Value)
      → Sends G (land rt drone_id model b port_id p)
  unfolding land tell_battery
  land-Sends g drone_id model none port_id = search (calls, Always-lift, g, done) depth 9
  land-Sends {G = G} g drone_id model (some b) port_id = at_send g (λ _. at_send g (λ _.
      elim (Bool-cases (float_lt b (of_nat 100))) [
        | inl e ↦ rw e (at_send g (λ _. at_ret tt))
        | inr e ↦ rw e (at_ret tt)
      ]))

  landing_asks :
      (payload : Option Fields)
      → AfterAsking (topic p "port_manager") (λ r u b. HasPort r) (landing rt payload p)
  unfolding landing
  landing_asks none = at_end
  landing_asks (some payload) = AfterAsking-if (is_blank rt (get payload "drone_id")) _ _ p at_end (
      AfterAsking-lift (parse_battery_value rt (get payload "battery")) _ p (λ b. at_answer (λ r.
        Always-if_act (truthy (get (extract_payload r) "port_id")) _ _ p
          (λ h. land-Sends h (get payload "drone_id") _ b _) (λ h. at_ret tt))))

  -- A landing publishes nothing before the port manager was asked for a port, and nothing after it
  -- unless the answer names a port.
  pub handle_landing_reserved :
      (message : Fields)
      → AfterAsking (topic p "port_manager") (λ r u b. HasPort r) (handle_landing rt message p)
  unfolding handle_landing
  handle_landing_reserved message = landing_asks (dict_or_none (get message "payload"))
