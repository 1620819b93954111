-- ===== src/Monitor/Proxy/Asks.antt =====
-- What a message asks the two proxies to forward.
use https_gitflic_ru_project.Base.{
  ◌≡◌, ◌≢◌, ◌==◌, refl, eq_iff, arith, [], ◌∷◌, ◌⊎◌, inl, inr, Bool, true, false, some, subst,
  Bool-cases, if◌then◌else◌,
}
use https_gitflic_ru_project.Py.Text.{nonempty, strip}
use https_gitflic_ru_project.Py.Value.{
  Value, null, bool, int, float, text, list, dict, Fields, fields_of, end, field, Runtime, get,
  get_or, or_else, str, dict_or_empty,
}
use https_gitflic_ru_project.Py.Act.{Result, ok, raised}
use https_gitflic_ru_project.Monitor.Policy.{
  Target, as_dict, stripped, target_in, target_of, extract_target,
}
use https_gitflic_ru_project.Monitor.State.{Monitor, payload_of}
use https_gitflic_ru_project.Monitor.Proxy.{forwarded}

-- The data that a proxied message has under `data`: a dict as it is, anything else as no data.
abbrev pub is_dict : Value → Bool
is_dict (dict d) = true
is_dict _ = false

abbrev pub IsData : Value → Fields → Type 0
IsData v d = (v ≡ dict d) ⊎ ((is_dict v ≡ false) × (d ≡ end))

-- What a message asks to forward: the topic and the action that its target names, which are not
-- empty, and its data.
pub record Asks (rt : Runtime) (message : Fields) (t : Target) : Type 0 where
  pub payload : Fields
  pub carried : payload_of message ≡ dict payload
  pub target : Fields
  pub targeted : or_else (get payload "target") (dict end) ≡ dict target
  pub topic_named : t.target_topic ≡ strip (str rt (get_or target "topic" (text "")))
  pub topic_filled : nonempty t.target_topic ≡ true
  pub action_named : t.target_action ≡ strip (str rt (get_or target "action" (text "")))
  pub action_filled : nonempty t.target_action ≡ true
  pub data_given : IsData (get_or payload "data" (dict end)) t.target_payload

-- What is sent on for a target: the data alone for the action `__raw__`, else a new message of the
-- monitor with that action and the data as its payload.
abbrev pub Carries : Monitor → Target → Fields → Type 0
Carries m t body =
    ((t.target_action ≡ "__raw__") × (body ≡ t.target_payload))
    ⊎ ((t.target_action ≢ "__raw__")
        × (body
            ≡ fields_of (
                ("action", text t.target_action)
                ∷ ("sender", text m.component.topic)
                ∷ ("payload", dict t.target_payload)
                ∷ [])))

pub forwarded-Carries : (m : Monitor) (t : Target) → Carries m t (forwarded m t)
forwarded-Carries m t = elim (Bool-cases (t.target_action == "__raw__")) [
  | inl e ↦ inl (ground (arith, eq_iff t.target_action "__raw__"), rw e refl)
  | inr e ↦ inr (λ q. ground (arith, eq_iff t.target_action "__raw__"), rw e refl)
]

empty_lem : (v : Value) → is_dict v ≡ false → dict_or_empty v ≡ end
empty_lem null h = refl
empty_lem (bool b) h = refl
empty_lem (int n) h = refl
empty_lem (float x) h = refl
empty_lem (text t) h = refl
empty_lem (list vs) h = refl
empty_lem (dict d) h = cc

if_lem :
    (b : Bool) (v : Value) → is_dict v ≡ false → dict_or_empty (if b then v else dict end) ≡ end
if_lem true v h = empty_lem v h
if_lem false v h = refl

data_lem : (v : Value) → IsData v (dict_or_empty (or_else v (dict end)))
data_lem (dict end) = inl refl
data_lem (dict (field k v d)) = inl refl
data_lem null = inr (refl, refl)
data_lem (bool b) = inr (refl, if_lem _ (bool b) refl)
data_lem (int n) = inr (refl, if_lem _ (int n) refl)
data_lem (float x) = inr (refl, if_lem _ (float x) refl)
data_lem (text t) = inr (refl, if_lem _ (text t) refl)
data_lem (list vs) = inr (refl, if_lem _ (list vs) refl)

as_dict_lem : (v : Value) (d : Fields) → as_dict v ≡ ok d → v ≡ dict d
as_dict_lem (dict e) d h = cc
as_dict_lem null d h = cc
as_dict_lem (bool b) d h = cc
as_dict_lem (int n) d h = cc
as_dict_lem (float x) d h = cc
as_dict_lem (text t) d h = cc
as_dict_lem (list vs) d h = cc

module _ (rt : Runtime) (message payload : Fields)
    (carried : as_dict (payload_of message) ≡ ok payload) where
  -- The target that is found.
  abbrev target_found : Fields → Target
  target_found target = record {
    target_topic = stripped rt target "topic";
    target_action = stripped rt target "action";
    target_payload = dict_or_empty (or_else (get_or payload "data" (dict end)) (dict end));
  }

  found_lem :
      (target : Fields) (t : Target)
      → target_in rt payload target ≡ some t
      → (nonempty (stripped rt target "topic") ≡ true)
        × (nonempty (stripped rt target "action") ≡ true)
        × (target_found target ≡ t)
  found_lem target t h = elim (Bool-cases (nonempty (stripped rt target "topic"))) [
    | inr f ↦ cc (rw f at h)
    | inl n ↦ elim (Bool-cases (nonempty (stripped rt target "action"))) [
      | inr f ↦ cc (rw (n, f) at h)
      | inl k ↦ (n, k, cc (rw (n, k) at h))
    ]
  ]

  target-Asks :
      (target : Fields) (t : Target)
      → or_else (get payload "target") (dict end) ≡ dict target
      → target_in rt payload target ≡ some t
      → Asks rt message t
  unfolding stripped
  target-Asks target t e h =
      let found = found_lem target t h in
      subst (Asks rt message) found.2 (record {
        payload = payload;
        carried = as_dict_lem _ payload carried;
        target = target;
        targeted = e;
        topic_named = refl;
        topic_filled = found.0;
        action_named = refl;
        action_filled = found.1;
        data_given = data_lem (get_or payload "data" (dict end));
      })

  found-Asks :
      (r : Result Fields) (t : Target)
      → as_dict (or_else (get payload "target") (dict end)) ≡ r
      → target_of rt payload r ≡ ok (some t)
      → Asks rt message t
  found-Asks (ok target) t e h = target-Asks target t (as_dict_lem _ target e) (cc)
  found-Asks (raised x) t e h = cc

  pub extract_target-Asks :
      (t : Target) → extract_target rt payload ≡ ok (some t) → Asks rt message t
  unfolding extract_target
  extract_target-Asks t h = found-Asks _ t refl h
