-- ===== src/Monitor/Parse/Validity.antt =====
-- Whatever text it reads, the parser gives a well-formed set of policies.
use https_gitflic_ru_project.Base.{
  String, ◌≡◌, refl, Option, none, some, List, [], ◌∷◌, Bool-cases, inl, inr, map,
}
use https_gitflic_ru_project.Py.Text.{nonempty, strip, split}
use https_gitflic_ru_project.Py.Value.{Value, dict, list, Items, nil, cons, Runtime}
use https_gitflic_ru_project.Monitor.Policy.{PolicyKey, Policies}
use https_gitflic_ru_project.Monitor.Policy.Validity.{
  IsFilled, IsWellFormed, key_of-IsFilled, extract_policy-IsFilled, add-IsWellFormed,
  nil-IsWellFormed,
}
use https_gitflic_ru_project.Monitor.Parse.{
  add_some, policy_of_parts, parse_chunks, policy_of_item, parse_items, parse_policies,
  parse_loaded,
}

policy_of_parts-IsFilled :
    (parts : List String) (p : PolicyKey) → policy_of_parts parts ≡ some p → IsFilled p
unfolding policy_of_parts
policy_of_parts-IsFilled (s ∷ t ∷ a ∷ []) p h = key_of-IsFilled s t a p h
policy_of_parts-IsFilled [] p h = cc
policy_of_parts-IsFilled (s ∷ []) p h = cc
policy_of_parts-IsFilled (s ∷ t ∷ []) p h = cc
policy_of_parts-IsFilled (s ∷ t ∷ a ∷ b ∷ l) p h = cc

add_some-IsWellFormed :
    (o : Option PolicyKey) (l : Policies)
    → ((p : PolicyKey) → o ≡ some p → IsFilled p)
    → IsWellFormed l
    → IsWellFormed (add_some o l)
add_some-IsWellFormed none l f w = w
add_some-IsWellFormed (some p) l f w = add-IsWellFormed p l (f p refl) w

parse_chunks-IsWellFormed :
    (chunks : List String) (l : Policies) → IsWellFormed l → IsWellFormed (parse_chunks chunks l)
unfolding parse_chunks
parse_chunks-IsWellFormed [] l w = w
parse_chunks-IsWellFormed (chunk ∷ chunks) l w =
    parse_chunks-IsWellFormed chunks _ (elim (Bool-cases (nonempty (strip chunk))) [
      | inl full ↦ rw full (
          add_some-IsWellFormed (policy_of_parts (map strip (split b',' (strip chunk)))) l
            (policy_of_parts-IsFilled (map strip (split b',' (strip chunk)))) w)
      | inr empty ↦ rw empty w
    ])

module _ (rt : Runtime) where
  policy_of_item-IsFilled : (v : Value) (p : PolicyKey) → policy_of_item rt v ≡ some p → IsFilled p
  unfolding policy_of_item
  policy_of_item-IsFilled (dict d) p h = extract_policy-IsFilled rt d p h
  policy_of_item-IsFilled (list (cons s (cons t (cons a nil)))) p h = key_of-IsFilled _ _ _ p h
  policy_of_item-IsFilled _ p h = cc

  parse_items-IsWellFormed :
      (items : Items) (l : Policies) → IsWellFormed l → IsWellFormed (parse_items rt items l)
  unfolding parse_items
  parse_items-IsWellFormed nil l w = w
  parse_items-IsWellFormed (cons v items) l w =
      parse_items-IsWellFormed items _
        (add_some-IsWellFormed (policy_of_item rt v) l (policy_of_item-IsFilled v) w)

  parse_loaded-IsWellFormed :
      (raw : String) (o : Option Value) → IsWellFormed (parse_loaded rt raw o)
  parse_loaded-IsWellFormed raw (some (list items)) =
      parse_items-IsWellFormed items [] nil-IsWellFormed
  parse_loaded-IsWellFormed raw _ = parse_chunks-IsWellFormed (split b';' raw) [] nil-IsWellFormed

  -- The policies read from any text are well formed: no key twice, no part of a key empty.
  pub parse_policies-IsWellFormed : (raw : String) → IsWellFormed (parse_policies rt raw)
  unfolding parse_policies
  parse_policies-IsWellFormed raw = elim (Bool-cases (nonempty raw)) [
    | inl full ↦ rw full (parse_loaded-IsWellFormed (strip raw) (rt.loads (strip raw)))
    | inr empty ↦ rw empty nil-IsWellFormed
  ]
