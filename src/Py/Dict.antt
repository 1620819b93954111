-- ===== src/Py/Dict.antt =====
-- Dicts and sets of Python whose keys are any values that can be hashed. Values that are equal are
-- one key, as 1, 1.0 and True; every NaN is taken for one key.
use https_gitflic_ru_project.Base.{
  suc, ◌*◌, String, Bool, true, false, Option, none, some, List, [], ◌∷◌, ◌≡◌, refl, ◌↔◌, ◌==◌,
  ◌||◌, nat_eq, eq_iff, arith, if◌then◌else◌,
}
use https_gitflic_ru_project.Py.Float.{
  Float, positive, negative, infinity, neg_infinity, nan, unit, float_ge,
}
use https_gitflic_ru_project.Py.Text.{text_lt}
use https_gitflic_ru_project.Py.Value.{
  Value, null, bool, int, float, text, list, dict, pos, negsuc, type_error, Runtime,
}
use https_gitflic_ru_project.Py.Act.{Result, ok, raised}

pub data Key : Type 0 where
  none_key : Key
  text_key : String → Key
  number_key : Float → Key

abbrev pub float_same : Float → Float → Bool
float_same (positive a) (positive b) = nat_eq a b
float_same (negative a) (negative b) = nat_eq a b
float_same infinity infinity = true
float_same neg_infinity neg_infinity = true
float_same nan nan = true
float_same _ _ = false

abbrev pub same_key : Key → Key → Bool
same_key none_key none_key = true
same_key (text_key s) (text_key t) = s == t
same_key (number_key a) (number_key b) = float_same a b
same_key _ _ = false

float_same_iff : (a b : Float) → (float_same a b ≡ true) ↔ (a ≡ b)
float_same_iff a b = ground arith

pub same_key_iff : (j k : Key) → (same_key j k ≡ true) ↔ (j ≡ k)
same_key_iff (text_key s) (text_key t) = ground (arith, eq_iff s t)
same_key_iff (number_key a) (number_key b) = ground (arith, float_same_iff a b)
same_key_iff none_key k = ground arith
same_key_iff j k = ground arith

-- The number that a value is, in units of a double; integers are exact.
unfoldable pub number_of : Value → Option Float
unfolding unit
number_of (bool true) = some (positive unit)
number_of (bool false) = some (positive 0)
number_of (int (pos n)) = some (positive (n * unit))
number_of (int (negsuc n)) = some (negative (suc n * unit))
number_of (float x) = some x
number_of _ = none

-- -0.0 and 0.0 are one key.
abbrev pub canonical : Float → Float
canonical (negative n) = if nat_eq n 0 then positive 0 else negative n
canonical x = x

-- `hash(value)`, for a look-up.
unfoldable pub hashed : Value → Result Key
unfolding number_of
hashed null = ok none_key
hashed (text s) = ok (text_key s)
hashed (list vs) = raised type_error
hashed (dict d) = raised type_error
hashed (bool true) = ok (number_key (positive unit))
hashed (bool false) = ok (number_key (positive 0))
hashed (int (pos n)) = ok (number_key (positive (n * unit)))
hashed (int (negsuc n)) = ok (number_key (negative (suc n * unit)))
hashed (float x) = ok (number_key (canonical x))

abbrev pub both : Option Float → Option Float → Result Bool
both (some x) (some y) = ok (float_ge y x)
both _ _ = raised type_error

abbrev pub or_type_error : Option Bool → Result Bool
or_type_error none = raised type_error
or_type_error (some b) = ok b

-- `a <= b`
unfoldable pub less_eq : Runtime → Value → Value → Result Bool
unfolding float_ge number_of
less_eq rt (text s) (text t) = ok (if text_lt t s then false else true)
less_eq rt (list vs) (list ws) = or_type_error (rt.lists_le vs ws)
less_eq rt a b = both (number_of a) (number_of b)

abbrev pub Dict : Type 0 → Type 0
Dict V = List (Key × V)

module _ {V : Type 0} where
  -- `d.get(k)`
  unfoldable pub lookup : Dict V → Key → Option V
  lookup [] k = none
  lookup ((j, v) ∷ d) k = if same_key j k then some v else lookup d k

  -- `d[k] = v`
  unfoldable pub insert : Dict V → Key → V → Dict V
  insert [] k v = (k, v) ∷ []
  insert ((j, w) ∷ d) k v = if same_key j k then (j, v) ∷ d else (j, w) ∷ insert d k v

  -- `d.pop(k, None)`
  unfoldable pub remove : Dict V → Key → Dict V
  remove [] k = []
  remove ((j, w) ∷ d) k = let rest = remove d k in if same_key j k then rest else (j, w) ∷ rest

  -- `d.values()`
  abbrev pub values : Dict V → List V
  values [] = []
  values ((j, v) ∷ d) = v ∷ values d

  -- What a read finds after a write.
  pub lookup-insert :
      (d : Dict V) (j k : Key) (v : V)
      → lookup (insert d j v) k ≡ (if same_key j k then some v else lookup d k)
  unfolding lookup insert
  lookup-insert [] j k v = refl
  lookup-insert ((i, w) ∷ d) j k v =
      ground (arith, same_key_iff i j, same_key_iff i k, same_key_iff j k, lookup-insert d j k v)

  pub lookup-remove :
      (d : Dict V) (j k : Key) → lookup (remove d j) k ≡ (if same_key j k then none else lookup d k)
  unfolding lookup remove
  lookup-remove [] j k = ground arith
  lookup-remove ((i, w) ∷ d) j k =
      ground (arith, same_key_iff i j, same_key_iff i k, same_key_iff j k, lookup-remove d j k)

-- `k in keys`, for a set of keys.
unfoldable pub holds : List Key → Key → Bool
holds [] k = false
holds (j ∷ l) k = same_key j k || holds l k

-- `keys.add(k)`
unfoldable pub include : List Key → Key → List Key
unfolding holds
include l k = if holds l k then l else k ∷ l

pub holds-include : (l : List Key) (j k : Key) → holds (include l j) k ≡ (same_key j k || holds l k)
unfolding include holds
holds-include l j k = ground (arith, same_key_iff j k)
