-- ===== src/Py/Read.antt =====
-- What the handlers read from values: attributes of dicts, items, the items of a `for`, floats, `==`.
pub mod Outcome
use https_gitflic_ru_project.Base.{
  ℕ, suc, String, Bool, true, false, Option, none, some, ◌==◌, ◌&&◌, nat_eq,
}
use https_gitflic_ru_project.Py.Float.{Float, positive, negative, infinity, neg_infinity, of_nat}
use https_gitflic_ru_project.Py.Value.{
  Value, null, bool, int, float, text, list, dict, Items, nil, cons, Fields, end, field, Runtime,
  Exc, type_error, value_error, attribute_error, key_error, overflow_error, find, put,
}
use https_gitflic_ru_project.Py.Act.{Result, ok, raised}
use https_gitflic_ru_project.Py.Dict.{number_of}

-- The sequencing of computations that may raise and do nothing else.
abbrev pub then_check : {A B : Type 0} → Result A → (A → Result B) → Result B
then_check (ok a) f = f a
then_check (raised e) f = raised e

-- `value.get(...)` is an AttributeError on what is no dict.
abbrev pub as_dict : Value → Result Fields
as_dict (dict d) = ok d
as_dict _ = raised attribute_error

abbrev pub found : Option Value → Result Value
found none = raised key_error
found (some v) = ok v

-- `fields[key]`
unfoldable pub item : Fields → String → Result Value
unfolding find
item d k = found (find d k)

-- The items that a `for` goes through: a dict gives its keys, a text its characters.
abbrev pub characters : String → Items
characters String.[] = nil
characters (String.◌∷◌ c s) = cons (text (String.◌∷◌ c "")) (characters s)

abbrev pub keys : Fields → Items
keys end = nil
keys (field k v d) = cons (text k) (keys d)

unfoldable pub iterated : Value → Result Items
iterated (list vs) = ok vs
iterated (text s) = ok (characters s)
iterated (dict d) = ok (keys d)
iterated _ = raised type_error

-- `{**a, **b}`
unfoldable pub merge : Fields → Fields → Fields
unfolding put
merge a end = a
merge a (field k v b) = merge (put a k v) b

abbrev pub float_or : Exc → Option Float → Result Float
float_or e none = raised e
float_or e (some x) = ok x

-- `float(value)`
unfoldable pub to_float : Runtime → Value → Result Float
to_float rt (text s) = float_or value_error (rt.float_of_text s)
to_float rt (int n) = float_or overflow_error (rt.float_of_int n)
to_float rt (bool true) = ok (of_nat 1)
to_float rt (bool false) = ok (of_nat 0)
to_float rt (float x) = ok x
to_float rt _ = raised type_error

-- `try: float(value) except (TypeError, ValueError): None`
abbrev pub number_or_none : Result Float → Result (Option Float)
number_or_none (ok x) = ok (some x)
number_or_none (raised type_error) = ok none
number_or_none (raised value_error) = ok none
number_or_none (raised e) = raised e

-- `a == b` on numbers.
abbrev pub float_eq : Float → Float → Bool
float_eq (positive a) (positive b) = nat_eq a b
float_eq (negative a) (negative b) = nat_eq a b
float_eq (positive a) (negative b) = nat_eq a 0 && nat_eq b 0
float_eq (negative a) (positive b) = nat_eq a 0 && nat_eq b 0
float_eq infinity infinity = true
float_eq neg_infinity neg_infinity = true
float_eq _ _ = false

abbrev pub number_eq : Option Float → Option Float → Bool
number_eq (some x) (some y) = float_eq x y
number_eq _ _ = false

-- `len(items)`
abbrev pub items_count : Items → ℕ
items_count nil = 0
items_count (cons v vs) = suc (items_count vs)

-- `items.append(value)`
abbrev pub append_item : Items → Value → Items
append_item nil v = cons v nil
append_item (cons w vs) v = cons w (append_item vs v)

abbrev pub fields_count : Fields → ℕ
fields_count end = 0
fields_count (field k v d) = suc (fields_count d)

-- `a == b`; the order of the keys of a dict does not count.
unfoldable mutual
  unfolding find number_of

  pub equal : Value → Value → Bool
  equal null null = true
  equal (text s) (text t) = s == t
  equal (list a) (list b) = equal_items a b
  equal (dict a) (dict b) = nat_eq (fields_count a) (fields_count b) && equal_fields a b
  equal (bool a) v = number_eq (number_of (bool a)) (number_of v)
  equal (int a) v = number_eq (number_of (int a)) (number_of v)
  equal (float a) v = number_eq (number_of (float a)) (number_of v)
  equal _ _ = false

  pub equal_items : Items → Items → Bool
  equal_items nil nil = true
  equal_items (cons v a) (cons w b) = equal v w && equal_items a b
  equal_items _ _ = false

  pub equal_fields : Fields → Fields → Bool
  equal_fields end b = true
  equal_fields (field k v a) b =
      elim (find b k) [ none ↦ false | some w ↦ equal v w ] && equal_fields a b
