-- ===== src/Py/Value.antt =====
-- The values that messages are made of, as Python holds them after a decode of JSON, and what the
-- handlers do with them: `d.get(k)`, `bool(v)`, `isinstance`, `str(v)`.
use https_gitflic_ru_project.Base.{
  ℕ, String, Bool, List, [], ◌∷◌, true, false, Option, none, some, ◌≡◌, refl, ◌==◌, eq_iff, arith,
  not, nat_eq, if◌then◌else◌,
}
use https_gitflic_ru_project.Py.Text.{nonempty}
use https_gitflic_ru_project.Py.Float.{Float, float_truthy}

-- `negsuc n` is -(n + 1).
pub data ℤ : Type 0 where
  pos : ℕ → ℤ
  negsuc : ℕ → ℤ

-- A dict keeps its keys in the order in which they were first written.
mutual
  pub data Value : Type 0 where
    null : Value
    bool : Bool → Value
    int : ℤ → Value
    float : Float → Value
    text : String → Value
    list : Items → Value
    dict : Fields → Value

  pub data Items : Type 0 where
    nil : Items
    cons : Value → Items → Items

  pub data Fields : Type 0 where
    end : Fields
    field : String → Value → Fields → Fields

-- Python's exceptions, by class.
pub data Exc : Type 0 where
  type_error value_error attribute_error key_error index_error overflow_error : Exc

-- What the components take from the interpreter and its libraries without relying on its form:
-- `str` of what is no text, None or bool, the texts of exceptions, `float(text)`,
-- `json.loads` and `<=` on two lists (none where one raises).
pub record Runtime : Type 0 where
  pub show : Value → String
  pub message_of : Exc → String
  pub float_of_text : String → Option Float
  pub float_of_int : ℤ → Option Float
  pub loads : String → Option Value
  pub lists_le : Items → Items → Option Bool

-- A dict literal with keys that differ.
abbrev pub fields_of : List (String × Value) → Fields
fields_of [] = end
fields_of ((k, v) ∷ l) = field k v (fields_of l)

-- `fields.get(key)`, with none for a missing key.
unfoldable pub find : Fields → String → Option Value
find end k = none
find (field j v d) k = if j == k then some v else find d k

abbrev pub or_value : Option Value → Value → Value
or_value none v = v
or_value (some w) v = w

-- `fields.get(key, default)`
unfoldable pub get_or : Fields → String → Value → Value
unfolding find
get_or d k v = or_value (find d k) v

-- `fields.get(key)`
unfoldable pub get : Fields → String → Value
unfolding find
get d k = or_value (find d k) null

-- `fields[key] = value`
unfoldable pub put : Fields → String → Value → Fields
put end k v = field k v end
put (field j w d) k v = if j == k then field j v d else field j w (put d k v)

-- `bool(value)`
abbrev pub truthy : Value → Bool
truthy null = false
truthy (bool b) = b
truthy (int (pos n)) = not (nat_eq n 0)
truthy (int (negsuc n)) = true
truthy (float x) = float_truthy x
truthy (text s) = nonempty s
truthy (list nil) = false
truthy (list (cons v vs)) = true
truthy (dict end) = false
truthy (dict (field k v d)) = true

-- `a or b`
abbrev pub or_else : Value → Value → Value
or_else a b = if truthy a then a else b

-- `value if isinstance(value, dict) else {}`
abbrev pub dict_or_empty : Value → Fields
dict_or_empty (dict d) = d
dict_or_empty _ = end

abbrev pub is_dict : Value → Bool
is_dict (dict d) = true
is_dict _ = false

-- `isinstance(value, str) and value == s`
abbrev pub is_text : Value → String → Bool
is_text (text t) s = t == s
is_text _ s = false

-- `str(value)`
unfoldable pub str : Runtime → Value → String
str rt (text s) = s
str rt null = "None"
str rt (bool true) = "True"
str rt (bool false) = "False"
str rt v = rt.show v

-- What a read finds after a write.
pub find-put :
    (d : Fields) (k j : String) (v : Value)
    → find (put d k v) j ≡ (if k == j then some v else find d j)
unfolding find put
find-put end k j v = refl
find-put (field i w d) k j v = ground (arith, eq_iff k j, eq_iff i k, eq_iff i j, find-put d k j v)
