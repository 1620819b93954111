-- ===== src/Port/Redis.antt =====
-- The hashes of a Redis database, as the client library gives them: an interface and what the
-- components rely on. The connection does not fail.
use https_gitflic_ru_project.Base.{
  String, ◌≡◌, refl, ◌≢◌, Bool-cases, inl, inr, arith, eq_iff, ◌==◌, Bool, Option, none, some, List,
}
use https_gitflic_ru_project.Py.Value.{Value, text, Fields, end, field, find, put, find-put}
use https_gitflic_ru_project.Py.Read.{merge}
use https_gitflic_ru_project.Py.Act.{Result, ok}

pub record Redis : Type 1 where
  pub Db : Type 0
  pub exists_key : Db → String → Bool
  -- `hset(key, mapping=fields)`, which raises where the client cannot store a value.
  pub hset : Db → String → Fields → Result Db
  -- `hgetall(key)`, which is empty for a missing key.
  pub hgetall : Db → String → Fields
  -- `keys(prefix + "*")`
  pub keys_from : Db → String → List String
  pub delete : Db → String → Db

abbrev pub or_found : Option Value → Option Value → Option Value
or_found none o = o
or_found (some v) o = some v

-- Dicts of texts.
abbrev pub AllText : Fields → Type 0
AllText end = Unit
AllText (field k v d) = ((s : String) × (v ≡ text s)) × AllText d

-- No key stands twice.
abbrev pub IsDict : Fields → Type 0
IsDict end = Unit
IsDict (field k v d) = (find d k ≡ none) × IsDict d

-- A mapping of texts is stored as it is; the other fields and the other keys stay.
pub record IsRedis (redis : Redis) : Type 0 where
  pub hset-stores :
      (db : redis.Db) (k f : String) (v : Value) (d : Fields)
      → AllText (field f v d)
      → (after : redis.Db) × (redis.hset db k (field f v d) ≡ ok after)
  pub hset-field :
      (db after : redis.Db) (k f : String) (d : Fields)
      → AllText d
      → IsDict d
      → redis.hset db k d ≡ ok after
      → find (redis.hgetall after k) f ≡ or_found (find d f) (find (redis.hgetall db k) f)
  pub hset-other :
      (db after : redis.Db) (k j : String) (d : Fields)
      → redis.hset db k d ≡ ok after
      → k ≢ j
      → redis.hgetall after j ≡ redis.hgetall db j
  pub hgetall-IsDict : (db : redis.Db) (k : String) → IsDict (redis.hgetall db k)

-- What a read of `{**a, **b}` finds.
pub find-merge :
    (a b : Fields) (f : String) → IsDict b → find (merge a b) f ≡ or_found (find b f) (find a f)
unfolding find merge
find-merge a end f h = refl
find-merge a (field k v b) f h =
    ground (arith, eq_iff k f, find-merge (put a k v) b f h.1, find-put a k f v, h.0)

pub put-IsDict : (d : Fields) (k : String) (v : Value) → IsDict d → IsDict (put d k v)
unfolding put find
put-IsDict end k v h = (refl, tt)
put-IsDict (field j w d) k v h = elim (Bool-cases (j == k)) [
  | inl e ↦ rw e (h.0, h.1)
  | inr e ↦
      rw e (ground (arith, find-put d k j v, eq_iff k j, eq_iff j k, h.0), put-IsDict d k v h.1)
]

pub merge-IsDict : (a b : Fields) → IsDict a → IsDict (merge a b)
unfolding merge
merge-IsDict a end h = h
merge-IsDict a (field k v b) h = merge-IsDict (put a k v) b (put-IsDict a k v h)
