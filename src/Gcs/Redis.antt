-- ===== src/Gcs/Redis.antt =====
-- The texts and sets of a Redis database, `json.dumps`, `int` and `dict.update`, as the libraries give them: an
-- interface and what the stores rely on. The connection does not fail.
use https_gitflic_ru_project.Base.{String, ◌≡◌, Bool, true, false, Option, some}
use https_gitflic_ru_project.Py.Value.{Value, Fields, dict}
use https_gitflic_ru_project.Py.Act.{Result}

pub record Library : Type 1 where
  pub Db : Type 0
  -- The texts that `json.dumps` makes.
  pub Raw : Type 0
  pub get_key : Db → String → Option Raw
  pub set_key : Db → String → Raw → Db
  pub sadd : Db → String → String → Db
  pub srem : Db → String → String → Db
  pub sismember : Db → String → String → Bool
  pub dumps : Value → Raw
  -- `json.loads`, with none for an exception.
  pub loads : Raw → Option Value
  pub to_int : Value → Result Value
  -- `fields.update(value)` for a value that is no dict.
  pub update_from : Fields → Value → Result Fields

-- A key keeps the text that was set last, a set what was added and not removed, and a dict survives
-- `json.dumps` and `json.loads`.
pub record IsLibrary (lib : Library) : Type 0 where
  pub get-set :
      (db : lib.Db) (k : String) (s : lib.Raw) → lib.get_key (lib.set_key db k s) k ≡ some s
  pub get-sadd : (db : lib.Db) (j k s : String) → lib.get_key (lib.sadd db j s) k ≡ lib.get_key db k
  pub get-srem : (db : lib.Db) (j k s : String) → lib.get_key (lib.srem db j s) k ≡ lib.get_key db k
  pub sismember-sadd : (db : lib.Db) (k s : String) → lib.sismember (lib.sadd db k s) k s ≡ true
  pub sismember-srem : (db : lib.Db) (k s : String) → lib.sismember (lib.srem db k s) k s ≡ false
  pub loads-dumps : (d : Fields) → lib.loads (lib.dumps (dict d)) ≡ some (dict d)
