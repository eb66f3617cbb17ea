-- ===== src/Db.antt =====
-- src/db.c: the operations on the keys of a database. The dictionary is a parameter: its operations
-- with the laws of a finite map. Reference counts are left out.
pub mod Commands
pub mod Hashed
mod Tests
use prez.Prelude.{ℕ, suc, ◌≡◌, ◌≢◌, Bool, true, false, Option, none, some, ◌+◌}
use prez.Prelude.Text.{Bytes}

-- struct prezObject: its type and the bytes that it points to.
pub record Robj : Type 0 where
  pub kind : ℕ
  pub ptr : Bytes

-- PREZ_STRING.
abbrev pub prez_string : ℕ
prez_string = 0

-- dictFind, dictAdd (none is DICT_ERR), dictReplace and dictDelete (none is DICT_ERR).
pub record FiniteMap (D : Type 0) : Type 0 where
  pub find : D → Bytes → Option Robj
  pub add : D → Bytes → Robj → Option D
  pub replace : D → Bytes → Robj → D
  pub delete : D → Bytes → Option D
  pub add_absent : (d : D) (k : Bytes) (v : Robj) → find d k ≡ none → (e : D) × (add d k v ≡ some e)
  pub add_self : (d e : D) (k : Bytes) (v : Robj) → add d k v ≡ some e → find e k ≡ some v
  pub add_other :
      (d e : D) (k l : Bytes) (v : Robj) → add d k v ≡ some e → k ≢ l → find e l ≡ find d l
  pub replace_self : (d : D) (k : Bytes) (v : Robj) → find (replace d k v) k ≡ some v
  pub replace_other : (d : D) (k l : Bytes) (v : Robj) → k ≢ l → find (replace d k v) l ≡ find d l
  pub delete_present :
      (d : D) (k : Bytes) (v : Robj) → find d k ≡ some v → (e : D) × (delete d k ≡ some e)
  pub delete_absent : (d : D) (k : Bytes) → find d k ≡ none → delete d k ≡ none
  pub delete_self : (d e : D) (k : Bytes) → delete d k ≡ some e → find e k ≡ none
  pub delete_other : (d e : D) (k l : Bytes) → delete d k ≡ some e → k ≢ l → find e l ≡ find d l

-- The database server.db[0] with the counters of the server.
pub record Keyspace (D : Type 0) : Type 0 where
  pub dict : D
  pub stat_keyspace_hits : ℕ
  pub stat_keyspace_misses : ℕ

abbrev is_found : Option Robj → Bool
is_found none = false
is_found (some de) = true

module _ {D : Type 0} where
  unfoldable pub counted : Keyspace D → Option Robj → Keyspace D
  counted s none = record s { stat_keyspace_misses = s.stat_keyspace_misses + 1 }
  counted s (some val) = record s { stat_keyspace_hits = s.stat_keyspace_hits + 1 }

  abbrev deleted : D → Option D → Bool × D
  deleted db none = (false, db)
  deleted db (some e) = (true, e)

module _ {D : Type 0} (dict : FiniteMap D) where
  unfoldable pub lookup_key : D → Bytes → Option Robj
  lookup_key db key = dict.find db key

  unfoldable pub lookup_key_read : Keyspace D → Bytes → Option Robj × Keyspace D
  unfolding lookup_key counted
  lookup_key_read s key = let val = lookup_key s.dict key in (val, counted s val)

  unfoldable pub lookup_key_write : D → Bytes → Option Robj
  unfolding lookup_key
  lookup_key_write db key = lookup_key db key

  -- none is the assertion that the key is new.
  unfoldable pub db_add : D → Bytes → Robj → Option D
  db_add db key val = dict.add db key val

  unfoldable pub overwritten : D → Bytes → Robj → Option Robj → Option D
  overwritten db key val none = none
  overwritten db key val (some de) = some (dict.replace db key val)

  -- none is the assertion that the key is there.
  unfoldable pub db_overwrite : D → Bytes → Robj → Option D
  unfolding overwritten
  db_overwrite db key val = overwritten db key val (dict.find db key)

  unfoldable pub set_found : D → Bytes → Robj → Option Robj → Option D
  unfolding db_add db_overwrite
  set_found db key val none = db_add db key val
  set_found db key val (some old) = db_overwrite db key val

  unfoldable pub set_key : D → Bytes → Robj → Option D
  unfolding set_found lookup_key_write
  set_key db key val = set_found db key val (lookup_key_write db key)

  unfoldable pub db_exists : D → Bytes → Bool
  db_exists db key = is_found (dict.find db key)

  unfoldable pub db_delete : D → Bytes → Bool × D
  db_delete db key = deleted db (dict.delete db key)
