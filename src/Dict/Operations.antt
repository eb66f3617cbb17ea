-- ===== src/Dict/Operations.antt =====
-- src/dict.c: the operations on a dictionary. The Boolean of a result is DICT_OK. An entry is stored
-- with its value at once, which dictAdd and its callers fill in.
use prez.Prelude.{
  ℕ, ◌-◌, Bool, true, false, not, [], ◌∷◌, Option, none, some, get_elem?, set, ◌==◌, if◌then◌else◌,
}
use prez.Log.{◌>>=◌}
use prez.Dict.{
  DictEntry, Chain, Dictht, Dict, DictType, is_some, size, is_rehashing, dict_expand_if_needed,
  lookup, search_tables, push, key_index, rehash_on_use,
}

module _ {K V : Type 0} where
  -- The table that new entries go to.
  abbrev pub target : Dict K V → Dictht K V
  target d = if is_rehashing d then d.ht1 else d.ht0

  unfoldable pub put_target : Dict K V → Dictht K V → Dict K V
  put_target d ht = if is_rehashing d then record d { ht1 = ht } else record d { ht0 = ht }

  unfoldable pub link : Dict K V → DictEntry K V → Option ℕ → Option (Bool × Dict K V)
  unfolding push put_target
  link d entry none = some (false, d)
  link d entry (some index) = do ht ← push (target d) index entry; some (true, put_target d ht)

  -- A change in the one of the two tables that has the key.
  unfoldable pub change :
      (Dictht K V → Option (Option (Dictht K V))) → Dict K V → Option (Bool × Dict K V)
  change f d = f d.ht0 >>= λ first. elim first [
    | some ht ↦ some (true, record d { ht0 = ht })
    | none ↦
        if is_rehashing d
        then (f d.ht1 >>= λ second. elim second [
          | some ht ↦ some (true, record d { ht1 = ht })
          | none ↦ some (false, d)
        ])
        else some (false, d)
  ]

module _ {K V : Type 0} (type : DictType K) where
  unfoldable pub dict_find : Dict K V → K → Option (Option V × Dict K V)
  unfolding rehash_on_use search_tables
  dict_find d key =
      if size d.ht0 == 0
      then some (none, d)
      else (do e ← rehash_on_use type d; found ← search_tables type e key; some (found, e))

  unfoldable pub free_slot : Bool × Dict K V → K → Option (Option ℕ × Dict K V)
  unfolding search_tables
  free_slot grown key = if not grown.0 then some (none, grown.1) else (do
    found ← search_tables type grown.1 key
    some (if is_some found then none else some (key_index type (target grown.1) key), grown.1))

  -- The index for a new entry, none for -1.
  unfoldable pub dict_key_index : Bool → Dict K V → K → Option (Option ℕ × Dict K V)
  unfolding dict_expand_if_needed free_slot
  dict_key_index can_resize d key = free_slot (dict_expand_if_needed can_resize d) key

  unfoldable pub dict_add : Bool → Dict K V → K → V → Option (Bool × Dict K V)
  unfolding rehash_on_use dict_key_index link
  dict_add can_resize d key val = do
    e ← rehash_on_use type d
    slot ← dict_key_index can_resize e key
    link slot.1 (record { key = key; val = val }) slot.0

  -- Another value for the first entry with the key.
  unfoldable pub set_val : Chain K V → K → V → Chain K V
  set_val [] key val = []
  set_val (he ∷ chain) key val =
      let rest = set_val chain key val in
      if type.key_compare key he.key then record { key = he.key; val = val } ∷ chain else he ∷ rest

  -- The table in which the entry of a key has another value, none if it has no such entry.
  unfoldable pub set_val_in : Dictht K V → K → V → Option (Option (Dictht K V))
  unfolding lookup set_val
  set_val_in ht key val =
      let index = key_index type ht key in
      get_elem? ht.table index >>= λ chain. some (
        if is_some (lookup type chain key)
        then some (record { table = set ht.table index (set_val chain key val); used = ht.used })
        else none)

  unfoldable pub removed : Chain K V → K → Chain K V
  removed [] key = []
  removed (he ∷ chain) key =
      let rest = removed chain key in if type.key_compare key he.key then chain else he ∷ rest

  unfoldable pub delete_in : Dictht K V → K → Option (Option (Dictht K V))
  unfolding lookup removed
  delete_in ht key =
      let index = key_index type ht key in
      get_elem? ht.table index >>= λ chain. some (
        if is_some (lookup type chain key)
        then some (record { table = set ht.table index (removed chain key); used = ht.used - 1 })
        else none)

  unfoldable pub dict_generic_delete : Dict K V → K → Option (Bool × Dict K V)
  unfolding rehash_on_use delete_in change
  dict_generic_delete d key =
      if size d.ht0 == 0
      then some (false, d)
      else (do e ← rehash_on_use type d; change (λ ht. delete_in ht key) e)

  -- Another value for the entry that is found; none is the access to an entry that is not there.
  unfoldable pub overwrite_found : Dict K V → K → V → Option (Bool × Dict K V)
  unfolding dict_find set_val_in change
  overwrite_found d key val = do
    found ← dict_find d key
    changed ← change (λ ht. set_val_in ht key val) found.1
    if changed.0 then some (false, changed.1) else none

  -- The Boolean tells whether the key is new.
  unfoldable pub dict_replace : Bool → Dict K V → K → V → Option (Bool × Dict K V)
  unfolding dict_add overwrite_found
  dict_replace can_resize d key val = dict_add can_resize d key val >>= λ added.
      if added.0 then some (true, added.1) else overwrite_found added.1 key val
