-- ===== src/Db/Hashed.antt =====
-- src/db.c on src/dict.c: the keys of a database in a dictionary, dbDictType.
use mathlib.Core.Path.{subst}
use prez.Prelude.{
  not-true, ℕ, ◌≡◌, ◌≢◌, refl, sym, ap, ◌∙◌, inl, inr, Bool, true, false, not, List, Option, none,
  some, All, if◌then◌else◌, Bool-cases, none≢some, eq_of_some,
}
use prez.Prelude.Text.{Bytes}
use prez.Cluster.State.{Executed}
use prez.Dict.{Dict, is_some}
use prez.Dict.Operations.{dict_find, dict_add, dict_replace, dict_generic_delete}
use prez.Dict.Hash.{
  db_dict_type, db_dict_type-Lawful, dict_sds_key_compare, compare-eq, compare_self,
}
use prez.Dict.Tables.{put}
use prez.Dict.Valid.{content, Valid, Holds}
use prez.Dict.Laws.{dict_find_lem, dict_generic_delete_lem}
use prez.Dict.Store.{added, added_is, dict_add_lem, dict_replace_lem}
use prez.Db.{Robj, FiniteMap, Keyspace}
use prez.Db.Commands.{replay}
use prez.Db.Commands.Replay.{Write, last_written, held, replay-last_written}

abbrev pub Keys : Type 0
Keys = Dict Bytes Robj

-- What a call returns, and the dictionary afterwards.
abbrev pub answered : {A B : Type 0} → A → Option (A × B) → A
answered a none = a
answered a (some (b, d)) = b

abbrev pub dict_after : {A B : Type 0} → B → Option (A × B) → B
dict_after d none = d
dict_after d (some (b, e)) = e

module _ (seed : ℕ) where
  abbrev pub held_by : Keys → Bytes → Option Robj
  held_by = content (db_dict_type seed)

  pub record HashTable : Type 0 where
    pub keys : Keys
    pub valid : Valid (db_dict_type seed) keys

  -- The dictionary that a call leaves.
  abbrev pub left_by :
      {A : Type 0} (o : Option (A × Keys)) (d e : Keys) (a : A)
      → o ≡ some (a, e)
      → Valid (db_dict_type seed) e
      → HashTable
  left_by o d e a eq v = record {
    keys = dict_after d o;
    valid = subst (Valid (db_dict_type seed)) (sym (ap (dict_after d) eq)) v;
  }

  abbrev pub find : HashTable → Bytes → Option Robj
  find d key = answered none (dict_find (db_dict_type seed) d.keys key)

  pub find-held_by : (d : HashTable) (k : Bytes) → find d k ≡ held_by d.keys k
  find-held_by d k =
      let (e, eq, kept) =
        dict_find_lem (db_dict_type seed) (db_dict_type-Lawful seed) d.keys k d.valid in
      ap (answered none) eq

  find-left_by :
      {A : Type 0} (o : Option (A × Keys)) (d e : Keys) (a : A) (eq : o ≡ some (a, e))
      (f : Bytes → Option Robj) (h : Holds (db_dict_type seed) e f) (l : Bytes)
      → find (left_by o d e a eq h.valid) l ≡ f l
  find-left_by o d e a eq f h l =
      find-held_by (left_by o d e a eq h.valid) l
      ∙ ap (λ t. held_by t l) (ap (dict_after d) eq)
      ∙ h.holds l

  pub put_self :
      (f : Bytes → Option Robj) (k : Bytes) (o : Option Robj) → put (db_dict_type seed) f k o k ≡ o
  put_self f k o = rw (compare_self k) refl

  pub put_other :
      (f : Bytes → Option Robj) (k l : Bytes) (o : Option Robj)
      → k ≢ l
      → put (db_dict_type seed) f k o l ≡ f l
  put_other f k l o ne = elim (Bool-cases (dict_sds_key_compare l k)) [
    | inl same ↦ absurd (ne (sym (compare-eq l k same)))
    | inr other ↦ rw other refl
  ]

if_some :
    {A : Type 0} (b : Bool) (a e : A) → (if b then some a else none) ≡ some e → (b ≡ true) × (a ≡ e)
if_some true a e h = (refl, eq_of_some h)
if_some false a e h = absurd (none≢some h)

module _ (seed : ℕ) (can_resize : Bool) where
  abbrev pub after_add : HashTable seed → Bytes → Robj → HashTable seed
  after_add d k v =
      let (e, eq, h) =
        dict_add_lem (db_dict_type seed) (db_dict_type-Lawful seed) can_resize d.keys k v d.valid in
      left_by seed (dict_add (db_dict_type seed) can_resize d.keys k v) d.keys e _ eq h.valid

  abbrev pub add : HashTable seed → Bytes → Robj → Option (HashTable seed)
  add d k v =
      if answered false (dict_add (db_dict_type seed) can_resize d.keys k v)
      then some (after_add d k v)
      else none

  abbrev pub replace : HashTable seed → Bytes → Robj → HashTable seed
  replace d k v =
      let (e, eq, h) =
        dict_replace_lem (db_dict_type seed) (db_dict_type-Lawful seed) can_resize d.keys k v
          d.valid in
      left_by seed (dict_replace (db_dict_type seed) can_resize d.keys k v) d.keys e _ eq h.valid

  abbrev pub after_delete : HashTable seed → Bytes → HashTable seed
  after_delete d k =
      let (e, eq, h) =
        dict_generic_delete_lem (db_dict_type seed) (db_dict_type-Lawful seed) d.keys k d.valid in
      left_by seed (dict_generic_delete (db_dict_type seed) d.keys k) d.keys e _ eq h.valid

  abbrev pub delete : HashTable seed → Bytes → Option (HashTable seed)
  delete d k =
      if answered false (dict_generic_delete (db_dict_type seed) d.keys k)
      then some (after_delete d k)
      else none

  pub find-add :
      (d e : HashTable seed) (k : Bytes) (v : Robj)
      → add d k v ≡ some e
      → (l : Bytes) → find seed e l ≡ put (db_dict_type seed) (held_by seed d.keys) k (some v) l
  find-add d e k v done l =
      let (g, eq, h) =
        dict_add_lem (db_dict_type seed) (db_dict_type-Lawful seed) can_resize d.keys k v d.valid in
      let o = dict_add (db_dict_type seed) can_resize d.keys k v in
      let (yes_added, same) = if_some (answered false o) _ e done in
      let new = not-true _ (sym (ap (answered false) eq) ∙ yes_added) in
      ap (λ t. find seed t l) (sym same)
      ∙ find-left_by seed o d.keys g _ eq (added (db_dict_type seed) (held_by seed d.keys) k v) h l
      ∙ ap (λ f. f l) (added_is (db_dict_type seed) (held_by seed d.keys) k v false new)

  pub find-replace :
      (d : HashTable seed) (k : Bytes) (v : Robj) (l : Bytes)
      → find seed (replace d k v) l ≡ put (db_dict_type seed) (held_by seed d.keys) k (some v) l
  find-replace d k v l =
      let (g, eq, h) =
        dict_replace_lem (db_dict_type seed) (db_dict_type-Lawful seed) can_resize d.keys k v
          d.valid in
      find-left_by seed (dict_replace (db_dict_type seed) can_resize d.keys k v) d.keys g _ eq _ h l

  pub find-delete :
      (d e : HashTable seed) (k : Bytes)
      → delete d k ≡ some e
      → (l : Bytes) → find seed e l ≡ put (db_dict_type seed) (held_by seed d.keys) k none l
  find-delete d e k done l =
      let (g, eq, h) =
        dict_generic_delete_lem (db_dict_type seed) (db_dict_type-Lawful seed) d.keys k d.valid in
      let o = dict_generic_delete (db_dict_type seed) d.keys k in
      let (gone, same) = if_some (answered false o) _ e done in
      ap (λ t. find seed t l) (sym same) ∙ find-left_by seed o d.keys g _ eq _ h l

  -- The dictionary of src/dict.c is a finite map.
  abbrev pub hash_table : FiniteMap (HashTable seed)
  hash_table = record {
    find = find seed;
    add = add;
    replace = replace;
    delete = delete;
    add_absent = λ d k v h.
        let (e, eq, g) =
          dict_add_lem (db_dict_type seed) (db_dict_type-Lawful seed) can_resize d.keys k v
            d.valid in
        let fresh_key = ap is_some (sym (find-held_by seed d k) ∙ h) in
        (
          after_add d k v,
          ap (λ b. if b then some (after_add d k v) else none)
              (ap (answered false) eq ∙ ap not fresh_key),
        );
    add_self = λ d e k v h. find-add d e k v h k ∙ put_self seed (held_by seed d.keys) k (some v);
    add_other = λ d e k l v h ne.
        find-add d e k v h l
        ∙ put_other seed (held_by seed d.keys) k l (some v) ne
        ∙ sym (find-held_by seed d l);
    replace_self = λ d k v. find-replace d k v k ∙ put_self seed (held_by seed d.keys) k (some v);
    replace_other = λ d k l v ne.
        find-replace d k v l
        ∙ put_other seed (held_by seed d.keys) k l (some v) ne
        ∙ sym (find-held_by seed d l);
    delete_present = λ d k v h.
        let (e, eq, g) =
          dict_generic_delete_lem (db_dict_type seed) (db_dict_type-Lawful seed) d.keys k d.valid in
        let there = ap is_some (sym (find-held_by seed d k) ∙ h) in
        (
          after_delete d k,
          ap (λ b. if b then some (after_delete d k) else none) (ap (answered false) eq ∙ there),
        );
    delete_absent = λ d k h.
        let (e, eq, g) =
          dict_generic_delete_lem (db_dict_type seed) (db_dict_type-Lawful seed) d.keys k d.valid in
        let gone = ap is_some (sym (find-held_by seed d k) ∙ h) in
        ap (λ b. if b then some (after_delete d k) else none) (ap (answered false) eq ∙ gone);
    delete_self = λ d e k h. find-delete d e k h k ∙ put_self seed (held_by seed d.keys) k none;
    delete_other = λ d e k l h ne.
        find-delete d e k h l
        ∙ put_other seed (held_by seed d.keys) k l none ne
        ∙ sym (find-held_by seed d l);
  }

  -- Writes to the hash table. Let a node execute from its log any number of commands, each a `set`
  -- with a key and a value at least, on a dictionary in order, be it in the middle of a move or not.
  -- Then no assertion fails, and afterwards dictFind returns at each key the value of the last of
  -- the commands that names it, or, without one, what it returned before.
  pub replay-dict_find :
      (cmds : List Executed) (s : Keyspace (HashTable seed)) (k : Bytes)
      → All Write cmds
      → (t : Keyspace (HashTable seed)) × (replay hash_table cmds s ≡ some t)
        × (answered none (dict_find (db_dict_type seed) t.dict.keys k)
            ≡ held
                (last_written k cmds)
                (answered none (dict_find (db_dict_type seed) s.dict.keys k)))
  replay-dict_find cmds s k w = replay-last_written hash_table cmds s k w
