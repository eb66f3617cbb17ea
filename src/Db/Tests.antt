-- ===== src/Db/Tests.antt =====
-- src/db.c and src/prez.c: the keys of small nodes.
use prez.Prelude.{
  ◌≡◌, ◌≢◌, refl, sym, ap, ◌∙◌, Bool, true, false, [], ◌∷◌, Option, none, some, if◌then◌else◌,
  Bool-cases, inl, inr, none≢some, eq_of_some,
}
use prez.Prelude.Int.{pos}
use prez.Prelude.Text.{Bytes, codes, bytes_eq, bytes_eq_refl, eq_of_bytes_eq}
use prez.Log.Samples.{two_log, three_log}
use prez.Cluster.State.{ClusterState, Executed, by_log, follower}
use prez.Cluster.Apply.{to_lower}
use prez.Cluster.Samples.{node_with}
use prez.Db.{Robj, FiniteMap, Keyspace, prez_string}
use prez.Db.Commands.{replay}
use prez.Db.Commands.Replay.{Write, last_written, last_given, held}
use prez.Dict.{dict_create, dict_reset}
use prez.Dict.Operations.{dict_find}
use prez.Dict.Hash.{db_dict_type}
use prez.Dict.Valid.{single, Blank-Sound, reset-Blank}
use prez.Db.Hashed.{HashTable, answered, hash_table, replay-dict_find}

-- A dictionary as a function.
abbrev Table : Type 0
Table = Bytes → Option Robj

abbrev put : Table → Bytes → Option Robj → Table
put d k v = λ l. if bytes_eq k l then v else d l

abbrev is_some : Option Robj → Bool
is_some none = false
is_some (some v) = true

abbrev put_absent : Table → Bytes → Robj → Option Robj → Option Table
put_absent d k v none = some (put d k (some v))
put_absent d k v (some old) = none

abbrev taken_out : Table → Bytes → Option Robj → Option Table
taken_out d k none = none
taken_out d k (some old) = some (put d k none)

put_self : (d : Table) (k : Bytes) (v : Option Robj) → put d k v k ≡ v
put_self d k v = rw (bytes_eq_refl k) refl

put_other : (d : Table) (k l : Bytes) (v : Option Robj) → k ≢ l → put d k v l ≡ d l
put_other d k l v ne = elim (Bool-cases (bytes_eq k l)) [
  | inl same ↦ absurd (ne (eq_of_bytes_eq k l same))
  | inr other ↦ rw other refl
]

added :
    (d e : Table) (k : Bytes) (v : Robj) (o : Option Robj)
    → put_absent d k v o ≡ some e
    → put d k (some v) ≡ e
added d e k v none h = eq_of_some h
added d e k v (some old) h = absurd (none≢some h)

removed : (d e : Table) (k : Bytes) (o : Option Robj) → taken_out d k o ≡ some e → put d k none ≡ e
removed d e k none h = absurd (none≢some h)
removed d e k (some old) h = eq_of_some h

abbrev table : FiniteMap Table
table = record {
  find = λ d k. d k;
  add = λ d k v. put_absent d k v (d k);
  replace = λ d k v. put d k (some v);
  delete = λ d k. taken_out d k (d k);
  add_absent = λ d k v h. (put d k (some v), rw h refl);
  add_self = λ d e k v h. ap (λ t. t k) (sym (added d e k v (d k) h)) ∙ put_self d k (some v);
  add_other =
      λ d e k l v h ne. ap (λ t. t l) (sym (added d e k v (d k) h)) ∙ put_other d k l (some v) ne;
  replace_self = λ d k v. put_self d k (some v);
  replace_other = λ d k l v ne. put_other d k l (some v) ne;
  delete_present = λ d k v h. (put d k none, rw h refl);
  delete_absent = λ d k h. rw h refl;
  delete_self = λ d e k h. ap (λ t. t k) (sym (removed d e k (d k) h)) ∙ put_self d k none;
  delete_other =
      λ d e k l h ne. ap (λ t. t l) (sym (removed d e k (d k) h)) ∙ put_other d k l none ne;
}

abbrev no_keys : Keyspace Table
no_keys = record { dict = λ k. none; stat_keyspace_hits = 0; stat_keyspace_misses = 0 }

abbrev set_a : Executed
set_a = by_log (codes "set" ∷ codes "a" ∷ codes "1" ∷ [])

abbrev set_b : Executed
set_b = by_log (codes "set" ∷ codes "b" ∷ codes "2" ∷ [])

set_a-Write : Write set_a
unfolding to_lower
set_a-Write = Write.write (codes "set") (codes "a") (codes "1") [] refl

set_b-Write : Write set_b
unfolding to_lower
set_b-Write = Write.write (codes "set") (codes "b") (codes "2") [] refl

-- Two keys in a dictionary that had no table.
abbrev no_table : HashTable 5381
no_table = record {
  keys = dict_create;
  valid =
      (single (db_dict_type 5381) dict_reset 0
        (Blank-Sound (db_dict_type 5381) dict_reset (reset-Blank Bytes Robj))).valid;
}

abbrev nothing_stored : Keyspace (HashTable 5381)
nothing_stored = record { dict = no_table; stat_keyspace_hits = 0; stat_keyspace_misses = 0 }

replay-dict_find_example :
    (t : Keyspace (HashTable 5381)) × (replay
        (hash_table 5381 true)
        (set_a ∷ set_b ∷ [])
        nothing_stored
      ≡ some t)
    × (answered none (dict_find (db_dict_type 5381) t.dict.keys (codes "b"))
        ≡ some (record { kind = prez_string; ptr = codes "2" }))
unfolding last_written held bytes_eq last_given
replay-dict_find_example =
    replay-dict_find 5381 true (set_a ∷ set_b ∷ []) nothing_stored (codes "b")
      (set_a-Write, (set_b-Write, tt))

-- A node that has applied nothing, and one that has applied its first entry; both know of two
-- committed entries.
abbrev fresh : ClusterState
fresh = record (node_with follower 1 two_log []) { commit_index = pos 2; last_applied = pos 0 }

abbrev ahead : ClusterState
ahead = record (node_with follower 1 three_log []) { commit_index = pos 2; executed = set_a ∷ [] }

abbrev a_only : Keyspace Table
a_only = record no_keys {
  dict = put (λ k. none) (codes "a") (some (record { kind = prez_string; ptr = codes "1" }));
}
