-- ===== src/Db/Commands/Replay.antt =====
-- src/db.c and src/prez.c: what the keys hold after the commands of a log.
use mathlib.Core.Bool.{true≢false}
use prez.Prelude.{
  ◌≡◌, ◌≢◌, inl, inr, refl, sym, ◌∙◌, true, List, [], ◌∷◌, Option, none, some, map, if◌then◌else◌,
  All, Bool-cases, Option-cases,
}
use prez.Prelude.Text.{Bytes, bytes_eq, codes, bytes_eq_iff, bytes_eq_refl}
use prez.Cluster.Apply.{to_lower}
use prez.Cluster.State.{Executed, by_log}
use prez.Db.{
  Robj, prez_string, FiniteMap, Keyspace, lookup_key_write, lookup_key, set_key, set_found, db_add,
  db_overwrite, overwritten,
}
use prez.Db.Commands.{set_generic_command, set_command, call_logged, string_objects, replay}

module _ {D : Type 0} (dict : FiniteMap D) where
  overwrites :
      (db : D) (key : Bytes) (val old : Robj)
      → dict.find db key ≡ some old
      → db_overwrite dict db key val ≡ some (dict.replace db key val)
  unfolding db_overwrite overwritten
  overwrites db key val old present = rw present refl

  set_key_total :
      (db : D) (key : Bytes) (val : Robj)
      → (e : D) × (set_key dict db key val ≡ some e)
        × (dict.find e key ≡ some val)
        × ((other : Bytes) → key ≢ other → dict.find e other ≡ dict.find db other)
  unfolding set_key set_found lookup_key_write lookup_key db_add
  set_key_total db key val = elim (Option-cases (dict.find db key)) [
    | inl absent ↦
        let (e, added) = dict.add_absent db key val absent in
        (
          e,
          rw absent added,
          dict.add_self db e key val added,
          λ other ne. dict.add_other db e key other val added ne,
        )
    | inr (old, present) ↦ (
      dict.replace db key val,
      rw (present, overwrites db key val old present) refl,
      dict.replace_self db key val,
      λ other ne. dict.replace_other db key other val ne,
    )
  ]

-- A write: the arguments of a `set`.
pub data Write : Executed → Type 0 where
  write :
      (name key val : Bytes) (more : List Bytes)
      → map to_lower name ≡ codes "set"
      → Write (by_log (name ∷ key ∷ val ∷ more))

unfoldable pub last_given : Bytes → Bytes → Bytes → Option Bytes → Option Bytes
last_given k key val (some later) = some later
last_given k key val none = if bytes_eq key k then some val else none

-- The value that the last of the writes to a key gave it; none without one.
unfoldable pub last_written : Bytes → List Executed → Option Bytes
last_written k [] = none
last_written k (by_log (name ∷ key ∷ val ∷ more) ∷ cmds) =
    last_given k key val (last_written k cmds)
last_written k (x ∷ cmds) = last_written k cmds

-- What a key holds after the writes.
unfoldable pub held : Option Bytes → Option Robj → Option Robj
held none before = before
held (some val) before = some (record { kind = prez_string; ptr = val })

set_is_set : bytes_eq (codes "set") (codes "set") ≡ true
set_is_set = bytes_eq_refl (codes "set")

module _ {D : Type 0} (dict : FiniteMap D) where
  call-write :
      (s : Keyspace D) (name key val : Bytes) (more : List Bytes) (e : D)
      → set_key dict s.dict key (record { kind = prez_string; ptr = val }) ≡ some e
      → call_logged dict (codes "set") (string_objects (name ∷ key ∷ val ∷ more)) s
        ≡ some (record s { dict = e })
  unfolding call_logged set_command set_generic_command string_objects
  call-write s name key val more e done = rw (set_is_set, done) refl

  held_before :
      (k key val : Bytes) (cmds : List Executed) (d e : D)
      → dict.find e key ≡ some (record { kind = prez_string; ptr = val })
      → ((other : Bytes) → key ≢ other → dict.find e other ≡ dict.find d other)
      → held (last_written k cmds) (dict.find e k)
        ≡ held (last_given k key val (last_written k cmds)) (dict.find d k)
  unfolding held last_given
  held_before k key val cmds d e same kept = elim (Option-cases (last_written k cmds)) [
    | inr (v, last) ↦ rw last refl
    | inl no_more ↦ elim (Bool-cases (bytes_eq key k)) [
      | inl here ↦
          let same_key : key ≡ k = (bytes_eq_iff key k).0 here in
          rw (no_more, here) (rw same_key at same)
      | inr other ↦
          rw (no_more, other)
            (kept k (λ h. absurd (true≢false (sym ((bytes_eq_iff key k).1 h) ∙ other))))
    ]
  ]

  -- The keys hold what was last written to them. Let a node execute from its log any number of
  -- commands, each a `set` with a key and a value at least. Then no assertion fails, and afterwards
  -- each key holds the value of the last of the commands that names it, or, without one, what it
  -- held before.
  pub replay-last_written :
      (cmds : List Executed) (s : Keyspace D) (k : Bytes)
      → All Write cmds
      → (t : Keyspace D) × (replay dict cmds s ≡ some t)
        × (dict.find t.dict k ≡ held (last_written k cmds) (dict.find s.dict k))
  unfolding replay last_written held
  replay-last_written [] s k w = (s, refl, refl)
  replay-last_written (_ ∷ cmds) s k (Write.write name key val more is_set, ws) =
      let (e, done, same, kept) =
        set_key_total dict s.dict key (record { kind = prez_string; ptr = val }) in
      let (t, later, found) = replay-last_written cmds (record s { dict = e }) k ws in
      (
        t,
        rw (is_set, call-write s name key val more e done) later,
        found ∙ held_before k key val cmds s.dict e same kept,
      )
