-- ===== src/Dict/Iterator.antt =====
-- src/dict.h and src/dict.c: iterators over the entries of a dictionary. The fingerprint that an unsafe
-- iterator compares in the end is left out.
pub mod Visits
pub mod Walk
pub mod Complete
use prez.Prelude.{
  ℕ, zero, suc, ◌+◌, ◌-◌, Bool, true, false, not, ◌&&◌, List, [], ◌∷◌, Option, none, some,
  get_elem?, ltb, ◌==◌, if◌then◌else◌,
}
use prez.Log.{◌>>=◌}
use prez.Dict.{DictEntry, Chain, Dictht, Dict, size, is_rehashing}

-- struct dictIterator: `second` is the table, `next_index` is index + 1, and the entries behind `entry`
-- stand for nextEntry.
pub record DictIterator (K V : Type 0) : Type 0 where
  pub second : Bool
  pub next_index : ℕ
  pub safe : Bool
  pub entry : Option (DictEntry K V)
  pub next_entry : Chain K V

module _ {K V : Type 0} where
  abbrev pub dict_get_iterator : DictIterator K V
  dict_get_iterator = record {
    second = false;
    next_index = 0;
    safe = false;
    entry = none;
    next_entry = [];
  }

  abbrev pub dict_get_safe_iterator : DictIterator K V
  dict_get_safe_iterator = record dict_get_iterator { safe = true }

  abbrev pub table_of : Dict K V → Bool → Dictht K V
  table_of d second = if second then d.ht1 else d.ht0

  -- The next bucket, none behind the last one.
  unfoldable pub next_bucket :
      Dict K V → DictIterator K V → Option (Option (DictIterator K V × Chain K V))
  next_bucket d it =
      let ht = table_of d it.second in
      if ltb it.next_index (size ht)
      then (do
        chain ← get_elem? ht.table it.next_index
        some (some (record it { next_index = suc it.next_index }, chain)))
      else if is_rehashing d && not it.second
      then (do
        chain ← get_elem? d.ht1.table 0
        some (some (record it { second = true; next_index = 1 }, chain)))
      else some none

  unfoldable pub next_chain :
      Dict K V → DictIterator K V → Option (Option (DictIterator K V × Chain K V))
  unfolding next_bucket
  next_chain d it = elim it.entry [
    | none ↦ next_bucket d it
    | some entry ↦ some (some (it, it.next_entry))
  ]

  unfoldable pub stopped : DictIterator K V → Option (DictEntry K V) × DictIterator K V
  stopped it = (none, record it { next_index = suc it.next_index })

  unfoldable pub visited :
      DictIterator K V → DictEntry K V → Chain K V → Option (DictEntry K V) × DictIterator K V
  visited it entry rest = (some entry, record it { entry = some entry; next_entry = rest })

  -- The loop of dictNext; none is a read outside of a table.
  unfoldable pub next_rounds :
      ℕ → Dict K V → DictIterator K V → Option (Option (DictEntry K V) × DictIterator K V)
  unfolding next_chain stopped visited
  next_rounds zero d it = none
  next_rounds (suc fuel) d it = next_chain d it >>= λ next. elim next [
    | none ↦ some (stopped it)
    | some (it', []) ↦ next_rounds fuel d (record it' { entry = none })
    | some (it', (entry ∷ rest)) ↦ some (visited it' entry rest)
  ]

  abbrev pub is_new : DictIterator K V → Bool
  is_new it = not it.second && it.next_index == 0

  abbrev pub counted_in : Dict K V → DictIterator K V → Dict K V
  counted_in d it = if is_new it && it.safe then record d { iterators = d.iterators + 1 } else d

  unfoldable pub dict_next :
      Dict K V → DictIterator K V → Option ((Option (DictEntry K V) × DictIterator K V) × Dict K V)
  unfolding next_rounds
  dict_next d it = do r ← next_rounds (size d.ht0 + size d.ht1 + 3) d it; some (r, counted_in d it)

  unfoldable pub dict_release_iterator : Dict K V → DictIterator K V → Dict K V
  dict_release_iterator d it =
      if not (is_new it) && it.safe then record d { iterators = d.iterators - 1 } else d
