-- ===== src/Dict.antt =====
-- src/dict.h and src/dict.c: hash tables with chains, and the move of a dictionary from one table
-- to another, bucket by bucket. `none` is a failed assertion or an access outside of a table. A
-- table that is NULL is []; its size is that of the list. The counters count entries that are in
-- memory, and the indexes those of a table that is: they stay in the range of their types, and do
-- not wrap. Allocations succeed, and the destructors of keys and values are left out.
pub mod Operations
pub mod Chains
pub mod Tables
pub mod Updates
pub mod Valid
pub mod Expand
pub mod Sizes
pub mod Rehash
pub mod Bucket
pub mod Progress
pub mod Change
pub mod Laws
pub mod Store
pub mod Hash
pub mod Run
pub mod Iterator
mod Tests
use Prim.Native.Nat.{bit_and}
use prez.Prelude.{
  ℕ, zero, suc, ◌+◌, ◌-◌, ◌*◌, ◌/◌, ◌%◌, ◌^◌, Bool, true, false, not, ◌&&◌, ◌||◌, List, [], ◌∷◌,
  Option, none, some, length, get_elem?, set, drop, replicate, ltb, leb, ◌==◌, if◌then◌else◌,
}
use prez.Log.{◌>>=◌}

pub record DictEntry (K V : Type 0) : Type 0 where
  pub key : K
  pub val : V

abbrev pub Chain : Type 0 → Type 0 → Type 0
Chain K V = List (DictEntry K V)

-- struct dictht.
pub record Dictht (K V : Type 0) : Type 0 where
  pub table : List (Chain K V)
  pub used : ℕ

-- struct dict: ht[0], ht[1], and none for a rehashidx of -1.
pub record Dict (K V : Type 0) : Type 0 where
  pub ht0 : Dictht K V
  pub ht1 : Dictht K V
  pub rehashidx : Option ℕ
  pub iterators : ℕ

pub record DictType (K : Type 0) : Type 0 where
  pub hash_function : K → ℕ
  pub key_compare : K → K → Bool

abbrev pub initial_size : ℕ
initial_size = 4

abbrev pub force_resize_ratio : ℕ
force_resize_ratio = 5

abbrev pub long_max : ℕ
long_max = 2 ^ 63 - 1

unfoldable pub doubled : ℕ → ℕ → ℕ → ℕ
doubled zero i size = i
doubled (suc fuel) i size = let rest = doubled fuel (i * 2) size in if leb size i then i else rest

unfoldable pub dict_next_power : ℕ → ℕ
unfolding doubled
dict_next_power size = if leb long_max size then long_max else doubled 61 initial_size size

abbrev pub is_some : {V : Type 0} → Option V → Bool
is_some none = false
is_some (some v) = true

unfoldable pub or_else : {V : Type 0} → Option V → Option (Option V) → Option (Option V)
or_else none rest = rest
or_else (some v) rest = some (some v)

module _ {K V : Type 0} where
  abbrev pub size : Dictht K V → ℕ
  size ht = length ht.table

  abbrev pub sizemask : Dictht K V → ℕ
  sizemask ht = size ht - 1

  abbrev pub dict_reset : Dictht K V
  dict_reset = record { table = []; used = 0 }

  abbrev pub dict_create : Dict K V
  dict_create = record { ht0 = dict_reset; ht1 = dict_reset; rehashidx = none; iterators = 0 }

  abbrev pub is_rehashing : Dict K V → Bool
  is_rehashing d = is_some d.rehashidx

  unfoldable pub dict_expand : Dict K V → ℕ → Bool × Dict K V
  unfolding dict_next_power
  dict_expand d requested =
      let n : Dictht K V = record { table = replicate (dict_next_power requested) []; used = 0 } in
      if is_rehashing d || ltb requested d.ht0.used
      then (false, d)
      else if size d.ht0 == 0
      then (true, record d { ht0 = n })
      else (true, record d { ht1 = n; rehashidx = some 0 })

  -- The int `minimal`, which is negative from 2 ^ 31 on.
  abbrev pub minimal_size : Dict K V → ℕ
  minimal_size d =
      let minimal = d.ht0.used % 2 ^ 32 in
      if ltb minimal initial_size || leb (2 ^ 31) minimal then initial_size else minimal

  unfoldable pub dict_resize : Bool → Dict K V → Bool × Dict K V
  unfolding dict_expand
  dict_resize can_resize d =
      let minimal = minimal_size d in
      if not can_resize || is_rehashing d then (false, d) else dict_expand d minimal

  unfoldable pub dict_expand_if_needed : Bool → Dict K V → Bool × Dict K V
  unfolding dict_expand
  dict_expand_if_needed can_resize d =
      if is_rehashing d
      then (true, d)
      else if size d.ht0 == 0
      then dict_expand d initial_size
      else if leb (size d.ht0) d.ht0.used
          && (can_resize || ltb force_resize_ratio (d.ht0.used / size d.ht0))
      then dict_expand d (d.ht0.used * 2)
      else (true, d)

  -- The bucket behind the empty ones, with its index.
  unfoldable pub skip_empty : List (Chain K V) → ℕ → Option (ℕ × Chain K V)
  skip_empty [] i = none
  skip_empty ([] ∷ buckets) i = skip_empty buckets (suc i)
  skip_empty ((de ∷ chain) ∷ buckets) i = some (i, de ∷ chain)

  -- The end of a move: the second table takes the place of the first.
  unfoldable pub rehashed : Dict K V → Dict K V
  rehashed d = record d { ht0 = d.ht1; ht1 = dict_reset; rehashidx = none }

  unfoldable pub emptied : Dict K V → ℕ → Dict K V
  emptied d i = record d {
    ht0 = record { table = set d.ht0.table i []; used = d.ht0.used };
    rehashidx = some (suc i);
  }

  -- A new head of the chain at an index.
  unfoldable pub push : Dictht K V → ℕ → DictEntry K V → Option (Dictht K V)
  push ht index entry = do
    chain ← get_elem? ht.table index
    some (record { table = set ht.table index (entry ∷ chain); used = ht.used + 1 })

module _ {K V : Type 0} (type : DictType K) where
  abbrev pub key_index : Dictht K V → K → ℕ
  key_index ht key = bit_and (type.hash_function key) (sizemask ht)

  -- The value of the first entry with the key.
  unfoldable pub lookup : Chain K V → K → Option V
  lookup [] key = none
  lookup (he ∷ chain) key =
      let rest = lookup chain key in if type.key_compare key he.key then some he.val else rest

  unfoldable pub search : Dictht K V → K → Option (Option V)
  search ht key = do chain ← get_elem? ht.table (key_index ht key); some (lookup chain key)

  -- The loop over the two tables.
  unfoldable pub search_tables : Dict K V → K → Option (Option V)
  unfolding search or_else
  search_tables d key = do
    found ← search d.ht0 key
    or_else found (if is_rehashing d then search d.ht1 key else some none)

  unfoldable pub move_chain : Chain K V → Dict K V → Option (Dict K V)
  unfolding push
  move_chain [] d = some d
  move_chain (de ∷ chain) d = do
    ht1 ← push d.ht1 (key_index d.ht1 de.key) de
    move_chain chain
        (record d { ht0 = record { table = d.ht0.table; used = d.ht0.used - 1 }; ht1 = ht1 })

  unfoldable pub rehash_bucket : Dict K V → ℕ → Option (Dict K V)
  unfolding skip_empty move_chain emptied
  rehash_bucket d rehashidx = do
    next ← skip_empty (drop rehashidx d.ht0.table) rehashidx
    moved ← move_chain next.1 d
    some (emptied moved next.0)

  unfoldable pub rehash_loop : ℕ → Dict K V → Option (Bool × Dict K V)
  unfolding rehash_bucket rehashed
  rehash_loop zero d = some (true, d)
  rehash_loop (suc n) d = elim d.ht0.used [
    | zero ↦ some (false, rehashed d)
    | suc _ ↦ do rehashidx ← d.rehashidx; moved ← rehash_bucket d rehashidx; rehash_loop n moved
  ]

  unfoldable pub dict_rehash : Dict K V → ℕ → Option (Bool × Dict K V)
  unfolding rehash_loop
  dict_rehash d n = if is_rehashing d then rehash_loop n d else some (false, d)

  unfoldable pub dict_rehash_step : Dict K V → Option (Dict K V)
  unfolding dict_rehash
  dict_rehash_step d = if d.iterators == 0 then (dict_rehash d 1 >>= λ r. some r.1) else some d

  -- `if (dictIsRehashing(d)) _dictRehashStep(d)`.
  unfoldable pub rehash_on_use : Dict K V → Option (Dict K V)
  unfolding dict_rehash_step
  rehash_on_use d = if is_rehashing d then dict_rehash_step d else some d
