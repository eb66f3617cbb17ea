-- ===== src/Dict/Tables.antt =====
-- src/dict.c: one hash table as a finite map: what it holds at a key, and what keeps that in order.
use Prim.Native.Nat.{bit_and, bit_and-bitwise, digits, min}
use prez.Prelude.{
  ℕ, zero, suc, ◌+◌, ◌/◌, ◌<◌, ◌≤◌, ◌≡◌, ◌≢◌, refl, ap, List, [], ◌∷◌, Option, some, All, length,
  get_elem?, get_or, set, length-set, if◌then◌else◌, ℕ_discrete, arith,
}
use prez.Dict.{Chain, Dictht, DictType, lookup, size, sizemask, key_index, search}
use prez.Dict.Chains.{Distinct}

digits-min-le : (n a b : ℕ) → digits (λ b. zero) min n a b ≤ b
digits-min-le zero a b = omega arith
digits-min-le (suc n) zero b = omega arith
digits-min-le (suc n) (suc a) b = omega (arith, digits-min-le n (suc a / 2) (b / 2))

bit_and-le : (a m : ℕ) → bit_and a m ≤ m
bit_and-le a m =
    let e : bit_and a m ≡ digits (λ b. zero) min a a m = λ i. bit_and-bitwise a m i in
    rw e (digits-min-le a a m)

module _ {A : Type 0} where
  get_elem?-get_or :
      (xs : List A) (i : ℕ) (d : A) → i < length xs → get_elem? xs i ≡ some (get_or xs i d)
  get_elem?-get_or [] i d h = absurd (omega arith)
  get_elem?-get_or (x ∷ xs) zero d h = refl
  get_elem?-get_or (x ∷ xs) (suc i) d h = get_elem?-get_or xs i d (omega arith)

  pub get_or-set_self :
      (xs : List A) (i : ℕ) (v d : A) → i < length xs → get_or (set xs i v) i d ≡ v
  get_or-set_self [] i v d h = absurd (omega arith)
  get_or-set_self (x ∷ xs) zero v d h = refl
  get_or-set_self (x ∷ xs) (suc i) v d h = get_or-set_self xs i v d (omega arith)

  pub get_or-set_ne :
      (xs : List A) (i j : ℕ) (v d : A) → j ≢ i → get_or (set xs i v) j d ≡ get_or xs j d
  get_or-set_ne [] i j v d h = refl
  get_or-set_ne (x ∷ xs) zero zero v d h = absurd (h refl)
  get_or-set_ne (x ∷ xs) zero (suc j) v d h = refl
  get_or-set_ne (x ∷ xs) (suc i) zero v d h = refl
  get_or-set_ne (x ∷ xs) (suc i) (suc j) v d h = get_or-set_ne xs i j v d (λ e. h (ap suc e))

module _ {K V : Type 0} where
  unfoldable pub entries : List (Chain K V) → ℕ
  entries [] = 0
  entries (chain ∷ buckets) = length chain + entries buckets

  entries-set :
      (t : List (Chain K V)) (i : ℕ) (c : Chain K V)
      → i < length t
      → entries (set t i c) + length (get_or t i []) ≡ entries t + length c
  unfolding entries
  entries-set [] i c h = absurd (omega arith)
  entries-set (b ∷ t) zero c h = omega arith
  entries-set (b ∷ t) (suc i) c h = omega (arith, entries-set t i c (omega arith))

  pub length-le_entries : (t : List (Chain K V)) (i : ℕ) → length (get_or t i []) ≤ entries t
  unfolding entries
  length-le_entries [] i = omega arith
  length-le_entries (b ∷ t) zero = omega arith
  length-le_entries (b ∷ t) (suc i) = omega (arith, length-le_entries t i)

  abbrev pub with_bucket : Dictht K V → ℕ → Chain K V → ℕ → Dictht K V
  with_bucket ht i c u = record { table = set ht.table i c; used = u }

  abbrev pub bucket : Dictht K V → ℕ → Chain K V
  bucket ht i = get_or ht.table i []

module _ {K V : Type 0} (type : DictType K) where
  -- What a table holds at a key.
  unfoldable pub look : Dictht K V → K → Option V
  unfolding lookup
  look ht key = lookup type (bucket ht (key_index type ht key)) key

  -- Every entry is in the bucket of its key, and the keys of a chain are different.
  pub record Good (mask i : ℕ) (chain : Chain K V) : Type 0 where
    pub placed : All (λ he. bit_and (type.hash_function he.key) mask ≡ i) chain
    pub distinct : Distinct type chain

  pub record Sound (ht : Dictht K V) : Type 0 where
    pub counted : ht.used ≡ entries ht.table
    pub buckets : (i : ℕ) → Good (sizemask ht) i (bucket ht i)

  pub record Becomes (ht ht' : Dictht K V) (f : K → Option V) : Type 0 where
    pub sound : Sound ht'
    pub same_size : size ht' ≡ size ht
    pub holds : (l : K) → look ht' l ≡ f l

  -- A map with another value at the keys that are equal to one.
  abbrev pub put : (K → Option V) → K → Option V → K → Option V
  put f k o l = if type.key_compare l k then o else f l

  pub key_index-lt : (ht : Dictht K V) (k : K) → 0 < size ht → key_index type ht k < size ht
  key_index-lt ht k h = omega (arith, bit_and-le (type.hash_function k) (sizemask ht))

  pub bucket_there :
      (ht : Dictht K V) (k : K)
      → 0 < size ht
      → get_elem? ht.table (key_index type ht k) ≡ some (bucket ht (key_index type ht k))
  bucket_there ht k h = get_elem?-get_or ht.table (key_index type ht k) [] (key_index-lt ht k h)

  pub search-look : (ht : Dictht K V) (k : K) → 0 < size ht → search type ht k ≡ some (look ht k)
  unfolding search look
  search-look ht k h = rw (bucket_there ht k h) refl

  pub look-with_bucket_here :
      (ht : Dictht K V) (i : ℕ) (c : Chain K V) (u : ℕ) (l : K)
      → i < size ht
      → key_index type ht l ≡ i
      → look (with_bucket ht i c u) l ≡ lookup type c l
  unfolding look
  look-with_bucket_here ht i c u l h e =
      rw (length-set ht.table i c, e, get_or-set_self ht.table i c [] h) refl

  pub look-with_bucket_other :
      (ht : Dictht K V) (i : ℕ) (c : Chain K V) (u : ℕ) (l : K)
      → key_index type ht l ≢ i
      → look (with_bucket ht i c u) l ≡ look ht l
  unfolding look
  look-with_bucket_other ht i c u l ne =
      rw (length-set ht.table i c, get_or-set_ne ht.table i (key_index type ht l) c [] ne) refl

  pub Sound-with_bucket :
      (ht : Dictht K V) (i : ℕ) (c : Chain K V) (u : ℕ)
      → Sound ht
      → i < size ht
      → Good (sizemask ht) i c
      → u + length (bucket ht i) ≡ ht.used + length c
      → Sound (with_bucket ht i c u)
  Sound-with_bucket ht i c u s h good count = record {
    counted = omega (arith, s.counted, count, entries-set ht.table i c h);
    buckets = λ j. rw (length-set ht.table i c) (elim (ℕ_discrete j i) [
      | yes same ↦ rw (same, get_or-set_self ht.table i c [] h) good
      | no other ↦ rw (get_or-set_ne ht.table i j c [] other) (s.buckets j)
    ]);
  }
