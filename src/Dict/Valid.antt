-- ===== src/Dict/Valid.antt =====
-- src/dict.c: a dictionary as a finite map, the invariant of its two tables, and what creates and
-- resizes a table.
use prez.Prelude.{
  ℕ, zero, suc, ◌<◌, ◌≡◌, ◌⊎◌, refl, sym, inr, [], Option, none, some, get_or, replicate, arith,
  none≢some,
}
use prez.Dict.{Chain, Dictht, Dict, DictType, size, dict_reset, lookup}
use prez.Dict.Chains.{Distinct}
use prez.Dict.Tables.{look, Sound, entries, bucket}

abbrev pub either : {V : Type 0} → Option V → Option V → Option V
either none other = other
either (some v) other = some v

module _ {K V : Type 0} (type : DictType K) where
  -- What a dictionary holds at a key.
  unfoldable pub content : Dict K V → K → Option V
  content d key = either (look type d.ht0 key) (look type d.ht1 key)

-- While entries move, both tables have buckets, and those before rehashidx are empty in the first.
pub record Busy {K V : Type 0} (d : Dict K V) (rehashidx : ℕ) : Type 0 where
  pub old : 0 < size d.ht0
  pub new : 0 < size d.ht1
  pub behind : (i : ℕ) → i < rehashidx → bucket d.ht0 i ≡ []

module _ {K V : Type 0} where
  -- A table without entries.
  pub record Blank (ht : Dictht K V) : Type 0 where
    pub no_entry : ht.used ≡ entries ht.table
    pub all_empty : (i : ℕ) → bucket ht i ≡ []

module _ (K V : Type 0) where
  pub reset-Blank : Blank {K = K} {V = V} dict_reset
  unfolding entries
  reset-Blank = record { no_entry = refl; all_empty = λ i. refl }

  entries-replicate : (n : ℕ) → entries (replicate {A = Chain K V} n []) ≡ 0
  unfolding entries
  entries-replicate zero = refl
  entries-replicate (suc n) = omega (arith, entries-replicate n)

  get_or-replicate : (n i : ℕ) → get_or (replicate {A = Chain K V} n []) i [] ≡ []
  get_or-replicate zero i = refl
  get_or-replicate (suc n) zero = refl
  get_or-replicate (suc n) (suc i) = get_or-replicate n i

  pub zcalloc-Blank : (n : ℕ) → Blank {K = K} {V = V} (record { table = replicate n []; used = 0 })
  zcalloc-Blank n = record {
    no_entry = sym (entries-replicate n);
    all_empty = λ i. get_or-replicate n i;
  }

pub either-none : {V : Type 0} (o : Option V) → either o none ≡ o
either-none none = refl
either-none (some v) = refl

module _ {K V : Type 0} (type : DictType K) where
  pub record Valid (d : Dict K V) : Type 0 where
    pub sound0 : Sound type d.ht0
    pub sound1 : Sound type d.ht1
    pub apart : (k : K) → (look type d.ht0 k ≡ none) ⊎ (look type d.ht1 k ≡ none)
    pub idle : d.rehashidx ≡ none → d.ht1 ≡ dict_reset
    pub busy : (r : ℕ) → d.rehashidx ≡ some r → Busy d r

  -- A dictionary in order, as a given map.
  pub record Holds (d : Dict K V) (f : K → Option V) : Type 0 where
    pub valid : Valid d
    pub holds : (l : K) → content type d l ≡ f l

  pub Blank-Sound : (ht : Dictht K V) → Blank ht → Sound type ht
  unfolding Distinct
  Blank-Sound ht b = record {
    counted = b.no_entry;
    buckets = λ i. rw (b.all_empty i) (record { placed = tt; distinct = tt });
  }

  pub Blank-look : (ht : Dictht K V) (k : K) → Blank ht → look type ht k ≡ none
  unfolding look lookup
  Blank-look ht k b = rw (b.all_empty _) refl

  -- A dictionary of one table.
  pub single :
      (ht : Dictht K V) (n : ℕ)
      → Sound type ht
      → Holds
          (record { ht0 = ht; ht1 = dict_reset; rehashidx = none; iterators = n })
          (look type ht)
  unfolding content
  single ht n s = record {
    valid = record {
      sound0 = s;
      sound1 = Blank-Sound dict_reset (reset-Blank K V);
      apart = λ k. inr (Blank-look dict_reset k (reset-Blank K V));
      idle = λ e. refl;
      busy = λ r e. absurd (none≢some e);
    };
    holds = λ l. rw (Blank-look dict_reset l (reset-Blank K V)) (either-none (look type ht l));
  }
