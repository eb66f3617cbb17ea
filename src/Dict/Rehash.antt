-- ===== src/Dict/Rehash.antt =====
-- src/dict.c: the inner loops of dictRehash: the search for a bucket, and the move of a chain.
use prez.Prelude.{
  ℕ, zero, suc, ◌+◌, ◌-◌, ◌<◌, ◌≡◌, refl, sym, ap, ◌∙◌, inl, inr, false, List, [], ◌∷◌, Option,
  none, some, All, length, get_or, drop, if◌then◌else◌, Bool-cases, arith, none≢some,
}
use prez.Dict.{DictEntry, Chain, Dictht, Dict, DictType, size, lookup, skip_empty, move_chain}
use prez.Dict.Chains.{Lawful, Distinct, compare_flip, lookup_same}
use prez.Dict.Tables.{look, Sound, Becomes, entries, put}
use prez.Dict.Updates.{push_lem}
use prez.Dict.Valid.{either}

module _ {K V : Type 0} where
  -- The bucket that skip_empty comes to.
  pub record Found (buckets : List (Chain K V)) (i : ℕ) : Type 0 where
    pub skipped : ℕ
    pub head : DictEntry K V
    pub rest : Chain K V
    pub result : skip_empty buckets i ≡ some (i + skipped, head ∷ rest)
    pub here : get_or buckets skipped [] ≡ head ∷ rest
    pub within : skipped < length buckets
    pub empty_before : (k : ℕ) → k < skipped → get_or buckets k [] ≡ []

  one_more :
      (buckets : List (Chain K V)) (n : ℕ)
      → ((k : ℕ) → k < n → get_or buckets k [] ≡ [])
      → (k : ℕ) → k < suc n
      → get_or ([] ∷ buckets) k [] ≡ []
  one_more buckets n before zero h = refl
  one_more buckets n before (suc k) h = before k (omega (arith, h))

  Found-next : (buckets : List (Chain K V)) (i : ℕ) → Found buckets (suc i) → Found ([] ∷ buckets) i
  unfolding skip_empty
  Found-next buckets i f = record {
    skipped = suc f.skipped;
    head = f.head;
    rest = f.rest;
    result =
        let e : suc i + f.skipped ≡ i + suc f.skipped = omega arith in
        f.result ∙ ap (λ n. some (n, f.head ∷ f.rest)) e;
    here = f.here;
    within = omega (arith, f.within);
    empty_before = one_more buckets f.skipped f.empty_before;
  }

  pub skip_empty-Found :
      (buckets : List (Chain K V)) (i : ℕ) → 0 < entries buckets → Found buckets i
  unfolding entries skip_empty
  skip_empty-Found [] i h = absurd (omega (arith, h))
  skip_empty-Found ([] ∷ buckets) i h =
      Found-next buckets i (skip_empty-Found buckets (suc i) (omega (arith, h)))
  skip_empty-Found ((de ∷ chain) ∷ buckets) i h = record {
    skipped = 0;
    head = de;
    rest = chain;
    result = let e : i + 0 ≡ i = omega arith in rw e refl;
    here = refl;
    within = omega arith;
    empty_before = λ k h. absurd (omega (arith, h));
  }

  -- Empty buckets count for nothing.
  pub entries-drop :
      (t : List (Chain K V)) (r : ℕ)
      → ((i : ℕ) → i < r → get_or t i [] ≡ [])
      → entries (drop r t) ≡ entries t
  unfolding entries
  entries-drop t zero h = refl
  entries-drop [] (suc r) h = refl
  entries-drop (b ∷ t) (suc r) h =
      let e : length b ≡ 0 = rw (h 0 (omega arith)) refl in
      omega (arith, e, entries-drop t r (λ i l. h (suc i) (omega (arith, l))))

module _ {K V : Type 0} (type : DictType K) (law : Lawful type) where
  -- Of the entries behind one with another key.
  still_new :
      (ht ht' : Dictht K V) (de : DictEntry K V) (chain : Chain K V)
      → ((l : K) → look type ht' l ≡ put type (look type ht) de.key (some de.val) l)
      → lookup type chain de.key ≡ none
      → All (λ he. look type ht he.key ≡ none) chain
      → All (λ he. look type ht' he.key ≡ none) chain
  unfolding lookup
  still_new ht ht' de [] at absent new = tt
  still_new ht ht' de (he ∷ chain) at absent new =
      elim (Bool-cases (type.key_compare de.key he.key)) [
        | inl same ↦ absurd (
            none≢some
              (sym absent ∙ ap (λ b. if b then some he.val else lookup type chain de.key) same))
        | inr other ↦
            let differs : type.key_compare he.key de.key ≡ false =
              compare_flip type law he.key de.key ∙ other in
            (
              at he.key ∙ ap (λ b. if b then some de.val else look type ht he.key) differs ∙ new.0,
              still_new ht ht' de chain at
                  (ap (λ b. if b then some he.val else lookup type chain de.key) (sym other)
                    ∙ absent)
                  new.1,
            )
      ]

  -- The loop that moves a chain puts its entries into the second table.
  pub record Moved (chain : Chain K V) (d : Dict K V) : Type 0 where
    pub ht1 : Dictht K V
    pub result :
        move_chain type chain d
        ≡ some (record d {
          ht0 = record { table = d.ht0.table; used = d.ht0.used - length chain };
          ht1 = ht1;
        })
    pub becomes : Becomes type d.ht1 ht1 (λ l. either (lookup type chain l) (look type d.ht1 l))

  moved_first :
      (de : DictEntry K V) (chain : Chain K V) (f : K → Option V) (l : K)
      → lookup type chain de.key ≡ none
      → either (lookup type chain l) (put type f de.key (some de.val) l)
        ≡ either (lookup type (de ∷ chain) l) (f l)
  unfolding lookup
  moved_first de chain f l absent = elim (Bool-cases (type.key_compare l de.key)) [
    | inl same ↦ rw (same, lookup_same type law chain l de.key same, absent) refl
    | inr other ↦ rw other refl
  ]

  pub move_chain-Moved :
      (chain : Chain K V) (d : Dict K V)
      → 0 < size d.ht1
      → Sound type d.ht1
      → Distinct type chain
      → All (λ he. look type d.ht1 he.key ≡ none) chain
      → Moved chain d
  unfolding move_chain Distinct lookup
  move_chain-Moved [] d pos s distinct new = record {
    ht1 = d.ht1;
    result = let e : d.ht0.used - 0 ≡ d.ht0.used = omega arith in rw e refl;
    becomes = record { sound = s; same_size = refl; holds = λ l. refl };
  }
  move_chain-Moved (de ∷ chain) d pos s distinct new =
      let (ht', pushed, b) = push_lem type law d.ht1 de pos s new.0 in
      let d' : Dict K V = record d {
        ht0 = record { table = d.ht0.table; used = d.ht0.used - 1 };
        ht1 = ht';
      } in
      let m =
        move_chain-Moved chain d' (omega (arith, pos, b.same_size)) b.sound distinct.1
          (still_new d.ht1 ht' de chain b.holds distinct.0 new.1) in
      let e : d.ht0.used - 1 - length chain ≡ d.ht0.used - suc (length chain) = omega arith in
      record {
        ht1 = m.ht1;
        result = rw (pushed, ← e) m.result;
        becomes = record {
          sound = m.becomes.sound;
          same_size = m.becomes.same_size ∙ b.same_size;
          holds = λ l.
              m.becomes.holds l
              ∙ ap (either (lookup type chain l)) (b.holds l)
              ∙ moved_first de chain (look type d.ht1) l distinct.0;
        };
      }
