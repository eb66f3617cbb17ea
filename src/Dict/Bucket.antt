-- ===== src/Dict/Bucket.antt =====
-- src/dict.c: a round of dictRehash, the move of a bucket, keeps what a dictionary holds.
use Prim.Native.Nat.{bit_and}
use mathlib.Core.Bool.{true≢false}
use prez.Prelude.{
  length-set, eq_of_some, dec_lt, length-drop, ℕ, suc, ◌+◌, ◌-◌, ◌<◌, ◌≤◌, ◌≡◌, ◌≢◌, ◌⊎◌, refl, sym,
  ap, ◌∙◌, inl, inr, Bool, true, false, List, [], ◌∷◌, Option, none, some, All, All-map2, length,
  get_or, get_or-drop, drop, if◌then◌else◌, Bool-cases, ℕ_discrete, arith, none≢some,
}
use prez.Dict.{
  DictEntry, Chain, Dict, DictType, size, sizemask, is_some, is_rehashing, lookup, key_index,
  skip_empty, emptied, rehash_bucket,
}
use prez.Dict.Chains.{Lawful, Distinct}
use prez.Dict.Tables.{
  get_or-set_self, get_or-set_ne, look, Good, Sound, entries, bucket, length-le_entries,
  with_bucket, Sound-with_bucket, look-with_bucket_here, look-with_bucket_other,
}
use prez.Dict.Valid.{content, either, Valid, Busy}
use prez.Dict.Expand.{Kept}
use prez.Dict.Rehash.{skip_empty-Found, entries-drop, Moved, move_chain-Moved}

module _ {K V : Type 0} where
  -- The bucket that is moved next: the first one at rehashidx or behind it that has entries.
  pub record Next (d : Dict K V) (r : ℕ) : Type 0 where
    pub index : ℕ
    pub head : DictEntry K V
    pub rest : Chain K V
    pub result : skip_empty (drop r d.ht0.table) r ≡ some (index, head ∷ rest)
    pub here : bucket d.ht0 index ≡ head ∷ rest
    pub within : index < size d.ht0
    pub empty_before : (k : ℕ) → k < index → bucket d.ht0 k ≡ []

  empty_up_to :
      (t : List (Chain K V)) (r n : ℕ)
      → ((i : ℕ) → i < r → get_or t i [] ≡ [])
      → ((k : ℕ) → k < n → get_or (drop r t) k [] ≡ [])
      → (k : ℕ) → k < r + n
      → get_or t k [] ≡ []
  empty_up_to t r n below before k h = elim (dec_lt k r) [
    | yes l ↦ below k l
    | no ge ↦
        let e : r + (k - r) ≡ k = omega arith in
        ap (λ j. get_or t j []) (sym e)
        ∙ sym (get_or-drop r (k - r) t [])
        ∙ before (k - r) (omega arith)
  ]

  Next-bucket :
      (d : Dict K V) (r : ℕ)
      → d.ht0.used ≡ entries d.ht0.table
      → Busy d r
      → 0 < d.ht0.used
      → Next d r
  Next-bucket d r counted b left =
      let t = d.ht0.table in
      let f =
        skip_empty-Found (drop r t) r (omega (arith, counted, left, entries-drop t r b.behind)) in
      record {
        index = r + f.skipped;
        head = f.head;
        rest = f.rest;
        result = f.result;
        here = sym (get_or-drop r f.skipped t []) ∙ f.here;
        within = omega (arith, f.within, length-drop r t);
        empty_before = empty_up_to t r f.skipped b.behind f.empty_before;
      }

still_some :
    {V : Type 0} (b : Bool) (v : V) (o : Option V)
    → is_some o ≡ true
    → is_some (if b then some v else o) ≡ true
still_some true v o h = refl
still_some false v o h = h

module _ {K V : Type 0} (type : DictType K) (law : Lawful type) where
  -- An entry of a chain is found in it.
  pub in_chain : (chain : Chain K V) → All (λ he. is_some (lookup type chain he.key) ≡ true) chain
  unfolding lookup
  in_chain [] = tt
  in_chain (de ∷ chain) = (
    rw (law.compare_refl de.key) refl,
    All-map2 chain (λ he p q. still_some (type.key_compare he.key de.key) de.val _ p)
        (in_chain chain) (in_chain chain),
  )

  pub elsewhere :
      (mask i : ℕ) (chain : Chain K V) (l : K)
      → bit_and (type.hash_function l) mask ≢ i
      → All (λ he. bit_and (type.hash_function he.key) mask ≡ i) chain
      → lookup type chain l ≡ none
  unfolding lookup
  elsewhere mask i [] l ne placed = refl
  elsewhere mask i (de ∷ chain) l ne placed = elim (Bool-cases (type.key_compare l de.key)) [
    | inl same ↦ absurd (ne (ap (λ n. bit_and n mask) (law.hash_same l de.key same) ∙ placed.0))
    | inr other ↦ rw other (elsewhere mask i chain l ne placed.1)
  ]

  module _ (d : Dict K V) (r : ℕ) (v : Valid type d) (n : Next d r) where
    look_there :
        (l : K)
        → key_index type d.ht0 l ≡ n.index
        → look type d.ht0 l ≡ lookup type (n.head ∷ n.rest) l
    unfolding look
    look_there l e = ap (λ j. lookup type (bucket d.ht0 j) l) e ∙ ap (λ c. lookup type c l) n.here

    chain-Good : Good type (sizemask d.ht0) n.index (n.head ∷ n.rest)
    chain-Good = rw (← n.here) (v.sound0.buckets n.index)

    -- The second table has none of the keys.
    chain_new : All (λ he. look type d.ht1 he.key ≡ none) (n.head ∷ n.rest)
    chain_new =
        All-map2 (n.head ∷ n.rest)
          (λ he placed found. elim (v.apart he.key) [
            | inl absent ↦
                absurd
                  (true≢false (sym found ∙ ap is_some (sym (look_there he.key placed) ∙ absent)))
            | inr new ↦ new
          ])
          chain-Good.placed (in_chain (n.head ∷ n.rest))

    abbrev moved : Moved type law (n.head ∷ n.rest) d → Dict K V
    moved m = record d {
      ht0 = with_bucket d.ht0 n.index [] (d.ht0.used - suc (length n.rest));
      ht1 = m.ht1;
      rehashidx = some (suc n.index);
    }

    -- What the two tables hold at a key, before and after.
    moved-look :
        (m : Moved type law (n.head ∷ n.rest) d) (l : K)
        → ((look type d.ht0 l ≡ lookup type (n.head ∷ n.rest) l)
            × (look type (moved m).ht0 l ≡ none))
          ⊎ ((lookup type (n.head ∷ n.rest) l ≡ none)
              × (look type (moved m).ht0 l ≡ look type d.ht0 l))
    unfolding lookup
    moved-look m l =
        let u = d.ht0.used - suc (length n.rest) in
        elim (ℕ_discrete (key_index type d.ht0 l) n.index) [
          | yes here ↦
              inl (look_there l here, look-with_bucket_here type d.ht0 n.index [] u l n.within here)
          | no other ↦ inr (
            elsewhere (sizemask d.ht0) n.index (n.head ∷ n.rest) l other chain-Good.placed,
            look-with_bucket_other type d.ht0 n.index [] u l other,
          )
        ]

    counted_chain : suc (length n.rest) ≤ d.ht0.used
    counted_chain =
        let e : length (bucket d.ht0 n.index) ≡ suc (length n.rest) = rw n.here refl in
        omega (arith, e, v.sound0.counted, length-le_entries d.ht0.table n.index)

    moved-Sound : Sound type (with_bucket d.ht0 n.index [] (d.ht0.used - suc (length n.rest)))
    unfolding Distinct
    moved-Sound =
        let e : length (bucket d.ht0 n.index) ≡ suc (length n.rest) = rw n.here refl in
        Sound-with_bucket type d.ht0 n.index [] _ v.sound0 n.within
          (record { placed = tt; distinct = tt }) (omega (arith, e, counted_chain))

    moved-Busy :
        (m : Moved type law (n.head ∷ n.rest) d) (r' : ℕ)
        → Busy d r
        → suc n.index ≡ r'
        → Busy (moved m) r'
    moved-Busy m r' b e = record {
      old = rw (length-set d.ht0.table n.index []) b.old;
      new = omega (arith, b.new, m.becomes.same_size);
      behind = λ i h. elim (ℕ_discrete i n.index) [
        | yes same ↦ rw (same, get_or-set_self d.ht0.table n.index [] [] n.within) refl
        | no other ↦
            get_or-set_ne d.ht0.table n.index i [] [] other ∙ n.empty_before i (omega arith)
      ];
    }

    moved-Kept : Busy d r → (m : Moved type law (n.head ∷ n.rest) d) → Kept type d (moved m)
    unfolding content
    moved-Kept b m = record {
      valid = record {
        sound0 = moved-Sound;
        sound1 = m.becomes.sound;
        apart = λ k. elim (moved-look m k) [
          | inl (there, gone) ↦ inl gone
          | inr (absent, same) ↦ elim (v.apart k) [
            | inl free ↦ inl (same ∙ free)
            | inr free ↦
                inr (m.becomes.holds k ∙ ap (λ o. either o (look type d.ht1 k)) absent ∙ free)
          ]
        ];
        idle = λ e. absurd (none≢some (sym e));
        busy = λ r' e. moved-Busy m r' b (eq_of_some e);
      };
      holds = λ l. elim (moved-look m l) [
        | inl (there, gone) ↦ rw (gone, m.becomes.holds l, there) refl
        | inr (absent, same) ↦ rw (same, m.becomes.holds l, absent) refl
      ];
    }

  -- A round of the loop returns, keeps what the dictionary holds, and leaves fewer entries in the
  -- first table.
  pub rehash_bucket_lem :
      (d : Dict K V) (r : ℕ)
      → Valid type d
      → d.rehashidx ≡ some r
      → 0 < d.ht0.used
      → (e : Dict K V) × (rehash_bucket type d r ≡ some e)
        × Kept type d e
        × (e.ht0.used < d.ht0.used)
        × (is_rehashing e ≡ true)
  unfolding rehash_bucket emptied
  rehash_bucket_lem d r v busy left =
      let b = v.busy r busy in
      let n = Next-bucket d r v.sound0.counted b left in
      let g = chain-Good d r v n in
      let m =
        move_chain-Moved type law (n.head ∷ n.rest) d b.new v.sound1 g.distinct
          (chain_new d r v n) in
      (
        moved d r v n m,
        rw (n.result, m.result) refl,
        moved-Kept d r v n b m,
        omega (arith, counted_chain d r v n),
        refl,
      )
