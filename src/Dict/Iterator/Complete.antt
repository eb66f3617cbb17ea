-- ===== src/Dict/Iterator/Complete.antt =====
-- src/dict.c: the entries of the two tables, one behind the other, are those that a dictionary holds.
use Prim.Native.Nat.{bit_and}
use mathlib.Core.Bool.{true≢false}
use mathlib.Core.Path.{subst}
use prez.Prelude.{
  ℕ, zero, suc, ◌+◌, ◌<◌, ◌≡◌, refl, sym, ap, ◌∙◌, inl, inr, Bool, List, [], ◌∷◌, ◌++◌, append-nil,
  none, some, length, length-append, get_or, Bool-cases, Option-cases, arith, All, All-map2,
}
use prez.Dict.{
  Chain, Dictht, Dict, DictType, sizemask, is_some, is_rehashing, dict_reset, lookup, key_index,
}
use prez.Dict.Chains.{Lawful, Distinct}
use prez.Dict.Tables.{look, Good, Sound, entries, bucket}
use prez.Dict.Valid.{content, either, either-none, Valid, Blank-look, reset-Blank}
use prez.Dict.Bucket.{in_chain, elsewhere}
use prez.Dict.Iterator.{DictIterator, dict_get_iterator}
use prez.Dict.Iterator.Visits.{flat, left}
use prez.Dict.Iterator.Walk.{walk, all_entries, walk-left, TwoTables}

module _ {K V : Type 0} (type : DictType K) where
  lookup-append :
      (xs ys : Chain K V) (k : K)
      → lookup type (xs ++ ys) k ≡ either (lookup type xs k) (lookup type ys k)
  unfolding lookup
  lookup-append [] ys k = refl
  lookup-append (he ∷ xs) ys k = elim (Bool-cases (type.key_compare k he.key)) [
    | inl same ↦ rw same refl
    | inr other ↦ rw other (lookup-append xs ys k)
  ]

  Distinct-append :
      (xs ys : Chain K V)
      → Distinct type xs
      → Distinct type ys
      → All (λ he. lookup type ys he.key ≡ none) xs
      → Distinct type (xs ++ ys)
  unfolding Distinct
  Distinct-append [] ys p q new = q
  Distinct-append (he ∷ xs) ys p q new = (
    lookup-append xs ys he.key ∙ ap (λ o. either o (lookup type ys he.key)) p.0 ∙ new.0,
    Distinct-append xs ys p.1 q new.1,
  )

  -- The buckets from an index on, each with the entries of its keys.
  Placed : ℕ → ℕ → List (Chain K V) → Type 0
  Placed mask j [] = Unit
  Placed mask j (b ∷ bs) = Good type mask j b × Placed mask (suc j) bs

  Sound-Placed :
      (mask j : ℕ) (bs : List (Chain K V))
      → ((n : ℕ) → Good type mask (j + n) (get_or bs n []))
      → Placed mask j bs
  unfolding Placed
  Sound-Placed mask j [] h = tt
  Sound-Placed mask j (b ∷ bs) h =
      let e : j + 0 ≡ j = omega arith in
      (
        subst (λ n. Good type mask n b) e (h 0),
        Sound-Placed mask (suc j) bs (λ n.
            let e' : j + suc n ≡ suc j + n = omega arith in
            subst (λ m. Good type mask m (get_or bs n [])) e' (h (suc n))),
      )

module _ {K V : Type 0} (type : DictType K) (law : Lawful type) where
  flat-lookup_before :
      (mask j : ℕ) (bs : List (Chain K V)) (k : K)
      → Placed type mask j bs
      → bit_and (type.hash_function k) mask < j
      → lookup type (flat bs) k ≡ none
  unfolding Placed lookup
  flat-lookup_before mask j [] k p h = refl
  flat-lookup_before mask j (b ∷ bs) k p h =
      let none_here = elsewhere type law mask j b k (λ e. omega (arith, e, h)) p.0.placed in
      lookup-append type b (flat bs) k
      ∙ ap (λ o. either o (lookup type (flat bs) k)) none_here
      ∙ flat-lookup_before mask (suc j) bs k p.1 (omega (arith, h))

  flat-lookup_at :
      (mask j n : ℕ) (bs : List (Chain K V)) (k : K)
      → Placed type mask j bs
      → bit_and (type.hash_function k) mask ≡ j + n
      → lookup type (flat bs) k ≡ lookup type (get_or bs n []) k
  unfolding Placed lookup
  flat-lookup_at mask j n [] k p h = refl
  flat-lookup_at mask j zero (b ∷ bs) k p h =
      lookup-append type b (flat bs) k
      ∙ ap (either (lookup type b k)) (flat-lookup_before mask (suc j) bs k p.1 (omega (arith, h)))
      ∙ either-none (lookup type b k)
  flat-lookup_at mask j (suc n) (b ∷ bs) k p h =
      let none_here = elsewhere type law mask j b k (λ e. omega (arith, e, h)) p.0.placed in
      lookup-append type b (flat bs) k
      ∙ ap (λ o. either o (lookup type (flat bs) k)) none_here
      ∙ flat-lookup_at mask (suc j) n bs k p.1 (omega (arith, h))

  flat-Distinct :
      (mask j : ℕ) (bs : List (Chain K V)) → Placed type mask j bs → Distinct type (flat bs)
  unfolding Placed Distinct
  flat-Distinct mask j [] p = tt
  flat-Distinct mask j (b ∷ bs) p =
      Distinct-append type b (flat bs) p.0.distinct (flat-Distinct mask (suc j) bs p.1) (
        All-map2 b
          (λ he here also. flat-lookup_before mask (suc j) bs he.key p.1 (omega (arith, here)))
          p.0.placed p.0.placed)

  Sound-flat : (ht : Dictht K V) → Sound type ht → Placed type (sizemask ht) 0 ht.table
  Sound-flat ht s = Sound-Placed type (sizemask ht) 0 ht.table (λ n.
      let e : n ≡ 0 + n = omega arith in
      subst (λ m. Good type (sizemask ht) m (bucket ht n)) e (s.buckets n))

  flat-look :
      (ht : Dictht K V) (k : K) → Sound type ht → lookup type (flat ht.table) k ≡ look type ht k
  unfolding look
  flat-look ht k s =
      flat-lookup_at (sizemask ht) 0 (key_index type ht k) ht.table k (Sound-flat ht s)
        (omega arith)

  length-flat : (t : List (Chain K V)) → length (flat t) ≡ entries t
  unfolding entries
  length-flat [] = refl
  length-flat (b ∷ t) = omega (arith, length-append b (flat t), length-flat t)

  -- The entries of a dictionary in order.
  record Complete (d : Dict K V) (l : Chain K V) : Type 0 where
    pub holds : (k : K) → lookup type l k ≡ content type d k
    pub distinct : Distinct type l
    pub counted : length l ≡ d.ht0.used + d.ht1.used

  one_table : (d : Dict K V) → Valid type d → d.rehashidx ≡ none → Complete d (flat d.ht0.table)
  unfolding content
  one_table d v idle = record {
    holds = λ k.
        let no_second =
          ap (λ t. look type t k) (v.idle idle) ∙ Blank-look type dict_reset k (reset-Blank K V) in
        flat-look d.ht0 k v.sound0
        ∙ sym (either-none (look type d.ht0 k))
        ∙ ap (either (look type d.ht0 k)) (sym no_second);
    distinct = flat-Distinct (sizemask d.ht0) 0 d.ht0.table (Sound-flat d.ht0 v.sound0);
    counted =
        let unused : d.ht1.used ≡ 0 = ap (λ t. t.used) (v.idle idle) in
        omega (arith, length-flat d.ht0.table, v.sound0.counted, unused);
  }

  two_tables : (d : Dict K V) → Valid type d → Complete d (flat d.ht0.table ++ flat d.ht1.table)
  unfolding content
  two_tables d v = record {
    holds = λ k.
        lookup-append type (flat d.ht0.table) (flat d.ht1.table) k
        ∙ ap (λ o. either o (lookup type (flat d.ht1.table) k)) (flat-look d.ht0 k v.sound0)
        ∙ ap (either (look type d.ht0 k)) (flat-look d.ht1 k v.sound1);
    distinct =
        Distinct-append type (flat d.ht0.table) (flat d.ht1.table)
          (flat-Distinct (sizemask d.ht0) 0 d.ht0.table (Sound-flat d.ht0 v.sound0))
          (flat-Distinct (sizemask d.ht1) 0 d.ht1.table (Sound-flat d.ht1 v.sound1))
          (All-map2 (flat d.ht0.table)
            (λ he here also. flat-look d.ht1 he.key v.sound1 ∙ elim (v.apart he.key) [
              | inl free ↦
                  absurd
                    (true≢false (sym here ∙ ap is_some (flat-look d.ht0 he.key v.sound0 ∙ free)))
              | inr free ↦ free
            ])
            (in_chain type law (flat d.ht0.table)) (in_chain type law (flat d.ht0.table)));
    counted = omega (
      arith,
      length-append (flat d.ht0.table) (flat d.ht1.table),
      length-flat d.ht0.table,
      length-flat d.ht1.table,
      v.sound0.counted,
      v.sound1.counted,
    );
  }

  all_entries-Complete : (d : Dict K V) → Valid type d → Complete d (all_entries d)
  all_entries-Complete d v = elim (Option-cases d.rehashidx) [
    | inl idle ↦
        let e : flat d.ht0.table ≡ all_entries d = rw idle (sym (append-nil (flat d.ht0.table))) in
        subst (Complete d) e (one_table d v idle)
    | inr (r, busy) ↦
        let e : flat d.ht0.table ++ flat d.ht1.table ≡ all_entries d = rw busy refl in
        subst (Complete d) e (two_tables d v)
  ]

  -- Iteration. Let the comparison of keys be an equivalence that the hash function respects, and let
  -- the dictionary be in order, in the middle of a move or not. Then calls of dictNext from a new
  -- iterator on, one more than there are entries, come to NULL without a read outside of a table.
  -- The entries returned before it are as many as the tables count, their keys are different, and
  -- each key that the dictionary holds is among them with its value.
  pub walk-Complete :
      (d : Dict K V) (safe : Bool)
      → Valid type d
      → (l : Chain K V) × (it : DictIterator K V) × (e : Dict K V) × (walk
            (d.ht0.used + d.ht1.used + 1)
            d
            (record dict_get_iterator { safe = safe })
          ≡ some (l, it, e))
        × ((k : K) → lookup type l k ≡ content type d k)
        × Distinct type l
        × (length l ≡ d.ht0.used + d.ht1.used)
  unfolding TwoTables
  walk-Complete d safe v =
      let c = all_entries-Complete d v in
      let start : DictIterator K V = record dict_get_iterator { safe = safe } in
      let all : left d start ≡ all_entries d = elim (Bool-cases (is_rehashing d)) [
        | inl moving ↦ rw moving refl
        | inr idle ↦ rw idle refl
      ] in
      let (it, e, walked) =
        walk-left (d.ht0.used + d.ht1.used + 1) d start
          (λ moving. elim (Option-cases d.rehashidx) [
            | inl idle ↦ absurd (true≢false (sym moving ∙ rw idle refl))
            | inr (r, busy) ↦ (v.busy r busy).new
          ])
          (omega (arith, ap length all, c.counted)) in
      (all_entries d, it, e, walked ∙ ap (λ l. some (l, it, e)) all, c.holds, c.distinct, c.counted)
