-- ===== src/Dict/Change.antt =====
-- src/dict.c: a dictionary after a change of one of its tables.
use mathlib.Core.Bool.{true≢false}
use prez.Prelude.{
  ℕ, ◌<◌, ◌≡◌, refl, sym, ap, ◌∙◌, inl, inr, Bool, true, false, Option, none, some, [],
  if◌then◌else◌, Bool-cases, Option-cases, arith,
}
use prez.Dict.{Dictht, Dict, DictType, size, is_some, is_rehashing, dict_reset}
use prez.Dict.Operations.{change}
use prez.Dict.Chains.{Lawful}
use prez.Dict.Tables.{look, Sound, Becomes, put, bucket}
use prez.Dict.Updates.{look_same}
use prez.Dict.Valid.{content, either, either-none, Valid, Holds, Blank-look, reset-Blank}

module _ {K V : Type 0} (type : DictType K) (law : Lawful type) where
  -- Another first table.
  pub with_ht0 :
      (d : Dict K V) (ht : Dictht K V) (k : K) (o : Option V)
      → Valid type d
      → Becomes type d.ht0 ht (put type (look type d.ht0) k o)
      → look type d.ht1 k ≡ none
      → ((r : ℕ) → d.rehashidx ≡ some r → (i : ℕ) → i < r → bucket ht i ≡ [])
      → Holds type (record d { ht0 = ht }) (put type (content type d) k o)
  unfolding content
  with_ht0 d ht k o v b absent behind =
      let at : (l : K) (c : Bool)
          → type.key_compare l k ≡ c
          → look type ht l ≡ (if c then o else look type d.ht0 l) =
        λ l c e. b.holds l ∙ ap (λ t. if t then o else look type d.ht0 l) e in
      record {
        valid = record {
          sound0 = b.sound;
          sound1 = v.sound1;
          apart = λ l. elim (Bool-cases (type.key_compare l k)) [
            | inl same ↦ inr (look_same type law d.ht1 l k same ∙ absent)
            | inr other ↦ elim (v.apart l) [
              | inl free ↦ inl (at l false other ∙ free)
              | inr free ↦ inr free
            ]
          ];
          idle = v.idle;
          busy = λ r e. record {
            old = omega (arith, (v.busy r e).old, b.same_size);
            new = (v.busy r e).new;
            behind = behind r e;
          };
        };
        holds = λ l. elim (Bool-cases (type.key_compare l k)) [
          | inl same ↦
              rw (at l true same, look_same type law d.ht1 l k same, absent, same) (either-none o)
          | inr other ↦ rw (at l false other, other) refl
        ];
      }

  -- Another second table, while entries move.
  pub with_ht1 :
      (d : Dict K V) (ht : Dictht K V) (k : K) (o : Option V)
      → Valid type d
      → is_rehashing d ≡ true
      → Becomes type d.ht1 ht (put type (look type d.ht1) k o)
      → look type d.ht0 k ≡ none
      → Holds type (record d { ht1 = ht }) (put type (content type d) k o)
  unfolding content
  with_ht1 d ht k o v moving b absent =
      let at : (l : K) (c : Bool)
          → type.key_compare l k ≡ c
          → look type ht l ≡ (if c then o else look type d.ht1 l) =
        λ l c e. b.holds l ∙ ap (λ t. if t then o else look type d.ht1 l) e in
      record {
        valid = record {
          sound0 = v.sound0;
          sound1 = b.sound;
          apart = λ l. elim (Bool-cases (type.key_compare l k)) [
            | inl same ↦ inl (look_same type law d.ht0 l k same ∙ absent)
            | inr other ↦ elim (v.apart l) [
              | inl free ↦ inl free
              | inr free ↦ inr (at l false other ∙ free)
            ]
          ];
          idle = λ e. absurd (true≢false (sym moving ∙ rw e refl));
          busy = λ r e. record {
            old = (v.busy r e).old;
            new = omega (arith, (v.busy r e).new, b.same_size);
            behind = (v.busy r e).behind;
          };
        };
        holds = λ l. elim (Bool-cases (type.key_compare l k)) [
          | inl same ↦ rw (at l true same, look_same type law d.ht0 l k same, absent, same) refl
          | inr other ↦ rw (at l false other, other) refl
        ];
      }

pub none_of : {V : Type 0} (o : Option V) → is_some o ≡ false → o ≡ none
none_of none h = refl
none_of (some v) h = absurd (true≢false h)

pub neither :
    {V : Type 0} (o p : Option V)
    → is_some (either o p) ≡ false
    → (is_some o ≡ false) × (is_some p ≡ false)
neither none p h = (refl, h)
neither (some v) p h = absurd (true≢false h)

-- A change of the table that has a key.
module _ {K V : Type 0} (type : DictType K) (law : Lawful type)
    (f : Dictht K V → Option (Option (Dictht K V))) (k : K) (o : Option V)
    (there : (ht : Dictht K V)
      → 0 < size ht
      → Sound type ht
      → is_some (look type ht k) ≡ true
      → (ht' : Dictht K V) × (f ht ≡ some (some ht'))
        × Becomes type ht ht' (put type (look type ht) k o)
        × ((j : ℕ) → bucket ht j ≡ [] → bucket ht' j ≡ []))
    (absent : (ht : Dictht K V)
      → 0 < size ht
      → is_some (look type ht k) ≡ false
      → f ht ≡ some none) where
  pub change_there :
      (d : Dict K V)
      → Valid type d
      → 0 < size d.ht0
      → is_some (content type d k) ≡ true
      → (e : Dict K V) × (change f d ≡ some (true, e))
        × Holds type e (put type (content type d) k o)
  unfolding change content
  change_there d v pos h = elim (Bool-cases (is_some (look type d.ht0 k))) [
    | inl first ↦
        let (ht, eq, b, empty) = there d.ht0 pos v.sound0 first in
        (
          record d { ht0 = ht },
          rw eq refl,
          with_ht0 type law d ht k o v b
              (elim (v.apart k) [
                | inl free ↦ absurd (true≢false (sym first ∙ ap is_some free))
                | inr free ↦ free
              ])
              (λ r busy i l. empty i ((v.busy r busy).behind i l)),
        )
    | inr second ↦
        let free = none_of (look type d.ht0 k) second in
        let h1 : is_some (look type d.ht1 k) ≡ true =
          ap (λ p. is_some (either p (look type d.ht1 k))) (sym free) ∙ h in
        elim (Option-cases d.rehashidx) [
          | inl idle ↦ absurd (
              true≢false (
                sym h1
                ∙ ap is_some (
                    ap (λ t. look type t k) (v.idle idle)
                    ∙ Blank-look type dict_reset k (reset-Blank K V))))
          | inr (r, busy) ↦
              let moving : is_rehashing d ≡ true = rw busy refl in
              let (ht, eq, b, empty) = there d.ht1 (v.busy r busy).new v.sound1 h1 in
              (
                record d { ht1 = ht },
                rw (absent d.ht0 pos second, moving, eq) refl,
                with_ht1 type law d ht k o v moving b free,
              )
        ]
  ]

  pub change_absent :
      (d : Dict K V)
      → Valid type d
      → 0 < size d.ht0
      → is_some (content type d k) ≡ false
      → change f d ≡ some (false, d)
  unfolding change content
  change_absent d v pos h =
      let (first, second) = neither (look type d.ht0 k) (look type d.ht1 k) h in
      elim (Option-cases d.rehashidx) [
        | inl idle ↦ rw (absent d.ht0 pos first, idle) refl
        | inr (r, busy) ↦
            let moving : is_rehashing d ≡ true = rw busy refl in
            rw (absent d.ht0 pos first, moving, absent d.ht1 (v.busy r busy).new second) refl
      ]
