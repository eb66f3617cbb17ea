-- ===== src/Dict/Chains.antt =====
-- src/dict.c: the chains of entries.
use mathlib.Core.Bool.{true≢false}
use prez.Prelude.{
  ◌+◌, ◌≡◌, refl, sym, ap, ◌∙◌, inl, inr, Bool, true, false, ◌&&◌, [], ◌∷◌, Option, none, some, All,
  length, if◌then◌else◌, Bool-cases, arith,
}
use prez.Dict.{DictEntry, Chain, DictType, is_some, lookup}
use prez.Dict.Operations.{set_val, removed}

-- What the comparison of keys and the hash function of a type have to do: equal keys have one hash.
pub record Lawful {K : Type 0} (type : DictType K) : Type 0 where
  pub compare_refl : (k : K) → type.key_compare k k ≡ true
  pub compare_sym : (k l : K) → type.key_compare k l ≡ true → type.key_compare l k ≡ true
  pub compare_trans :
      (k l m : K)
      → type.key_compare k l ≡ true
      → type.key_compare l m ≡ true
      → type.key_compare k m ≡ true
  pub hash_same :
      (k l : K) → type.key_compare k l ≡ true → type.hash_function k ≡ type.hash_function l

module _ {K V : Type 0} (type : DictType K) where
  unfoldable pub Distinct : Chain K V → Type 0
  unfolding lookup
  Distinct [] = Unit
  Distinct (he ∷ chain) = (lookup type chain he.key ≡ none) × Distinct chain

module _ {K : Type 0} (type : DictType K) (law : Lawful type) where
  pub compare_same :
      (k l m : K) → type.key_compare k l ≡ true → type.key_compare k m ≡ type.key_compare l m
  compare_same k l m h = elim (Bool-cases (type.key_compare l m)) [
    | inl holds ↦ law.compare_trans k l m h holds ∙ sym holds
    | inr fails ↦ elim (Bool-cases (type.key_compare k m)) [
      | inl also ↦
          absurd (true≢false (sym (law.compare_trans l k m (law.compare_sym k l h) also) ∙ fails))
      | inr too ↦ too ∙ sym fails
    ]
  ]

  pub compare_flip : (k l : K) → type.key_compare k l ≡ type.key_compare l k
  compare_flip k l = elim (Bool-cases (type.key_compare k l)) [
    | inl holds ↦ holds ∙ sym (law.compare_sym k l holds)
    | inr fails ↦ elim (Bool-cases (type.key_compare l k)) [
      | inl also ↦ absurd (true≢false (sym (law.compare_sym l k also) ∙ fails))
      | inr too ↦ fails ∙ sym too
    ]
  ]

  pub compare_right :
      (k l m : K) → type.key_compare k l ≡ true → type.key_compare m k ≡ type.key_compare m l
  compare_right k l m h = compare_flip m k ∙ compare_same k l m h ∙ compare_flip l m

module _ {K V : Type 0} (type : DictType K) (law : Lawful type) where
  pub lookup_same :
      (chain : Chain K V) (k l : K)
      → type.key_compare k l ≡ true
      → lookup type chain k ≡ lookup type chain l
  unfolding lookup
  lookup_same [] k l h = refl
  lookup_same (he ∷ chain) k l h =
      rw (compare_same type law k l he.key h, lookup_same chain k l h) refl

  -- Both keys are the head's.
  set_head :
      (he : DictEntry K V) (chain : Chain K V) (v : V) (l : K)
      → lookup type (record { key = he.key; val = v } ∷ chain) l
        ≡ (if type.key_compare l he.key && true then some v else lookup type (he ∷ chain) l)
  unfolding lookup
  set_head he chain v l = elim (Bool-cases (type.key_compare l he.key)) [
    | inl same ↦ rw same refl
    | inr other ↦ rw other refl
  ]

  pub lookup-set_val :
      (chain : Chain K V) (k : K) (v : V) (l : K)
      → lookup type (set_val type chain k v) l ≡ (
          if type.key_compare l k && is_some (lookup type chain k)
          then some v
          else lookup type chain l)
  unfolding lookup set_val
  lookup-set_val [] k v l = elim (Bool-cases (type.key_compare l k)) [
    | inl same ↦ rw same refl
    | inr other ↦ rw other refl
  ]
  lookup-set_val (he ∷ chain) k v l = elim (Bool-cases (type.key_compare k he.key)) [
    | inl here ↦ rw (here, compare_right type law k he.key l here) (set_head he chain v l)
    | inr further ↦ elim (Bool-cases (type.key_compare l k)) [
      | inl same ↦
          let e = compare_same type law l k he.key same ∙ further in
          rw (further, e, lookup-set_val chain k v l, same) refl
      | inr other ↦ rw (further, lookup-set_val chain k v l, other) refl
    ]
  ]

  remove_head :
      (he : DictEntry K V) (chain : Chain K V) (l : K)
      → lookup type chain he.key ≡ none
      → lookup type chain l
        ≡ (if type.key_compare l he.key then none else lookup type (he ∷ chain) l)
  unfolding lookup
  remove_head he chain l h = elim (Bool-cases (type.key_compare l he.key)) [
    | inl same ↦ rw same (lookup_same chain l he.key same ∙ h)
    | inr other ↦ rw other refl
  ]

  pub lookup-removed :
      (chain : Chain K V) (k l : K)
      → Distinct type chain
      → lookup type (removed type chain k) l
        ≡ (if type.key_compare l k then none else lookup type chain l)
  unfolding lookup removed Distinct
  lookup-removed [] k l h = elim (Bool-cases (type.key_compare l k)) [
    | inl same ↦ rw same refl
    | inr other ↦ rw other refl
  ]
  lookup-removed (he ∷ chain) k l h = elim (Bool-cases (type.key_compare k he.key)) [
    | inl here ↦ rw (here, compare_right type law k he.key l here) (remove_head he chain l h.0)
    | inr further ↦ elim (Bool-cases (type.key_compare l k)) [
      | inl same ↦
          let e = compare_same type law l k he.key same ∙ further in
          rw (further, e, lookup-removed chain k l h.1, same) refl
      | inr other ↦ rw (further, lookup-removed chain k l h.1, other) refl
    ]
  ]

  -- The entries that are left keep what held of all, and stay distinct.
  pub All-removed {κ} :
      (P : DictEntry K V → Type κ) (chain : Chain K V) (k : K)
      → All P chain
      → All P (removed type chain k)
  unfolding removed
  All-removed P [] k h = h
  All-removed P (he ∷ chain) k h = elim (Bool-cases (type.key_compare k he.key)) [
    | inl here ↦ rw here h.1
    | inr further ↦ rw further (h.0, All-removed P chain k h.1)
  ]

  pub All-set_val :
      (P : K → Type 0) (chain : Chain K V) (k : K) (v : V)
      → All (λ he. P he.key) chain
      → All (λ he. P he.key) (set_val type chain k v)
  unfolding set_val
  All-set_val P [] k v h = h
  All-set_val P (he ∷ chain) k v h = elim (Bool-cases (type.key_compare k he.key)) [
    | inl here ↦ rw here h
    | inr further ↦ rw further (h.0, All-set_val P chain k v h.1)
  ]

  none_or_none : (b : Bool) (o : Option V) → o ≡ none → (if b then none else o) ≡ none
  none_or_none true o h = refl
  none_or_none false o h = h

  pub Distinct-removed :
      (chain : Chain K V) (k : K) → Distinct type chain → Distinct type (removed type chain k)
  unfolding removed Distinct
  Distinct-removed [] k h = h
  Distinct-removed (he ∷ chain) k h = elim (Bool-cases (type.key_compare k he.key)) [
    | inl here ↦ rw here h.1
    | inr further ↦ rw further (
      lookup-removed chain k he.key h.1 ∙ none_or_none (type.key_compare he.key k) _ h.0,
      Distinct-removed chain k h.1,
    )
  ]

  -- The key that is not in a chain is not that of the entry whose value changes.
  set_absent :
      (chain : Chain K V) (k : K) (v : V) (l : K)
      → lookup type chain l ≡ none
      → lookup type (set_val type chain k v) l ≡ none
  set_absent chain k v l h = elim (Bool-cases (type.key_compare l k)) [
    | inl same ↦ rw (lookup-set_val chain k v l, same, sym (lookup_same chain l k same) ∙ h, h) refl
    | inr other ↦ rw (lookup-set_val chain k v l, other, h) refl
  ]

  pub Distinct-set_val :
      (chain : Chain K V) (k : K) (v : V)
      → Distinct type chain
      → Distinct type (set_val type chain k v)
  unfolding set_val Distinct
  Distinct-set_val [] k v h = h
  Distinct-set_val (he ∷ chain) k v h = elim (Bool-cases (type.key_compare k he.key)) [
    | inl here ↦ rw here h
    | inr further ↦ rw further (set_absent chain k v he.key h.0, Distinct-set_val chain k v h.1)
  ]

  pub length-removed :
      (chain : Chain K V) (k : K)
      → is_some (lookup type chain k) ≡ true
      → length chain ≡ length (removed type chain k) + 1
  unfolding lookup removed
  length-removed [] k h = cc
  length-removed (he ∷ chain) k h = elim (Bool-cases (type.key_compare k he.key)) [
    | inl here ↦ rw here (omega arith)
    | inr further ↦
        let there : is_some (lookup type chain k) ≡ true =
          ap (λ b. is_some (if b then some he.val else lookup type chain k)) (sym further) ∙ h in
        rw further (omega (arith, length-removed chain k there))
  ]

  pub length-set_val :
      (chain : Chain K V) (k : K) (v : V) → length (set_val type chain k v) ≡ length chain
  unfolding set_val
  length-set_val [] k v = refl
  length-set_val (he ∷ chain) k v = elim (Bool-cases (type.key_compare k he.key)) [
    | inl here ↦ rw here refl
    | inr further ↦ rw (further, length-set_val chain k v) refl
  ]
