-- ===== src/Dict/Iterator/Walk.antt =====
-- src/dict.c: an iterator goes through the entries of a dictionary, each of them once.
use mathlib.Core.Bool.{true≢false}
use prez.Prelude.{
  ℕ, zero, suc, ◌+◌, ◌<◌, ◌≤◌, ◌≡◌, refl, sym, ap, ◌∙◌, ◌⊎◌, inl, inr, Bool, true, false, not, ◌&&◌,
  [], ◌∷◌, ◌++◌, Option, none, some, length, if◌then◌else◌, Bool-cases, Option-cases, arith,
}
use prez.Log.{◌>>=◌}
use prez.Dict.{DictEntry, Chain, Dict, size, is_rehashing}
use prez.Dict.Iterator.{DictIterator, dict_next, counted_in, is_new}
use prez.Dict.Iterator.Visits.{
  flat, left, buckets_to_go, held_entry, Visit, over, visit, next_rounds-Visit,
}

never : (b : Bool) → (b && not true) ≡ false
never true = refl
never false = refl

module _ {K V : Type 0} where
  -- Calls of dictNext until it returns NULL: the entries, the iterator and the dictionary.
  unfoldable pub walk :
      ℕ → Dict K V → DictIterator K V → Option (Chain K V × DictIterator K V × Dict K V)
  unfolding dict_next
  walk zero d it = none
  walk (suc n) d it = dict_next d it >>= λ r. elim r.0.0 [
    | none ↦ some ([], r.0.1, r.1)
    | some entry ↦ walk n r.1 r.0.1 >>= λ rest. some (entry ∷ rest.0, rest.1, rest.2)
  ]

  abbrev pub all_entries : Dict K V → Chain K V
  all_entries d = flat d.ht0.table ++ (if is_rehashing d then flat d.ht1.table else [])

  -- The iterators do not count for what is left.
  left-counted_in :
      (d : Dict K V) (it it' : DictIterator K V) → left (counted_in d it) it' ≡ left d it'
  left-counted_in d it it' = elim (Bool-cases (is_new it && it.safe)) [
    | inl first ↦ rw first refl
    | inr later ↦ rw later refl
  ]

  -- While entries move, the second table has buckets.
  unfoldable pub TwoTables : Dict K V → Type 0
  TwoTables d = is_rehashing d ≡ true → 0 < size d.ht1

  counted_in-TwoTables :
      (d : Dict K V) (it : DictIterator K V) → TwoTables d → TwoTables (counted_in d it)
  unfolding TwoTables
  counted_in-TwoTables d it h = elim (Bool-cases (is_new it && it.safe)) [
    | inl first ↦ rw first h
    | inr later ↦ rw later h
  ]

  go_bound :
      (d : Dict K V) (second : Bool) (n : ℕ) → buckets_to_go d second n ≤ size d.ht0 + size d.ht1
  go_bound d true n = elim (Bool-cases (is_rehashing d && not true)) [
    | inl both ↦ absurd (true≢false (sym both ∙ never (is_rehashing d)))
    | inr one ↦ rw one (omega arith)
  ]
  go_bound d false n = elim (Bool-cases (is_rehashing d && not false)) [
    | inl both ↦ rw both (omega arith)
    | inr one ↦ rw one (omega arith)
  ]

  held_entry-le : (it : DictIterator K V) → held_entry it ≤ 1
  held_entry-le it = elim (Option-cases it.entry) [
    | inl e ↦ rw e (omega arith)
    | inr (entry, e) ↦ rw e (omega arith)
  ]

module _ {K V : Type 0} where
  -- What comes of a call.
  Returned :
      Dict K V
      → DictIterator K V
      → Option ((Option (DictEntry K V) × DictIterator K V) × Dict K V)
      → Type 0
  Returned d it o =
      ((it' : DictIterator K V) × (left d it ≡ []) × (o ≡ some ((none, it'), counted_in d it)))
      ⊎ ((entry : DictEntry K V) × (it' : DictIterator K V) × (left d it ≡ entry ∷ left d it')
          × (o ≡ some ((some entry, it'), counted_in d it)))

  Visit-Returned :
      (d : Dict K V) (it : DictIterator K V) (due : Chain K V)
      (o : Option (Option (DictEntry K V) × DictIterator K V))
      → left d it ≡ due
      → Visit d due o
      → Returned d it (o >>= λ r. some (r, counted_in d it))
  unfolding Returned
  Visit-Returned d it _ _ e (over it') = inl (it', e, refl)
  Visit-Returned d it _ _ e (visit entry it') = inr (entry, it', e, refl)

  dict_next-Returned :
      (d : Dict K V) (it : DictIterator K V) → TwoTables d → Returned d it (dict_next d it)
  unfolding dict_next TwoTables
  dict_next-Returned d it h =
      let enough : buckets_to_go d it.second it.next_index + held_entry it
          < size d.ht0 + size d.ht1 + 3 =
        omega (arith, go_bound d it.second it.next_index, held_entry-le it) in
      Visit-Returned d it (left d it) _ refl
        (next_rounds-Visit (size d.ht0 + size d.ht1 + 3) d it h enough)

  pub walk-left :
      (n : ℕ) (d : Dict K V) (it : DictIterator K V)
      → TwoTables d
      → length (left d it) < n
      → (it' : DictIterator K V) × (d' : Dict K V) × (walk n d it ≡ some (left d it, it', d'))
  unfolding walk Returned
  walk-left zero d it h enough = absurd (omega (arith, enough))
  walk-left (suc n) d it h enough =
      let F = λ (r : (Option (DictEntry K V) × DictIterator K V) × Dict K V).
        elim r.0.0 as (λ _. Option (Chain K V × DictIterator K V × Dict K V)) [
          | none ↦ some ([], r.0.1, r.1)
          | some entry ↦ walk n r.1 r.0.1 >>= λ rest. some (entry ∷ rest.0, rest.1, rest.2)
        ] in
      elim (dict_next-Returned d it h) [
        | inl (it', e, r) ↦ (
          it',
          counted_in d it,
          ap (λ o. o >>= F) r ∙ ap (λ l. some (l, it', counted_in d it)) (sym e),
        )
        | inr (entry, it', e, r) ↦
            let d' = counted_in d it in
            let same = left-counted_in d it it' in
            let few : length (left d' it') < n =
              omega (arith, ap length same, ap length e, enough) in
            let (it'', d'', rest) = walk-left n d' it' (counted_in-TwoTables d it h) few in
            (
              it'',
              d'',
              ap (λ o. o >>= F) r
                  ∙ ap (λ o. o >>= λ rest. some (entry ∷ rest.0, rest.1, rest.2)) rest
                  ∙ ap (λ l. some (entry ∷ l, it'', d'')) same
                  ∙ ap (λ l. some (l, it'', d'')) (sym e),
            )
      ]
