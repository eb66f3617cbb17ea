-- ===== src/Dict/Iterator/Visits.antt =====
-- src/dict.c: which entries dictNext returns.
use mathlib.Core.Path.{subst₂}
use mathlib.Core.Bool.{true≢false}
use prez.Prelude.{
  not-true, ◌⊎◌, dec_lt, ℕ, zero, suc, ◌+◌, ◌-◌, ◌<◌, ◌≤◌, ◌≡◌, refl, sym, ap, ◌∙◌, inl, inr, Bool,
  true, false, not, ◌&&◌, List, [], ◌∷◌, ◌++◌, append_assoc, append-nil, Option, none, some,
  get_elem?_within, drop, drop-cons, drop_all, ltb, if◌then◌else◌, Bool-cases, Option-cases, arith,
}
use prez.Log.{◌>>=◌}
use prez.Dict.{DictEntry, Chain, Dict, size, is_some, is_rehashing}
use prez.Dict.Iterator.{
  DictIterator, table_of, next_bucket, next_chain, stopped, visited, next_rounds,
}

module _ {K V : Type 0} where
  abbrev pub flat : List (Chain K V) → Chain K V
  flat [] = []
  flat (c ∷ cs) = c ++ flat cs

  -- The entries of the buckets from an index on.
  abbrev pub buckets_left : Dict K V → Bool → ℕ → Chain K V
  buckets_left d second n =
      flat (drop n (table_of d second).table)
      ++ (if is_rehashing d && not second then flat d.ht1.table else [])

  -- The entries that an iterator has still to return.
  abbrev pub left : Dict K V → DictIterator K V → Chain K V
  left d it =
      (if is_some it.entry then it.next_entry else []) ++ buckets_left d it.second it.next_index

  abbrev pub buckets_to_go : Dict K V → Bool → ℕ → ℕ
  buckets_to_go d second n =
      size (table_of d second) - n + (if is_rehashing d && not second then size d.ht1 else 0)

-- The next chain, and what is behind it.
record Chained {K V : Type 0} (d : Dict K V) (due : Chain K V) (go : ℕ)
    (o : Option (Option (DictIterator K V × Chain K V))) : Type 0 where
  pub it' : DictIterator K V
  pub chain : Chain K V
  pub result : o ≡ some (some (it', chain))
  pub splits : due ≡ chain ++ buckets_left d it'.second it'.next_index
  pub fewer : buckets_to_go d it'.second it'.next_index < go

record Ended {K V : Type 0} (due : Chain K V) (o : Option (Option (DictIterator K V × Chain K V)))
    : Type 0 where
  pub result : o ≡ some none
  pub nothing : due ≡ []

module _ {K V : Type 0} where
  in_table :
      (d : Dict K V) (it : DictIterator K V)
      → it.next_index < size (table_of d it.second)
      → Chained d
          (buckets_left d it.second it.next_index)
          (buckets_to_go d it.second it.next_index)
          (next_bucket d it)
  unfolding next_bucket
  in_table d it h =
      let ht = table_of d it.second in
      let n = it.next_index in
      let (chain, here) = get_elem?_within ht.table n h in
      let more = if is_rehashing d && not it.second then flat d.ht1.table else [] in
      let small : ltb n (size ht) ≡ true = ground arith in
      record {
        it' = record it { next_index = suc n };
        chain = chain;
        result = rw (small, here) refl;
        splits =
            ap (λ t. flat t ++ more) (drop-cons ht.table n chain here)
            ∙ append_assoc chain (flat (drop (suc n) ht.table)) more;
        fewer = omega (arith, h);
      }

  -- Behind the first table while entries move.
  to_second :
      (d : Dict K V) (it : DictIterator K V)
      → it.second ≡ false
      → is_rehashing d ≡ true
      → 0 < size d.ht1
      → size d.ht0 ≤ it.next_index
      → Chained d
          (buckets_left d it.second it.next_index)
          (buckets_to_go d it.second it.next_index)
          (next_bucket d it)
  unfolding next_bucket
  to_second d it first moving pos h =
      let n = it.next_index in
      let (chain, here) = get_elem?_within d.ht1.table 0 pos in
      let rest = flat (drop 1 d.ht1.table) in
      let large : ltb n (size d.ht0) ≡ false = ground arith in
      record {
        it' = record it { second = true; next_index = 1 };
        chain = chain;
        result = rw (first, large, moving, here) refl;
        splits =
            rw (first, moving, drop_all d.ht0.table n h, drop-cons d.ht1.table 0 chain here)
              (ap (λ l. chain ++ l) (sym (append-nil rest)));
        fewer = rw (first, moving) (omega (arith, pos, h));
      }

  at_end :
      (d : Dict K V) (it : DictIterator K V)
      → size (table_of d it.second) ≤ it.next_index
      → (is_rehashing d && not it.second) ≡ false
      → Ended (buckets_left d it.second it.next_index) (next_bucket d it)
  unfolding next_bucket
  at_end d it h last =
      let ht = table_of d it.second in
      let large : ltb it.next_index (size ht) ≡ false = ground arith in
      record {
        result = rw (large, last) refl;
        nothing = rw (drop_all ht.table it.next_index h, last) refl;
      }

-- What a call of dictNext returns of the entries that are due: none at the end, or the first of them.
pub data Visit {K V : Type 0} (d : Dict K V)
    : Chain K V → Option (Option (DictEntry K V) × DictIterator K V) → Type 0 where
  over : (it : DictIterator K V) → Visit d [] (some (none, it))
  visit :
      (entry : DictEntry K V) (it : DictIterator K V)
      → Visit d (entry ∷ left d it) (some (some entry, it))

both_true : (a b : Bool) → (a && b) ≡ true → (a ≡ true) × (b ≡ true)
both_true true b h = (refl, h)
both_true false b h = absurd (true≢false (sym h))

nil_or_cons : {A : Type 0} (l : List A) → (l ≡ []) ⊎ ((x : A) × (xs : List A) × (l ≡ x ∷ xs))
nil_or_cons [] = inl refl
nil_or_cons (x ∷ xs) = inr (x, xs, refl)

module _ {K V : Type 0} where
  abbrev pub held_entry : DictIterator K V → ℕ
  held_entry it = if is_some it.entry then 1 else 0

  bucket_step :
      (d : Dict K V) (it : DictIterator K V)
      → (is_rehashing d ≡ true → 0 < size d.ht1)
      → Chained d
          (buckets_left d it.second it.next_index)
          (buckets_to_go d it.second it.next_index)
          (next_bucket d it)
        ⊎ Ended (buckets_left d it.second it.next_index) (next_bucket d it)
  bucket_step d it pos = elim (dec_lt it.next_index (size (table_of d it.second))) [
    | yes within ↦ inl (in_table d it within)
    | no behind ↦ elim (Bool-cases (is_rehashing d && not it.second)) [
      | inr last ↦ inr (at_end d it (omega arith) last)
      | inl both ↦
          let (moving, second) = both_true (is_rehashing d) (not it.second) both in
          let first = not-true it.second second in
          let e : size (table_of d it.second) ≡ size d.ht0 = ap (λ b. size (table_of d b)) first in
          inl (to_second d it first moving (pos moving) (omega (arith, behind, e)))
    ]
  ]

  chain_step :
      (d : Dict K V) (it : DictIterator K V)
      → (is_rehashing d ≡ true → 0 < size d.ht1)
      → Chained d
          (left d it)
          (buckets_to_go d it.second it.next_index + held_entry it)
          (next_chain d it)
        ⊎ Ended (left d it) (next_chain d it)
  unfolding next_chain
  chain_step d it pos = elim (Option-cases it.entry) [
    | inr (entry, e) ↦ inl (record {
      it' = it;
      chain = it.next_entry;
      result = rw e refl;
      splits = rw e refl;
      fewer = rw e (omega arith);
    })
    | inl e ↦
        let due : left d it ≡ buckets_left d it.second it.next_index = rw e refl in
        let same : next_chain d it ≡ next_bucket d it = rw e refl in
        elim (bucket_step d it pos) [
          | inl c ↦ inl (record {
            it' = c.it';
            chain = c.chain;
            result = same ∙ c.result;
            splits = due ∙ c.splits;
            fewer = omega (arith, c.fewer);
          })
          | inr n ↦ inr (record { result = same ∙ n.result; nothing = due ∙ n.nothing })
        ]
  ]

  pub next_rounds-Visit :
      (fuel : ℕ) (d : Dict K V) (it : DictIterator K V)
      → (is_rehashing d ≡ true → 0 < size d.ht1)
      → buckets_to_go d it.second it.next_index + held_entry it < fuel
      → Visit d (left d it) (next_rounds fuel d it)
  unfolding next_rounds
  next_rounds-Visit zero d it pos h = absurd (omega (arith, h))
  next_rounds-Visit (suc fuel) d it pos h =
      let F = λ (o : Option (DictIterator K V × Chain K V)).
        elim o as (λ _. Option (Option (DictEntry K V) × DictIterator K V)) [
          | none ↦ some (stopped it)
          | some (it', []) ↦ next_rounds fuel d (record it' { entry = none })
          | some (it', (entry ∷ rest)) ↦ some (visited it' entry rest)
        ] in
      elim (chain_step d it pos) [
        | inr e ↦ subst₂ (Visit d) (sym e.nothing) (sym (ap (λ o. o >>= F) e.result)) (over _)
        | inl c ↦ elim (nil_or_cons c.chain) [
          | inl z ↦
              let it'' : DictIterator K V = record c.it' { entry = none } in
              let less : buckets_to_go d it''.second it''.next_index + held_entry it'' < fuel =
                omega (arith, c.fewer, h) in
              let r = next_rounds-Visit fuel d it'' pos less in
              let due : left d it ≡ left d it'' =
                c.splits ∙ ap (λ l. l ++ buckets_left d c.it'.second c.it'.next_index) z in
              let o : next_rounds (suc fuel) d it ≡ next_rounds fuel d it'' =
                ap (λ o. o >>= F) (c.result ∙ ap (λ l. some (some (c.it', l))) z) in
              subst₂ (Visit d) (sym due) (sym o) r
          | inr (entry, rest, z) ↦
              let it'' : DictIterator K V = record c.it' {
                entry = some entry;
                next_entry = rest;
              } in
              let due : left d it ≡ entry ∷ left d it'' =
                c.splits ∙ ap (λ l. l ++ buckets_left d c.it'.second c.it'.next_index) z in
              let o : next_rounds (suc fuel) d it ≡ some (some entry, it'') =
                ap (λ o. o >>= F) (c.result ∙ ap (λ l. some (some (c.it', l))) z) in
              subst₂ (Visit d) (sym due) (sym o) (visit entry it'')
        ]
      ]
