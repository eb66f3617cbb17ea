-- ===== src/Dict/Progress.antt =====
-- src/dict.c: dictRehash as a whole, the step that the operations do on the side, and the search in
-- the two tables.
use mathlib.Core.Bool.{true≢false}
use mathlib.Core.Path.{subst}
use prez.Prelude.{
  ℕ, zero, suc, ◌<◌, ◌≡◌, refl, sym, ap, ◌∙◌, inl, inr, Bool, false, List, [], ◌∷◌, Option, none,
  some, length, Bool-cases, Option-cases, nat_cases, arith, ◌==◌,
}
use prez.Log.{◌>>=◌}
use prez.Dict.{
  Dictht, Dict, DictType, size, is_rehashing, dict_reset, lookup, or_else, search_tables, rehashed,
  key_index, rehash_loop, dict_rehash, dict_rehash_step, rehash_on_use,
}
use prez.Dict.Chains.{Lawful}
use prez.Dict.Tables.{look, Sound, bucket, length-le_entries, search-look}
use prez.Dict.Valid.{content, either, Valid, single, Blank-look, reset-Blank}
use prez.Dict.Expand.{Kept, Kept-refl}
use prez.Dict.Bucket.{rehash_bucket_lem}

nil_of_length : {A : Type 0} (xs : List A) → length xs ≡ 0 → xs ≡ []
nil_of_length [] h = refl
nil_of_length (x ∷ xs) h = absurd (omega (arith, h))

or_else_lem : {V : Type 0} (o p : Option V) → or_else o (some p) ≡ some (either o p)
unfolding or_else
or_else_lem none p = refl
or_else_lem (some v) p = refl

module _ {K V : Type 0} (type : DictType K) (law : Lawful type) where
  Kept-trans : (c d e : Dict K V) → Kept type c d → Kept type d e → Kept type c e
  Kept-trans c d e k l = record { valid = l.valid; holds = λ i. l.holds i ∙ k.holds i }

  unused-look : (ht : Dictht K V) (k : K) → Sound type ht → ht.used ≡ 0 → look type ht k ≡ none
  unfolding look lookup
  unused-look ht k s z =
      rw
        (nil_of_length (bucket ht (key_index type ht k))
          (omega (arith, length-le_entries ht.table (key_index type ht k), s.counted, z)))
        refl

  rehashed-Kept : (d : Dict K V) → Valid type d → d.ht0.used ≡ 0 → Kept type d (rehashed d)
  unfolding rehashed content
  rehashed-Kept d v z =
      let one = single type d.ht1 d.iterators v.sound1 in
      record {
        valid = one.valid;
        holds = λ l.
            one.holds l
            ∙ ap (λ o. either o (look type d.ht1 l)) (sym (unused-look d.ht0 l v.sound0 z));
      }

  -- What n rounds do, and the result of the call.
  pub record Rehashed (d : Dict K V) (n : ℕ) (o : Option (Bool × Dict K V)) : Type 0 where
    pub after : Dict K V
    pub result : o ≡ some (is_rehashing after, after)
    pub kept : Kept type d after
    pub has_table : 0 < size d.ht0 → 0 < size after.ht0
    pub enough : d.ht0.used < n → is_rehashing after ≡ false

  rehash_loop-Rehashed :
      (n : ℕ) (d : Dict K V) (r : ℕ)
      → Valid type d
      → d.rehashidx ≡ some r
      → Rehashed d n (rehash_loop type n d)
  unfolding rehash_loop rehashed
  rehash_loop-Rehashed zero d r v busy = record {
    after = d;
    result = rw busy refl;
    kept = Kept-refl type d v;
    has_table = λ h. h;
    enough = λ h. absurd (omega (arith, h));
  }
  rehash_loop-Rehashed (suc n) d r v busy = elim (nat_cases d.ht0.used) [
    | inl z ↦ record {
      after = rehashed d;
      result = rw z refl;
      kept = rehashed-Kept d v z;
      has_table = λ h. (v.busy r busy).new;
      enough = λ h. refl;
    }
    | inr (left, e) ↦
        let (d', step, kept, less, moving) = rehash_bucket_lem type law d r v busy (omega arith) in
        elim (Option-cases d'.rehashidx) [
          | inl idle ↦ absurd (true≢false (sym moving ∙ rw idle refl))
          | inr (r', busy') ↦
              let q = rehash_loop-Rehashed n d' r' kept.valid busy' in
              record {
                after = q.after;
                result = rw (e, busy) refl ∙ ap (λ o. o >>= rehash_loop type n) step ∙ q.result;
                kept = Kept-trans d d' q.after kept q.kept;
                has_table = λ h. q.has_table (kept.valid.busy r' busy').old;
                enough = λ h. q.enough (omega (arith, less, h));
              }
        ]
  ]

  -- The move to another table. Let the comparison of keys be an equivalence that the hash function
  -- respects. On a dictionary in order dictRehash with any number of rounds returns, and leaves a
  -- dictionary in order that holds the same. Its result tells whether entries are left to move, and
  -- if the rounds are more than the entries of the first table, none are.
  pub dict_rehash-Rehashed :
      (d : Dict K V) (n : ℕ) → Valid type d → Rehashed d n (dict_rehash type d n)
  unfolding dict_rehash
  dict_rehash-Rehashed d n v = elim (Option-cases d.rehashidx) [
    | inr (r, busy) ↦
        let e : rehash_loop type n d ≡ dict_rehash type d n = rw busy refl in
        subst (Rehashed d n) e (rehash_loop-Rehashed n d r v busy)
    | inl idle ↦ record {
      after = d;
      result = rw idle refl;
      kept = Kept-refl type d v;
      has_table = λ h. h;
      enough = λ h. rw idle refl;
    }
  ]

  -- The step on the side.
  pub rehash_on_use_lem :
      (d : Dict K V)
      → Valid type d
      → (e : Dict K V) × (rehash_on_use type d ≡ some e)
        × Kept type d e
        × (0 < size d.ht0 → 0 < size e.ht0)
  unfolding rehash_on_use dict_rehash_step
  rehash_on_use_lem d v =
      let q = dict_rehash-Rehashed d 1 v in
      elim (Bool-cases (is_rehashing d)) [
        | inr idle ↦ (d, rw idle refl, Kept-refl type d v, λ h. h)
        | inl moving ↦ elim (Bool-cases (d.iterators == 0)) [
          | inl none_left ↦ (
            q.after,
            rw (moving, none_left) refl ∙ ap (λ o. o >>= λ r. some r.1) q.result,
            q.kept,
            q.has_table,
          )
          | inr iterating ↦ (d, rw (moving, iterating) refl, Kept-refl type d v, λ h. h)
        ]
      ]

  pub search_tables_lem :
      (d : Dict K V) (k : K)
      → Valid type d
      → 0 < size d.ht0
      → search_tables type d k ≡ some (content type d k)
  unfolding search_tables content
  search_tables_lem d k v pos = elim (Option-cases d.rehashidx) [
    | inr (r, busy) ↦
        let b = v.busy r busy in
        rw (busy, search-look type d.ht0 k pos, search-look type d.ht1 k b.new)
          (or_else_lem (look type d.ht0 k) (look type d.ht1 k))
    | inl idle ↦
        rw
          (
            idle,
            search-look type d.ht0 k pos,
            v.idle idle,
            Blank-look type dict_reset k (reset-Blank K V),
          )
          (or_else_lem (look type d.ht0 k) none)
  ]
