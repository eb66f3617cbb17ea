-- ===== src/Dict/Store.antt =====
-- src/dict.c: dictAdd and dictReplace are the updates of a finite map.
use mathlib.Core.Path.{subst}
use mathlib.Core.Bool.{true≢false}
use prez.Prelude.{
  ◌<◌, ◌≡◌, refl, sym, ap, ◌∙◌, inl, inr, Bool, true, false, not, Option, none, some, if◌then◌else◌,
  Bool-cases, Option-cases, nat_cases, arith, none≢some,
}
use prez.Log.{◌>>=◌}
use prez.Dict.{Dictht, Dict, DictType, DictEntry, size, is_some, is_rehashing, key_index}
use prez.Dict.Operations.{
  target, put_target, link, dict_key_index, free_slot, dict_add, set_val_in, change,
  overwrite_found, dict_replace,
}
use prez.Dict.Chains.{Lawful}
use prez.Dict.Tables.{look, put}
use prez.Dict.Updates.{push_lem, set_val_in_lem, set_val_in_absent}
use prez.Dict.Valid.{content, Valid, Holds}
use prez.Dict.Expand.{Kept, dict_expand_if_needed_lem}
use prez.Dict.Progress.{rehash_on_use_lem, search_tables_lem}
use prez.Dict.Change.{with_ht0, with_ht1, none_of, neither, change_there}
use prez.Dict.Laws.{Holds-along, dict_find_lem, nothing_held}

module _ {K V : Type 0} (type : DictType K) where
  -- A map with one more key, if the key is new.
  abbrev pub added : (K → Option V) → K → V → K → Option V
  added f k v = if is_some (f k) then f else put type f k (some v)

  pub added_is :
      (f : K → Option V) (k : K) (v : V) (b : Bool)
      → is_some (f k) ≡ b
      → added f k v ≡ (if b then f else put type f k (some v))
  added_is f k v b e = ap (λ t. if t then f else put type f k (some v)) e

module _ {K V : Type 0} (type : DictType K) (law : Lawful type) where
  link_lem :
      (d : Dict K V) (k : K) (val : V)
      → Valid type d
      → 0 < size d.ht0
      → is_some (content type d k) ≡ false
      → (e : Dict K V) × (link d
            (record { key = k; val = val })
            (some (key_index type (target d) k))
          ≡ some (true, e))
        × Holds type e (put type (content type d) k (some val))
  unfolding link put_target content
  link_lem d k val v pos absent =
      let (no_first, no_second) = neither (look type d.ht0 k) (look type d.ht1 k) absent in
      let free0 = none_of (look type d.ht0 k) no_first in
      let free1 = none_of (look type d.ht1 k) no_second in
      let entry : DictEntry K V = record { key = k; val = val } in
      elim (Option-cases d.rehashidx) [
        | inl idle ↦
            let still : is_rehashing d ≡ false = rw idle refl in
            let (ht, eq, b) = push_lem type law d.ht0 entry pos v.sound0 free0 in
            (
              record d { ht0 = ht },
              rw (still, eq) refl,
              with_ht0 type law d ht k (some val) v b free1
                  (λ r busy. absurd (none≢some (sym idle ∙ busy))),
            )
        | inr (r, busy) ↦
            let moving : is_rehashing d ≡ true = rw busy refl in
            let (ht, eq, b) = push_lem type law d.ht1 entry (v.busy r busy).new v.sound1 free1 in
            (
              record d { ht1 = ht },
              rw (moving, eq) refl,
              with_ht1 type law d ht k (some val) v moving b free0,
            )
      ]

  dict_key_index_lem :
      (can_resize : Bool) (d : Dict K V) (k : K)
      → Valid type d
      → (e : Dict K V) × (dict_key_index type can_resize d k
          ≡ some
              (if is_some (content type d k) then none else some (key_index type (target e) k), e))
        × Kept type d e
        × (0 < size e.ht0)
  unfolding dict_key_index free_slot
  dict_key_index_lem can_resize d k v =
      let (e, eq, kept, pos) = dict_expand_if_needed_lem type can_resize d v in
      let found = search_tables_lem type law e k kept.valid pos ∙ ap some (kept.holds k) in
      (
        e,
        ap (λ g. free_slot type g k) eq
            ∙ ap
                (λ o. o >>= λ found.
                  some (if is_some found then none else some (key_index type (target e) k), e))
                found,
        kept,
        pos,
      )

  -- Additions. Let the comparison of keys be an equivalence that the hash function respects, and let
  -- the dictionary be in order. Then dictAdd returns, and its result is an error if and only if the
  -- key is there. The dictionary is in order afterwards; it holds what it held, and after a success
  -- also the value at the key.
  pub dict_add_lem :
      (can_resize : Bool) (d : Dict K V) (k : K) (val : V)
      → Valid type d
      → (e : Dict K V) × (dict_add type can_resize d k val
          ≡ some (not (is_some (content type d k)), e))
        × Holds type e (added type (content type d) k val)
  unfolding dict_add link
  dict_add_lem can_resize d k val v =
      let (e, eq, kept, pos) = rehash_on_use_lem type law d v in
      let (g, slot, grown, there) = dict_key_index_lem can_resize e k kept.valid in
      let entry : DictEntry K V = record { key = k; val = val } in
      let same : content type g k ≡ content type d k = grown.holds k ∙ kept.holds k in
      let first : dict_add type can_resize d k val
          ≡ link g entry
              (if is_some (content type e k) then none else some (key_index type (target g) k)) =
        ap (λ o. o >>= λ t. dict_key_index type can_resize t k >>= λ s. link s.1 entry s.0) eq
        ∙ ap (λ o. o >>= λ s. link s.1 entry s.0) slot in
      let old_or_new =
        λ (b : Bool). link g entry (if b then none else some (key_index type (target g) k)) in
      let both : Kept type d g = record {
        valid = grown.valid;
        holds = λ l. grown.holds l ∙ kept.holds l;
      } in
      elim (Bool-cases (is_some (content type d k))) [
        | inl old ↦ (
          g,
          first
              ∙ ap old_or_new (ap is_some (kept.holds k) ∙ old)
              ∙ ap (λ b. some (not b, g)) (sym old),
          subst (Holds type g) (sym (added_is type (content type d) k val true old)) both,
        )
        | inr new ↦
            let (e', linked, h) = link_lem g k val grown.valid there (ap is_some same ∙ new) in
            (
              e',
              first
                  ∙ ap old_or_new (ap is_some (kept.holds k) ∙ new)
                  ∙ linked
                  ∙ ap (λ b. some (not b, e')) (sym new),
              subst (Holds type e') (sym (added_is type (content type d) k val false new))
                  (Holds-along type law d g e' k (some val) both h),
            )
      ]

  pos_of_held :
      (d : Dict K V) (k : K) → Valid type d → is_some (content type d k) ≡ true → 0 < size d.ht0
  pos_of_held d k v there = elim (nat_cases (size d.ht0)) [
    | inl z ↦ absurd (true≢false (sym there ∙ ap is_some (nothing_held type law d k v z)))
    | inr (n, e) ↦ omega (arith, e)
  ]

  overwrite_found_lem :
      (d : Dict K V) (k : K) (val : V)
      → Valid type d
      → is_some (content type d k) ≡ true
      → (e : Dict K V) × (overwrite_found type d k val ≡ some (false, e))
        × Holds type e (put type (content type d) k (some val))
  unfolding overwrite_found
  overwrite_found_lem d k val v there =
      let (g, eq, kept) = dict_find_lem type law d k v in
      let f = λ (ht : Dictht K V). set_val_in type ht k val in
      let still = ap is_some (kept.holds k) ∙ there in
      let (e, changed, h) =
        change_there type law f k (some val) (λ ht. set_val_in_lem type law ht k val)
          (λ ht. set_val_in_absent type law ht k val) g kept.valid
          (pos_of_held g k kept.valid still) still in
      let done = λ (c : Bool × Dict K V). if c.0 then some (false, c.1) else none in
      (
        e,
        ap (λ o. o >>= λ found. change f found.1 >>= done) eq ∙ ap (λ o. o >>= done) changed,
        Holds-along type law d g e k (some val) kept h,
      )

  -- dictReplace sets the key to the value, and tells whether the key is new.
  pub dict_replace_lem :
      (can_resize : Bool) (d : Dict K V) (k : K) (val : V)
      → Valid type d
      → (e : Dict K V) × (dict_replace type can_resize d k val
          ≡ some (not (is_some (content type d k)), e))
        × Holds type e (put type (content type d) k (some val))
  unfolding dict_replace
  dict_replace_lem can_resize d k val v =
      let (g, eq, h) = dict_add_lem can_resize d k val v in
      let F =
        λ (c : Bool × Dict K V). if c.0 then some (true, c.1) else overwrite_found type c.1 k val in
      let first : dict_replace type can_resize d k val ≡ F (not (is_some (content type d k)), g) =
        ap (λ o. o >>= F) eq in
      elim (Bool-cases (is_some (content type d k))) [
        | inl old ↦
            let kept : Kept type d g =
              subst (Holds type g) (added_is type (content type d) k val true old) h in
            let (e, eq', h') =
              overwrite_found_lem g k val kept.valid (ap is_some (kept.holds k) ∙ old) in
            (
              e,
              first ∙ ap (λ b. F (not b, g)) old ∙ eq' ∙ ap (λ b. some (not b, e)) (sym old),
              Holds-along type law d g e k (some val) kept h',
            )
        | inr new ↦ (
          g,
          first ∙ ap (λ b. F (not b, g)) new ∙ ap (λ b. some (not b, g)) (sym new),
          subst (Holds type g) (added_is type (content type d) k val false new) h,
        )
      ]
