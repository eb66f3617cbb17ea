-- ===== src/Dict/Expand.antt =====
-- src/dict.c: dictExpand, dictResize and _dictExpandIfNeeded keep what a dictionary holds.
use prez.Prelude.{
  dec_lt, ◌^◌, ◌%◌, ℕ, ◌*◌, ◌/◌, ◌<◌, ◌≤◌, ◌≡◌, refl, sym, ◌∙◌, inl, inr, Bool, true, false, ◌&&◌,
  ◌||◌, not, List, [], ◌∷◌, none, some, length, get_or, replicate, length-replicate, Bool-cases,
  Option-cases, arith, none≢some, ltb, leb, ◌==◌, eq_of_some,
}
use prez.Dict.{
  Chain, Dictht, Dict, DictType, lookup, key_index, size, is_rehashing, dict_reset, dict_next_power,
  dict_expand, dict_expand_if_needed, dict_resize, minimal_size, initial_size, force_resize_ratio,
}
use prez.Dict.Sizes.{dict_next_power_pos}
use prez.Dict.Tables.{look, entries}
use prez.Dict.Valid.{content, Valid, Holds, Blank-Sound, Blank-look, zcalloc-Blank, reset-Blank}

module _ (K V : Type 0) where
  abbrev fresh : ℕ → Dictht K V
  fresh n = record { table = replicate (dict_next_power n) []; used = 0 }

  size-fresh : (n : ℕ) → 0 < size (fresh n)
  size-fresh n =
      rw (length-replicate {A = Chain K V} (dict_next_power n) []) (dict_next_power_pos n)

  no_bucket : (t : List (Chain K V)) (i : ℕ) → length t ≡ 0 → get_or t i [] ≡ []
  no_bucket [] i h = refl
  no_bucket (b ∷ t) i h = absurd (omega (arith, h))

  no_entry : (t : List (Chain K V)) → length t ≡ 0 → entries t ≡ 0
  unfolding entries
  no_entry [] h = refl
  no_entry (b ∷ t) h = absurd (omega (arith, h))

module _ {K V : Type 0} (type : DictType K) where
  abbrev pub Kept : Dict K V → Dict K V → Type 0
  Kept d e = Holds type e (content type d)

  pub Kept-refl : (d : Dict K V) → Valid type d → Kept d d
  Kept-refl d v = record { valid = v; holds = λ l. refl }

  pub no_table : (ht : Dictht K V) (k : K) → size ht ≡ 0 → look type ht k ≡ none
  unfolding look lookup
  no_table ht k e = rw (no_bucket K V ht.table (key_index type ht k) e) refl

  first_table :
      (d : Dict K V) (n : ℕ)
      → Valid type d
      → d.rehashidx ≡ none
      → size d.ht0 ≡ 0
      → Kept d (record d { ht0 = fresh K V n })
  unfolding content
  first_table d n v e z = record {
    valid = record {
      sound0 = Blank-Sound type (fresh K V n) (zcalloc-Blank K V _);
      sound1 = v.sound1;
      apart = λ k. inl (Blank-look type (fresh K V n) k (zcalloc-Blank K V _));
      idle = v.idle;
      busy = λ r b. absurd (none≢some (sym e ∙ b));
    };
    holds =
        λ l. rw (Blank-look type (fresh K V n) l (zcalloc-Blank K V _), no_table d.ht0 l z) refl;
  }

  second_table :
      (d : Dict K V) (n : ℕ)
      → Valid type d
      → d.rehashidx ≡ none
      → 0 < size d.ht0
      → Kept d (record d { ht1 = fresh K V n; rehashidx = some 0 })
  unfolding content
  second_table d n v e pos = record {
    valid = record {
      sound0 = v.sound0;
      sound1 = Blank-Sound type (fresh K V n) (zcalloc-Blank K V _);
      apart = λ k. inr (Blank-look type (fresh K V n) k (zcalloc-Blank K V _));
      idle = λ b. absurd (none≢some (sym b));
      busy = λ r b. record {
        old = pos;
        new = size-fresh K V n;
        behind = λ i h. absurd (omega (arith, h, eq_of_some b));
      };
    };
    holds = λ l.
        rw
          (
            Blank-look type (fresh K V n) l (zcalloc-Blank K V _),
            v.idle e,
            Blank-look type dict_reset l (reset-Blank K V),
          )
          refl;
  }

  -- dictExpand succeeds, and the keys are those from before.
  pub dict_expand_lem :
      (d : Dict K V) (n : ℕ)
      → Valid type d
      → d.rehashidx ≡ none
      → d.ht0.used ≤ n
      → (e : Dict K V) × (dict_expand d n ≡ (true, e)) × Kept d e × (0 < size e.ht0)
  unfolding dict_expand
  dict_expand_lem d n v idle fits =
      let enough : ltb n d.ht0.used ≡ false = ground arith in
      elim (Bool-cases (size d.ht0 == 0)) [
        | inl z ↦ (
          record d { ht0 = fresh K V n },
          rw (idle, enough, z) refl,
          first_table d n v idle (ground arith),
          size-fresh K V n,
        )
        | inr nz ↦ (
          record d { ht1 = fresh K V n; rehashidx = some 0 },
          rw (idle, enough, nz) refl,
          second_table d n v idle (ground arith),
          ground arith,
        )
      ]

  pub dict_expand_if_needed_lem :
      (can_resize : Bool) (d : Dict K V)
      → Valid type d
      → (e : Dict K V) × (dict_expand_if_needed can_resize d ≡ (true, e))
        × Kept d e
        × (0 < size e.ht0)
  unfolding dict_expand_if_needed
  dict_expand_if_needed_lem can_resize d v = elim (Option-cases d.rehashidx) [
    | inr (r, busy) ↦ (d, rw busy refl, Kept-refl d v, (v.busy r busy).old)
    | inl idle ↦ elim (Bool-cases (size d.ht0 == 0)) [
      | inl z ↦
          let unused = no_entry K V d.ht0.table (ground arith) in
          let (e, eq, kept, pos) =
            dict_expand_lem d initial_size v idle (omega (arith, v.sound0.counted, unused)) in
          (e, rw (idle, z) refl ∙ eq, kept, pos)
      | inr nz ↦
          elim (Bool-cases (
            leb (size d.ht0) d.ht0.used
            && (can_resize || ltb force_resize_ratio (d.ht0.used / size d.ht0)))) [
              | inl full ↦
                  let (e, eq, kept, pos) =
                    dict_expand_lem d (d.ht0.used * 2) v idle (omega arith) in
                  (e, rw (idle, nz, full) refl ∙ eq, kept, pos)
              | inr roomy ↦ (d, rw (idle, nz, roomy) refl, Kept-refl d v, ground arith)
            ]
    ]
  ]

  too_small : (d : Dict K V) (n : ℕ) → n < d.ht0.used → dict_expand d n ≡ (false, d)
  unfolding dict_expand
  too_small d n less =
      let few : ltb n d.ht0.used ≡ true = ground arith in
      elim (Bool-cases (is_rehashing d)) [
        | inl moving ↦ rw moving refl
        | inr still ↦ rw (still, few) refl
      ]

  minimal_size-le : (d : Dict K V) → d.ht0.used < 2 ^ 31 → d.ht0.used ≤ minimal_size d
  minimal_size-le d h =
      let e : d.ht0.used % 2 ^ 32 ≡ d.ht0.used = omega arith in
      let positive : leb (2 ^ 31) d.ht0.used ≡ false = ground arith in
      elim (Bool-cases (ltb d.ht0.used initial_size)) [
        | inl few ↦ rw (e, few) (ground arith)
        | inr many ↦ rw (e, many, positive) (omega arith)
      ]

  -- dictResize keeps the keys. Below 2 ^ 31 entries it fails exactly while resizes are not allowed or
  -- entries move.
  pub dict_resize_lem :
      (can_resize : Bool) (d : Dict K V)
      → Valid type d
      → (done : Bool) × (e : Dict K V) × (dict_resize can_resize d ≡ (done, e))
        × Kept d e
        × (d.ht0.used < 2 ^ 31 → done ≡ (can_resize && not (is_rehashing d)))
  unfolding dict_resize
  dict_resize_lem true d v = elim (Option-cases d.rehashidx) [
    | inr (r, busy) ↦ (false, d, rw busy refl, Kept-refl d v, λ h. rw busy refl)
    | inl idle ↦
        let to_expand : dict_resize true d ≡ dict_expand d (minimal_size d) = rw idle refl in
        elim (dec_lt (minimal_size d) d.ht0.used) [
          | no enough ↦
              let (e, eq, kept, pos) = dict_expand_lem d (minimal_size d) v idle (omega arith) in
              (true, e, to_expand ∙ eq, kept, λ h. rw idle refl)
          | yes less ↦ (
            false,
            d,
            to_expand ∙ too_small d (minimal_size d) less,
            Kept-refl d v,
            λ h. absurd (omega (arith, less, minimal_size-le d h)),
          )
        ]
  ]
  dict_resize_lem false d v = (false, d, refl, Kept-refl d v, λ h. refl)
