-- ===== src/Dict/Laws.antt =====
-- src/dict.c: the operations on a dictionary are those of a finite map.
use prez.Prelude.{
  ◌≡◌, refl, ap, ◌∙◌, inl, inr, true, Option, none, some, if◌then◌else◌, Bool-cases, Option-cases,
  arith, ◌==◌,
}
use prez.Log.{◌>>=◌}
use prez.Dict.{Dictht, Dict, DictType, size, is_some, search_tables, dict_reset}
use prez.Dict.Operations.{dict_find, delete_in, change, dict_generic_delete}
use prez.Dict.Chains.{Lawful}
use prez.Dict.Tables.{put}
use prez.Dict.Updates.{delete_in_lem, delete_in_absent, look_same}
use prez.Dict.Valid.{content, Valid, Holds, Blank-look, reset-Blank}
use prez.Dict.Expand.{Kept, Kept-refl, no_table}
use prez.Dict.Progress.{rehash_on_use_lem, search_tables_lem}
use prez.Dict.Change.{none_of, change_there, change_absent}

module _ {K V : Type 0} (type : DictType K) (law : Lawful type) where
  pub content_same :
      (d : Dict K V) (k l : K) → type.key_compare k l ≡ true → content type d k ≡ content type d l
  unfolding content
  content_same d k l h = rw (look_same type law d.ht0 k l h, look_same type law d.ht1 k l h) refl

  -- Nothing is held by a dictionary without a table.
  pub nothing_held :
      (d : Dict K V) (l : K) → Valid type d → size d.ht0 ≡ 0 → content type d l ≡ none
  unfolding content
  nothing_held d l v z = elim (Option-cases d.rehashidx) [
    | inr (r, busy) ↦ absurd (omega (arith, (v.busy r busy).old, z))
    | inl idle ↦
        rw (no_table type d.ht0 l z, v.idle idle, Blank-look type dict_reset l (reset-Blank K V))
          refl
  ]

  pub Holds-along :
      (d e e' : Dict K V) (k : K) (o : Option V)
      → Kept type d e
      → Holds type e' (put type (content type e) k o)
      → Holds type e' (put type (content type d) k o)
  Holds-along d e e' k o kept h = record {
    valid = h.valid;
    holds = λ l. h.holds l ∙ ap (λ c. if type.key_compare l k then o else c) (kept.holds l);
  }

  put_nothing :
      (d : Dict K V) (k : K)
      → Valid type d
      → content type d k ≡ none
      → Holds type d (put type (content type d) k none)
  put_nothing d k v absent = record {
    valid = v;
    holds = λ l. elim (Bool-cases (type.key_compare l k)) [
      | inl same ↦ rw same (content_same d l k same ∙ absent)
      | inr other ↦ rw other refl
    ];
  }

  -- dictFind returns what the dictionary holds at the key, and changes nothing of it.
  pub dict_find_lem :
      (d : Dict K V) (k : K)
      → Valid type d
      → (e : Dict K V) × (dict_find type d k ≡ some (content type d k, e)) × Kept type d e
  unfolding dict_find
  dict_find_lem d k v = elim (Bool-cases (size d.ht0 == 0)) [
    | inl z ↦ (d, rw (z, nothing_held d k v (ground arith)) refl, Kept-refl type d v)
    | inr nz ↦
        let (e, eq, kept, pos) = rehash_on_use_lem type law d v in
        let found =
          search_tables_lem type law e k kept.valid (pos (ground arith)) ∙ ap some (kept.holds k) in
        (
          e,
          rw nz refl
              ∙ ap (λ o. o >>= λ t. search_tables type t k >>= λ r. some (r, t)) eq
              ∙ ap (λ o. o >>= λ r. some (r, e)) found,
          kept,
        )
  ]

  -- dictDelete succeeds if and only if the key is there, and then removes it alone.
  pub dict_generic_delete_lem :
      (d : Dict K V) (k : K)
      → Valid type d
      → (e : Dict K V) × (dict_generic_delete type d k ≡ some (is_some (content type d k), e))
        × Holds type e (put type (content type d) k none)
  unfolding dict_generic_delete
  dict_generic_delete_lem d k v = elim (Bool-cases (size d.ht0 == 0)) [
    | inl z ↦
        let gone = nothing_held d k v (ground arith) in
        (d, rw (z, gone) refl, put_nothing d k v gone)
    | inr nz ↦
        let (e, eq, kept, pos) = rehash_on_use_lem type law d v in
        let f = λ (ht : Dictht K V). delete_in type ht k in
        let first : dict_generic_delete type d k ≡ change f e =
          rw nz refl ∙ ap (λ o. o >>= change f) eq in
        elim (Bool-cases (is_some (content type d k))) [
          | inl there ↦
              let (e', eq', h) =
                change_there type law f k none (λ ht. delete_in_lem type law ht k)
                  (λ ht. delete_in_absent type law ht k) e kept.valid (pos (ground arith))
                  (ap is_some (kept.holds k) ∙ there) in
              (e', rw there (first ∙ eq'), Holds-along d e e' k none kept h)
          | inr absent ↦
              let none_there = ap is_some (kept.holds k) ∙ absent in
              let eq' =
                change_absent type law f k none (λ ht. delete_in_lem type law ht k)
                  (λ ht. delete_in_absent type law ht k) e kept.valid (pos (ground arith))
                  none_there in
              (
                e,
                rw absent (first ∙ eq'),
                Holds-along d e e k none kept (put_nothing e k kept.valid (none_of _ none_there)),
              )
        ]
  ]
