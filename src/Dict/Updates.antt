-- ===== src/Dict/Updates.antt =====
-- src/dict.c: the changes of one hash table are updates of its map.
use Prim.Native.Nat.{bit_and}
use prez.Prelude.{
  ℕ, ◌+◌, ◌-◌, ◌<◌, ◌≡◌, ◌≢◌, refl, sym, ap, ◌∙◌, inl, inr, true, false, [], ◌∷◌, Option, none,
  some, length, get_or, set, length-set, if◌then◌else◌, Bool-cases, ℕ_discrete, arith,
}
use prez.Dict.{DictEntry, Chain, Dictht, DictType, is_some, lookup, size, sizemask, key_index, push}
use prez.Dict.Operations.{set_val, removed, delete_in, set_val_in}
use prez.Dict.Chains.{
  Lawful, Distinct, lookup_same, lookup-set_val, lookup-removed, All-removed, All-set_val,
  Distinct-removed, Distinct-set_val, length-removed, length-set_val,
}
use prez.Dict.Tables.{
  length-le_entries, with_bucket, bucket, look, Good, Sound, Becomes, put, key_index-lt,
  bucket_there, look-with_bucket_here, look-with_bucket_other, Sound-with_bucket, get_or-set_self,
  get_or-set_ne,
}

module _ {K V : Type 0} (type : DictType K) (law : Lawful type) where
  put_elsewhere :
      (f : K → Option V) (k : K) (o : Option V) (l : K)
      → type.hash_function l ≢ type.hash_function k
      → put type f k o l ≡ f l
  put_elsewhere f k o l ne = elim (Bool-cases (type.key_compare l k)) [
    | inl same ↦ absurd (ne (law.hash_same l k same))
    | inr other ↦ rw other refl
  ]

  -- Another chain in the bucket of a key.
  Becomes-with_bucket :
      (ht : Dictht K V) (k : K) (c : Chain K V) (u : ℕ) (o : Option V)
      → 0 < size ht
      → Sound type ht
      → Good type (sizemask ht) (key_index type ht k) c
      → u + length (bucket ht (key_index type ht k)) ≡ ht.used + length c
      → ((l : K) → lookup type c l ≡ put type (lookup type (bucket ht (key_index type ht k))) k o l)
      → Becomes type ht (with_bucket ht (key_index type ht k) c u) (put type (look type ht) k o)
  unfolding look
  Becomes-with_bucket ht k c u o h s good count at =
      let i = key_index type ht k in
      let within = key_index-lt type ht k h in
      record {
        sound = Sound-with_bucket type ht i c u s within good count;
        same_size = length-set ht.table i c;
        holds = λ l. elim (ℕ_discrete (key_index type ht l) i) [
          | yes same ↦
              look-with_bucket_here type ht i c u l within same
              ∙ at l
              ∙ ap (λ n. if type.key_compare l k then o else lookup type (bucket ht n) l) (sym same)
          | no other ↦
              look-with_bucket_other type ht i c u l other
              ∙ sym (
                  put_elsewhere (look type ht) k o l
                    (λ e. other (ap (λ n. bit_and n (sizemask ht)) e)))
        ];
      }

  -- A chain that is empty if the one before it was leaves the empty buckets empty.
  stays_empty :
      (ht : Dictht K V) (i : ℕ) (c : Chain K V)
      → i < size ht
      → (bucket ht i ≡ [] → c ≡ [])
      → (j : ℕ) → bucket ht j ≡ []
      → get_or (set ht.table i c) j [] ≡ []
  stays_empty ht i c h empty j e = elim (ℕ_discrete j i) [
    | yes same ↦
        let here : bucket ht i ≡ [] = ap (bucket ht) (sym same) ∙ e in
        rw (same, get_or-set_self ht.table i c [] h) (empty here)
    | no other ↦ get_or-set_ne ht.table i j c [] other ∙ e
  ]

  -- Two keys that are equal hold the same.
  pub look_same :
      (ht : Dictht K V) (k l : K) → type.key_compare k l ≡ true → look type ht k ≡ look type ht l
  unfolding look
  look_same ht k l h =
      rw (law.hash_same k l h) (lookup_same type law (bucket ht (key_index type ht l)) k l h)

  pub push_lem :
      (ht : Dictht K V) (entry : DictEntry K V)
      → 0 < size ht
      → Sound type ht
      → look type ht entry.key ≡ none
      → (ht' : Dictht K V) × (push ht (key_index type ht entry.key) entry ≡ some ht')
        × Becomes type ht ht' (put type (look type ht) entry.key (some entry.val))
  unfolding push look lookup Distinct
  push_lem ht entry h s new =
      let i = key_index type ht entry.key in
      let b = s.buckets i in
      (
        with_bucket ht i (entry ∷ bucket ht i) (ht.used + 1),
        rw (bucket_there type ht entry.key h) refl,
        Becomes-with_bucket ht entry.key (entry ∷ bucket ht i) (ht.used + 1) (some entry.val) h s
            (record { placed = (refl, b.placed); distinct = (new, b.distinct) }) (omega arith)
            (λ l. refl),
      )

  pub delete_in_lem :
      (ht : Dictht K V) (k : K)
      → 0 < size ht
      → Sound type ht
      → is_some (look type ht k) ≡ true
      → (ht' : Dictht K V) × (delete_in type ht k ≡ some (some ht'))
        × Becomes type ht ht' (put type (look type ht) k none)
        × ((j : ℕ) → bucket ht j ≡ [] → bucket ht' j ≡ [])
  unfolding delete_in look removed
  delete_in_lem ht k h s there =
      let i = key_index type ht k in
      let b = s.buckets i in
      let c = removed type (bucket ht i) k in
      (
        with_bucket ht i c (ht.used - 1),
        rw (bucket_there type ht k h, there) refl,
        Becomes-with_bucket ht k c (ht.used - 1) none h s
            (record {
              placed = All-removed type law _ (bucket ht i) k b.placed;
              distinct = Distinct-removed type law (bucket ht i) k b.distinct;
            })
            (omega (
              arith,
              s.counted,
              length-le_entries ht.table i,
              length-removed type law (bucket ht i) k there,
            ))
            (λ l. lookup-removed type law (bucket ht i) k l b.distinct),
        stays_empty ht i c (key_index-lt type ht k h) (λ e. ap (λ b. removed type b k) e),
      )

  pub delete_in_absent :
      (ht : Dictht K V) (k : K)
      → 0 < size ht
      → is_some (look type ht k) ≡ false
      → delete_in type ht k ≡ some none
  unfolding delete_in look
  delete_in_absent ht k h absent = rw (bucket_there type ht k h, absent) refl

  set_at_there :
      (c : Chain K V) (k : K) (v : V) (l : K)
      → is_some (lookup type c k) ≡ true
      → lookup type (set_val type c k v) l ≡ put type (lookup type c) k (some v) l
  set_at_there c k v l there = elim (Bool-cases (type.key_compare l k)) [
    | inl same ↦ rw (lookup-set_val type law c k v l, same, there) refl
    | inr other ↦ rw (lookup-set_val type law c k v l, other) refl
  ]

  pub set_val_in_lem :
      (ht : Dictht K V) (k : K) (v : V)
      → 0 < size ht
      → Sound type ht
      → is_some (look type ht k) ≡ true
      → (ht' : Dictht K V) × (set_val_in type ht k v ≡ some (some ht'))
        × Becomes type ht ht' (put type (look type ht) k (some v))
        × ((j : ℕ) → bucket ht j ≡ [] → bucket ht' j ≡ [])
  unfolding set_val_in look set_val
  set_val_in_lem ht k v h s there =
      let i = key_index type ht k in
      let b = s.buckets i in
      let c = set_val type (bucket ht i) k v in
      (
        with_bucket ht i c ht.used,
        rw (bucket_there type ht k h, there) refl,
        Becomes-with_bucket ht k c ht.used (some v) h s
            (record {
              placed =
                  All-set_val type law (λ key. bit_and (type.hash_function key) (sizemask ht) ≡ i)
                    (bucket ht i) k v b.placed;
              distinct = Distinct-set_val type law (bucket ht i) k v b.distinct;
            })
            (omega (arith, length-set_val type law (bucket ht i) k v))
            (λ l. set_at_there (bucket ht i) k v l there),
        stays_empty ht i c (key_index-lt type ht k h) (λ e. ap (λ b. set_val type b k v) e),
      )

  pub set_val_in_absent :
      (ht : Dictht K V) (k : K) (v : V)
      → 0 < size ht
      → is_some (look type ht k) ≡ false
      → set_val_in type ht k v ≡ some none
  unfolding set_val_in look
  set_val_in_absent ht k v h absent = rw (bucket_there type ht k h, absent) refl
