-- ===== src/Cluster/Commit/Quorum.antt =====
-- src/cluster.c: clusterUpdateCommitIndex commits only what more than half of the nodes have.
use mathlib.Core.Path.{subst}
use mathlib.Core.List.{reverse, reverse-cons, Permᴰ}
use prez.Prelude.{
  ℕ, zero, suc, ◌+◌, ◌-◌, ◌*◌, ◌^◌, ◌≤◌, ◌<◌, ◌≡◌, ◌⊎◌, inl, inr, refl, sym, ap, ◌∙◌, true, ◌&&◌,
  List, [], ◌∷◌, ◌++◌, some, map, eq_of_some, if◌then◌else◌, arith, Bool-cases, length, length-map,
  length-append, get_elem?, get_elem?_within, All,
}
use prez.Prelude.Int.{ℤ, pos, ◌-ℤ◌, leb_ℤ, ltb_ℤ, ◌==ℤ◌, ==ℤ_iff, ◌≤ℤ◌}
use prez.Log.{log_get_term}
use prez.Cluster.State.{ClusterState, quorum_size}
use prez.Cluster.Commit.{
  to_int, compare_indices, reverse_indices, log_indices, raise_commit, cluster_update_commit_index,
}

-- How many of the values are at least v.
unfoldable pub supporters : ℤ → List ℤ → ℕ
supporters v [] = 0
supporters v (x ∷ l) = let n = supporters v l in if leb_ℤ v x then suc n else n

-- The order that qsort(3) leaves: no element is above a later one.
abbrev pub SortedBy : (ℤ → ℤ → ℤ) → List ℤ → Type 0
SortedBy compare [] = Unit {0}
SortedBy compare (x ∷ l) = All (λ y. compare x y ≤ℤ pos 0) l × SortedBy compare l

-- An index whose differences an `int` holds.
abbrev pub FitsInt : ℤ → Type 0
FitsInt v = (i : ℕ) × (v ≡ pos i) × (i < 2 ^ 31)

abbrev Descending : List ℤ → Type 0
Descending [] = Unit {0}
Descending (x ∷ l) = All (λ y. y ≤ℤ x) l × Descending l

supporters-Permᴰ : (v : ℤ) {l l' : List ℤ} → Permᴰ l l' → supporters v l ≡ supporters v l'
unfolding supporters
supporters-Permᴰ v Permᴰ.nil = refl
supporters-Permᴰ v (Permᴰ.cons e p) = rw (e, supporters-Permᴰ v p) refl
supporters-Permᴰ v (Permᴰ.swap e e') = rw (e, e') (ground arith)
supporters-Permᴰ v (Permᴰ.trans p q) = supporters-Permᴰ v p ∙ supporters-Permᴰ v q

length-Permᴰ : {l l' : List ℤ} → Permᴰ l l' → length l ≡ length l'
length-Permᴰ Permᴰ.nil = refl
length-Permᴰ (Permᴰ.cons e p) = ap suc (length-Permᴰ p)
length-Permᴰ (Permᴰ.swap e e') = refl
length-Permᴰ (Permᴰ.trans p q) = length-Permᴰ p ∙ length-Permᴰ q

FitsInt-Permᴰ : {l l' : List ℤ} → Permᴰ l l' → All FitsInt l → All FitsInt l'
FitsInt-Permᴰ Permᴰ.nil a = tt
FitsInt-Permᴰ (Permᴰ.cons e p) a = (rw (← e) a.0, FitsInt-Permᴰ p a.1)
FitsInt-Permᴰ (Permᴰ.swap e e') a = (rw (← e') (a.1).0, (rw (← e) a.0, (a.1).1))
FitsInt-Permᴰ (Permᴰ.trans p q) a = FitsInt-Permᴰ q (FitsInt-Permᴰ p a)

compare_pos : (i j : ℕ) → i < 2 ^ 31 → j < 2 ^ 31 → compare_indices (pos i) (pos j) ≤ℤ pos 0 → i ≤ j
unfolding compare_indices to_int ◌-ℤ◌
compare_pos i j hi hj h = ground arith

compare_indices-order : (x y : ℤ) → FitsInt x → FitsInt y → compare_indices x y ≤ℤ pos 0 → x ≤ℤ y
compare_indices-order x y (i, ex, hi) (j, ey, hj) h =
    let below = compare_pos i j hi hj (rw (ex, ey) at h) in rw (ex, ey) (omega arith)

supporters-append :
    (v : ℤ) (l l' : List ℤ) → supporters v (l ++ l') ≡ supporters v l + supporters v l'
unfolding supporters
supporters-append v [] l' = omega arith
supporters-append v (x ∷ l) l' = ground (arith, supporters-append v l l')

supporters-reverse : (v : ℤ) (l : List ℤ) → supporters v (reverse l) ≡ supporters v l
supporters-reverse v [] = refl
supporters-reverse v (x ∷ l) =
    rw (reverse-cons x l, supporters-append v (reverse l) (x ∷ []), supporters-reverse v l)
      (unfold supporters in ground arith)

All-append {ℓ} : (P : ℤ → Type ℓ) (l l' : List ℤ) → All P l → All P l' → All P (l ++ l')
All-append P [] l' a b = b
All-append P (x ∷ l) l' a b = (a.0, All-append P l l' a.1 b)

All-reverse {ℓ} : (P : ℤ → Type ℓ) (l : List ℤ) → All P l → All P (reverse l)
All-reverse P [] a = tt
All-reverse P (x ∷ l) a =
    rw (reverse-cons x l) (All-append P (reverse l) (x ∷ []) (All-reverse P l a.1) (a.0, tt))

Descending-append :
    (l : List ℤ) (x : ℤ) → Descending l → All (λ y. x ≤ℤ y) l → Descending (l ++ x ∷ [])
Descending-append [] x d a = (tt, tt)
Descending-append (y ∷ l) x d a =
    (All-append _ l (x ∷ []) d.0 (a.0, tt), Descending-append l x d.1 a.1)

above-All :
    (x : ℤ) (l : List ℤ)
    → FitsInt x
    → All FitsInt l
    → All (λ y. compare_indices x y ≤ℤ pos 0) l
    → All (λ y. x ≤ℤ y) l
above-All x [] f fs a = tt
above-All x (y ∷ l) f fs a = (compare_indices-order x y f fs.0 a.0, above-All x l f fs.1 a.1)

Descending-reverse :
    (l : List ℤ) → All FitsInt l → SortedBy compare_indices l → Descending (reverse l)
Descending-reverse [] f s = tt
Descending-reverse (x ∷ l) f s = rw (reverse-cons x l) (
    Descending-append (reverse l) x (Descending-reverse l f.1 s.1)
      (All-reverse _ l (above-All x l f.0 f.1 s.0)))

get_elem?-All {ℓ} :
    (P : ℤ → Type ℓ) (l : List ℤ) (k : ℕ) (v : ℤ) → All P l → get_elem? l k ≡ some v → P v
get_elem?-All P [] k v a h = absurd (cc)
get_elem?-All P (x ∷ l) zero v a h = subst P (eq_of_some h) a.0
get_elem?-All P (x ∷ l) (suc k) v a h = get_elem?-All P l k v a.1 h

supporters_before :
    (l : List ℤ) (k : ℕ) (v : ℤ) → Descending l → get_elem? l k ≡ some v → k < supporters v l
unfolding supporters
supporters_before [] k v d h = absurd (cc)
supporters_before (x ∷ l) zero v d h = rw (eq_of_some h) (ground arith)
supporters_before (x ∷ l) (suc k) v d h =
    ground (arith, supporters_before l k v d.1 h, get_elem?-All _ l k v d.0 h)

abbrev pub match_indices : ClusterState → List ℤ
match_indices s = map (λ n. n.match_index) s.nodes

-- The commit index is raised to an index of the current term that more than half of the nodes have.
pub record Raised (s t : ClusterState) : Type 0 where
  pub higher : ltb_ℤ s.commit_index t.commit_index ≡ true
  pub own_term : log_get_term s.log t.commit_index ≡ s.current_term
  pub backed : length s.nodes < 2 * supporters t.commit_index (match_indices s)

length-reverse : (l : List ℤ) → length (reverse l) ≡ length l
length-reverse [] = refl
length-reverse (x ∷ l) =
    rw (reverse-cons x l) (omega (arith, length-append (reverse l) (x ∷ []), length-reverse l))

module _ (qsort : (ℤ → ℤ → ℤ) → List ℤ → List ℤ) (s : ClusterState)
    (same : Permᴰ (match_indices s) (qsort compare_indices (match_indices s)))
    (sorted : SortedBy compare_indices (qsort compare_indices (match_indices s)))
    (fit : All FitsInt (match_indices s)) where
  length-log_indices : length (log_indices qsort s) ≡ length s.nodes
  unfolding log_indices reverse_indices
  length-log_indices =
      length-reverse (qsort compare_indices (match_indices s))
      ∙ sym (length-Permᴰ same)
      ∙ length-map s.nodes (λ n. n.match_index)

  backed_by :
      (k : ℕ) (v : ℤ)
      → get_elem? (log_indices qsort s) k ≡ some v
      → k < supporters v (match_indices s)
  unfolding log_indices reverse_indices
  backed_by k v h =
      let l = qsort compare_indices (match_indices s) in
      omega (
        arith,
        supporters_before (reverse l) k v (Descending-reverse l (FitsInt-Permᴰ same fit) sorted) h,
        supporters-reverse v l,
        supporters-Permᴰ v same,
      )

  -- The leader commits by majority. Let qsort(3) return the match indices of the nodes in another
  -- order, sorted by compareIndices, and let the match indices be numbers below 2^31. Of a cluster
  -- that has nodes, clusterUpdateCommitIndex reads no place past its array, and either it changes
  -- nothing, or it changes the commit index only, to a higher one whose entry is of the current
  -- term and which more than half of the nodes have reached.
  pub cluster_update_commit_index-majority :
      0 < length s.nodes
      → (t : ClusterState) × (cluster_update_commit_index qsort s ≡ some t)
        × ((t ≡ s) ⊎ ((t ≡ record s { commit_index = t.commit_index }) × Raised s t))
  unfolding cluster_update_commit_index raise_commit quorum_size
  cluster_update_commit_index-majority h =
      let (v, at) =
        get_elem?_within (log_indices qsort s) (quorum_size s - 1)
          (omega (arith, length-log_indices)) in
      elim (Bool-cases (ltb_ℤ s.commit_index v && s.current_term ==ℤ log_get_term s.log v)) [
        | inr stays ↦ (s, rw (at, stays) refl, inl refl)
        | inl rises ↦ (
          record s { commit_index = v },
          rw (at, rises) refl,
          inr (
            refl,
            record {
              higher = ground arith;
              own_term = sym ((==ℤ_iff s.current_term (log_get_term s.log v)).0 (ground arith));
              backed = omega (arith, backed_by (quorum_size s - 1) v at);
            },
          ),
        )
      ]
