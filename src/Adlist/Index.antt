-- ===== src/Adlist/Index.antt =====
-- src/adlist.c: where listIndex ends, from either side, and what the deleting loop leaves.
use prez.Prelude.{
  ℕ, zero, suc, ◌+◌, ◌-◌, ◌≤◌, ◌<◌, ◌≡◌, refl, List, [], ◌∷◌, none, some, ltb, leb, if◌then◌else◌,
  length, arith, take, take_all,
}
use prez.Prelude.Int.{pos, negsuc}
use prez.Adlist.{walk_next, walk_prev, next_node, prev_node, list_index, list_del_node, delete_from}

walk_next-none : (len i : ℕ) → walk_next len i none ≡ none
unfolding walk_next
walk_next-none len zero = refl
walk_next-none len (suc i) = refl

walk_prev-none : (i : ℕ) → walk_prev i none ≡ none
unfolding walk_prev
walk_prev-none zero = refl
walk_prev-none (suc i) = refl

walk_next_lem :
    (len i n : ℕ)
    → n < len
    → walk_next len i (some n) ≡ (if ltb (n + i) len then some (n + i) else none)
unfolding walk_next next_node
walk_next_lem len zero n h = ground arith
walk_next_lem len (suc i) n h = ground (arith, walk_next-none len i, walk_next_lem len i (n + 1))

walk_prev_lem : (i n : ℕ) → walk_prev i (some n) ≡ (if leb i n then some (n - i) else none)
unfolding walk_prev prev_node
walk_prev_lem zero n = ground arith
walk_prev_lem (suc i) zero = ground (arith, walk_prev-none i)
walk_prev_lem (suc i) (suc n) = ground (arith, walk_prev_lem i n)

module _ {ℓ} {A : Type ℓ} where
  -- From the head: position `i`, if the list has it.
  pub list_index-pos :
      (l : List A) (i : ℕ) → list_index l (pos i) ≡ (if ltb i (length l) then some i else none)
  unfolding list_index
  list_index-pos [] i = ground (arith, walk_next-none 0 i)
  list_index-pos (x ∷ l) i = ground (arith, walk_next_lem (suc (length l)) i 0)

  -- From the tail: -1 is the last position.
  pub list_index-negsuc :
      (l : List A) (i : ℕ)
      → list_index l (negsuc i) ≡ (if ltb i (length l) then some (length l - 1 - i) else none)
  unfolding list_index
  list_index-negsuc [] i = ground (arith, walk_prev-none i)
  list_index-negsuc (x ∷ l) i = ground (arith, walk_prev_lem i (length l))

module _ {A : Type 0} where
  length-list_del_node :
      (l : List A) (n : ℕ) → n < length l → length (list_del_node l n) + 1 ≡ length l
  unfolding list_del_node
  length-list_del_node [] n h = elim h [ ]
  length-list_del_node (x ∷ l) zero h = omega arith
  length-list_del_node (x ∷ l) (suc n) h = omega (arith, length-list_del_node l n (omega arith))

  take-list_del_node : (l : List A) (n : ℕ) → take n (list_del_node l n) ≡ take n l
  unfolding list_del_node
  take-list_del_node [] n = refl
  take-list_del_node (x ∷ l) zero = refl
  take-list_del_node (x ∷ l) (suc n) = rw (take-list_del_node l n)

  take_whole : (l : List A) (n : ℕ) → length l ≤ n → take n l ≡ l
  take_whole l n h = take_all l n h

  -- The loop deletes the node and everything behind it, in as many rounds as there are nodes.
  pub delete_from-take :
      (rounds : ℕ) (l : List A) (n : ℕ) → length l ≤ rounds → delete_from rounds l n ≡ take n l
  unfolding delete_from
  delete_from-take zero [] n h = ground (arith, take_whole [] n)
  delete_from-take zero (x ∷ l) n h = absurd (omega arith)
  delete_from-take (suc rounds) l n h = ground (
    arith,
    take_whole l n,
    length-list_del_node l n,
    take-list_del_node l n,
    delete_from-take rounds (list_del_node l n) n,
  )
