-- ===== src/Adlist.antt =====
-- src/adlist.c: the doubly linked list as the sequence of its values. A `listNode *` is the node's
-- position in the sequence, `none` is NULL; `next` and `prev` are the neighbouring positions.
pub mod Index
use prez.Prelude.{
  ℕ, zero, suc, ◌+◌, ◌-◌, Bool, true, false, List, [], ◌∷◌, ◌++◌, Option, none, some, ltb, leb,
  ◌==◌, if◌then◌else◌, length, get_elem?,
}
use prez.Prelude.Int.{ℤ, pos, negsuc}

-- node->next in a list of `len` nodes.
next_node : ℕ → ℕ → Option ℕ
next_node len n = if ltb (n + 1) len then some (n + 1) else none

-- node->prev.
prev_node : ℕ → Option ℕ
prev_node zero = none
prev_node (suc n) = some n

-- `while (index-- && n) n = n->next`.
walk_next : ℕ → ℕ → Option ℕ → Option ℕ
walk_next len zero n = n
walk_next len (suc index) none = none
walk_next len (suc index) (some n) = walk_next len index (next_node len n)

-- `while (index-- && n) n = n->prev`.
walk_prev : ℕ → Option ℕ → Option ℕ
walk_prev zero n = n
walk_prev (suc index) none = none
walk_prev (suc index) (some n) = walk_prev index (prev_node n)

-- list->head and list->tail of a list of `len` nodes.
head_node : ℕ → Option ℕ
head_node zero = none
head_node (suc n) = some 0

tail_node : ℕ → Option ℕ
tail_node = prev_node

module _ {ℓ} {A : Type ℓ} where
  unfoldable pub list_index : List A → ℤ → Option ℕ
  unfolding walk_next walk_prev head_node tail_node next_node prev_node
  list_index l (pos index) = walk_next (length l) index (head_node (length l))
  list_index l (negsuc index) = walk_prev index (tail_node (length l))

  pub list_add_node_head : List A → A → List A
  list_add_node_head l value = value ∷ l

  unfoldable pub list_add_node_tail : List A → A → List A
  list_add_node_tail l value = l ++ value ∷ []

  -- listDelNode of the node at a position.
  unfoldable pub list_del_node : List A → ℕ → List A
  list_del_node [] n = []
  list_del_node (x ∷ l) zero = l
  list_del_node (x ∷ l) (suc n) = x ∷ list_del_node l n

  -- `while ((ln = listNext(&li)) != NULL) listDelNode(list, ln)`, from the node `n` on. listNext has
  -- stepped past `n` before it is deleted, and the successor then has its position.
  unfoldable pub delete_from : ℕ → List A → ℕ → List A
  unfolding list_del_node
  delete_from zero l n = l
  delete_from (suc rounds) l n =
      let rest = delete_from rounds (list_del_node l n) n in if ltb n (length l) then rest else l

  -- listRotate: the tail becomes the head.
  rotate_tail : A → List A → List A → List A
  rotate_tail x [] front = x ∷ front
  rotate_tail x (y ∷ l) front = rotate_tail y l (front ++ x ∷ [])

  pub list_rotate : List A → List A
  unfolding rotate_tail
  list_rotate [] = []
  list_rotate (x ∷ []) = x ∷ []
  list_rotate (x ∷ y ∷ l) = rotate_tail x (y ∷ l) []

  -- listSearchKey with `match` set: the first node whose value matches.
  search_from : (A → A → Bool) → A → List A → ℕ → Option ℕ
  search_from match key [] n = none
  search_from match key (x ∷ l) n =
      let rest = search_from match key l (n + 1) in if match x key then some n else rest

  pub list_search_key : (A → A → Bool) → List A → A → Option ℕ
  unfolding search_from
  list_search_key match l key = search_from match key l 0
