-- ===== src/Log/Index.antt =====
-- src/log.c: which entry getLogNode and its callers find in a log whose indices are 1, 2, 3, ….
use prez.Prelude.{
  ℕ, zero, suc, ◌+◌, ◌-◌, ◌^◌, ◌≤◌, ◌<◌, ◌≡◌, ◌≢◌, refl, List, [], ◌∷◌, Option, none, some, ltb,
  if◌then◌else◌, length, get_elem?, get_elem?_within, lt-length_of_some, get_elem?_end, arith, ap,
  sym, ◌∙◌,
}
use prez.Prelude.Int.{pos, negsuc, ◌-ℤ◌, pos_part, int_laws}
use prez.Adlist.Index.{list_index-pos, list_index-negsuc}
use prez.Log.{
  Log, LogEntryNode, log_length, node_offset, get_log_node, get_log_entry, log_current_index,
  log_current_term, last_entry, index_or_zero, term_or_zero, ◌>>=◌,
}

-- A list in memory is far shorter than 2^62.
abbrev pub max_length : ℕ
max_length = 2 ^ 62

-- The entry at position i has index `start` + i + 1.
abbrev pub Contiguous : ℕ → List LogEntryNode → Type 0
Contiguous start [] = Unit {0}
Contiguous start (n ∷ ns) = (n.log_entry.index ≡ pos (suc start)) × Contiguous (suc start) ns

pub get_elem?-Contiguous :
    (start : ℕ) (l : List LogEntryNode) (i : ℕ) (en : LogEntryNode)
    → Contiguous start l
    → get_elem? l i ≡ some en
    → en.log_entry.index ≡ pos (suc (start + i))
get_elem?-Contiguous start [] i en c h = cc
get_elem?-Contiguous start (n ∷ ns) zero en c h = ground arith
get_elem?-Contiguous start (n ∷ ns) (suc i) en c h =
    ground (arith, get_elem?-Contiguous (suc start) ns i en c.1 h)

pub index_at :
    (log : Log) (i : ℕ) (en : LogEntryNode)
    → Contiguous 0 log.log_entries
    → get_elem? log.log_entries i ≡ some en
    → en.log_entry.index ≡ pos (suc i)
index_at log i en c at = get_elem?-Contiguous 0 log.log_entries i en c at ∙ ap pos (omega arith)

guarded :
    (l : List LogEntryNode) (i : ℕ)
    → ((if ltb i (length l) then some i else none) >>= get_elem? l) ≡ get_elem? l i
guarded l i = ground (arith, get_elem?_end l i)

node_offset_within :
    (len i : ℕ) → i < len → len ≤ max_length → node_offset len (pos (suc i)) ≡ negsuc (len - 1 - i)
unfolding node_offset ◌-ℤ◌
node_offset_within len i h m = ground arith

node_offset_above :
    (len i : ℕ)
    → len ≤ i
    → i < 2 ^ 63
    → len ≤ max_length
    → node_offset len (pos (suc i)) ≡ pos (i - len)
unfolding node_offset ◌-ℤ◌
node_offset_above len i h b m = ground arith

node_offset_zero : (len : ℕ) → len ≤ max_length → node_offset len (pos 0) ≡ negsuc len
unfolding node_offset ◌-ℤ◌
node_offset_zero len m = ground arith

module _ (log : Log) (bounded : log_length log ≤ max_length) where
  pub get_log_node_within : (i : ℕ) → i < log_length log → get_log_node log (pos (suc i)) ≡ some i
  unfolding get_log_node
  get_log_node_within i h =
      rw (node_offset_within (log_length log) i h bounded)
        (ground (arith, list_index-negsuc log.log_entries (log_length log - 1 - i)))

  -- A valid index finds the entry at its place.
  pub get_log_entry_within :
      (i : ℕ) → i < log_length log → get_log_entry log (pos (suc i)) ≡ get_elem? log.log_entries i
  unfolding get_log_entry
  get_log_entry_within i h = rw (get_log_node_within i h)

  pub get_log_entry_zero : get_log_entry log (pos 0) ≡ none
  unfolding get_log_entry get_log_node
  get_log_entry_zero =
      rw
        (
          node_offset_zero (log_length log) bounded,
          list_index-negsuc log.log_entries (log_length log),
        )
        (ground arith)

  -- An index past the end counts on from the head again.
  pub get_log_entry_above :
      (i : ℕ)
      → log_length log ≤ i
      → i < 2 ^ 63
      → get_log_entry log (pos (suc i)) ≡ get_elem? log.log_entries (i - log_length log)
  unfolding get_log_entry get_log_node
  get_log_entry_above i h b =
      rw
        (
          node_offset_above (log_length log) i h b bounded,
          list_index-pos log.log_entries (i - log_length log),
        )
        (guarded log.log_entries (i - log_length log))

  -- Past the end no entry with that index is found.
  pub get_log_entry_other :
      (i : ℕ) (en : LogEntryNode)
      → Contiguous 0 log.log_entries
      → log_length log ≤ i
      → i < 2 ^ 63
      → get_log_entry log (pos (suc i)) ≡ some en
      → en.log_entry.index ≢ pos (suc i)
  get_log_entry_other i en c h b found e =
      let at = rw (get_log_entry_above i h b) at found in
      omega (
        int_laws,
        lt-length_of_some log.log_entries (i - log_length log) en at,
        ap pos_part (get_elem?-Contiguous 0 log.log_entries (i - log_length log) en c at),
        ap pos_part e,
      )

last_of_entries :
    (l : List LogEntryNode)
    → ((if ltb 0 (length l) then some (length l - 1 - 0) else none) >>= get_elem? l)
      ≡ get_elem? l (length l - 1)
last_of_entries [] = refl
last_of_entries (x ∷ l) = ground arith

last_entry_lem : (log : Log) → last_entry log ≡ get_elem? log.log_entries (log_length log - 1)
unfolding last_entry
last_entry_lem log = rw (list_index-negsuc log.log_entries 0) (last_of_entries log.log_entries)

index_of_last :
    (l : List LogEntryNode) (o : Option LogEntryNode)
    → Contiguous 0 l
    → o ≡ get_elem? l (length l - 1)
    → index_or_zero o ≡ pos (length l)
index_of_last [] none c e = refl
index_of_last [] (some en) c e = cc
index_of_last (x ∷ l) none c e =
    let (en, at) = get_elem?_within (x ∷ l) (length (x ∷ l) - 1) (omega arith) in cc
index_of_last (x ∷ l) (some en) c e =
    get_elem?-Contiguous 0 (x ∷ l) (length (x ∷ l) - 1) en c (sym e) ∙ ap pos (omega arith)

-- The current index of a well-formed log is its length.
pub log_current_index_lem :
    (log : Log) → Contiguous 0 log.log_entries → log_current_index log ≡ pos (log_length log)
unfolding log_current_index
log_current_index_lem log c = index_of_last log.log_entries (last_entry log) c (last_entry_lem log)

-- Its current term is that of its last entry.
pub log_current_term_lem :
    (log : Log)
    → log_current_term log ≡ term_or_zero (get_elem? log.log_entries (log_length log - 1))
unfolding log_current_term
log_current_term_lem log = ap term_or_zero (last_entry_lem log)
