-- ===== src/Log/Write.antt =====
-- src/log.c: what logWriteEntry does to a log whose indices are 1, 2, 3, …, branch by branch.
use mathlib.Core.Option
use native.Mathlib.Nat.{le_refl}
use prez.Prelude.{
  ℕ, suc, ◌^◌, ◌≤◌, ◌<◌, ◌≡◌, ◌≢◌, inl, inr, List, Option, none, some, length, get_elem?,
  lt-length_of_some, take, arith, Option-cases, sym, ◌∙◌, lt→ltb,
}
use prez.Prelude.Int.{ℤ, pos, ==ℤ_iff, ==ℤ_true, ==ℤ_false}
use prez.Adlist.Index.{delete_from-take}
use prez.Log.{
  ◌>>=◌, Log, LogEntry, Os, LogEntryNode, log_length, get_log_entry, log_write_entry, append_entry,
  log_truncate, truncate_at, resolve, write_over, ftruncate, cut_entries, get_log_node,
}
use prez.Log.Index.{
  max_length, get_log_entry_within, get_log_node_within, Contiguous, get_log_entry_other,
}

-- The log without the entries from position i on, `en` being the first of them.
abbrev pub cut_at : Log → ℕ → LogEntryNode → Log
cut_at log i en = record {
  log_entries = take i log.log_entries;
  log_current_size = en.position;
  file = ftruncate log.file en.position;
}

module _ (os : Os) (log : Log) (e old : LogEntry) where
  resolve_other : old.index ≢ e.index → resolve os log e old ≡ some (append_entry os log e)
  unfolding resolve
  resolve_other h = ground (arith, ==ℤ_false old.index e.index h, ==ℤ_iff e.index old.index)

  resolve_same : old.index ≡ e.index → old.term ≡ e.term → resolve os log e old ≡ some log
  unfolding resolve
  resolve_same hi ht = rw (==ℤ_true _ _ hi, ==ℤ_true _ _ ht)

  resolve_conflict :
      old.index ≡ e.index
      → old.term ≢ e.term
      → resolve os log e old ≡ Option.map (λ cut. append_entry os cut e) (log_truncate log e.index)
  unfolding resolve
  resolve_conflict hi ht = rw (
    ==ℤ_false old.term e.term ht,
    ==ℤ_true old.index e.index hi,
    ==ℤ_false e.term old.term (λ h. ht (sym h)),
    ==ℤ_true e.index old.index (sym hi),
  )

nonempty_of_bind :
    (o : Option ℕ) (l : List LogEntryNode) (en : LogEntryNode)
    → (o >>= get_elem? l) ≡ some en
    → 0 < length l
nonempty_of_bind none l en h = cc
nonempty_of_bind (some n) l en h = omega (arith, lt-length_of_some l n en h)

found_nonempty :
    (log : Log) (index : ℤ) (en : LogEntryNode)
    → get_log_entry log index ≡ some en
    → 0 < log_length log
unfolding get_log_entry
found_nonempty log index en h = nonempty_of_bind (get_log_node log index) log.log_entries en h

module _ (os : Os) (log : Log) (e : LogEntry) where
  write_found :
      (en : LogEntryNode)
      → 0 < log_length log
      → get_log_entry log e.index ≡ some en
      → log_write_entry os log e ≡ resolve os log e en.log_entry
  unfolding log_write_entry
  write_found en h at = rw (lt→ltb _ _ h, at, write_over)

  write_missing :
      get_log_entry log e.index ≡ none → log_write_entry os log e ≡ some (append_entry os log e)
  unfolding log_write_entry
  write_missing at = rw (at, write_over) (ground arith)

  write_at :
      (i : ℕ) (en : LogEntryNode)
      → log_length log ≤ max_length
      → e.index ≡ pos (suc i)
      → get_elem? log.log_entries i ≡ some en
      → log_write_entry os log e ≡ resolve os log e en.log_entry
  write_at i en bounded ei at =
      let h = lt-length_of_some log.log_entries i en at in
      write_found en (omega arith) (rw ei (get_log_entry_within log bounded i h ∙ at))

  truncate_strict :
      (i : ℕ)
      → log_length log ≤ max_length
      → suc i ≡ log_length log
      → log_truncate log (pos (suc i)) ≡ some log
  unfolding log_truncate
  truncate_strict i bounded h = ground arith

  truncate_inside :
      (i : ℕ) (en : LogEntryNode)
      → log_length log ≤ max_length
      → suc i < log_length log
      → get_elem? log.log_entries i ≡ some en
      → log_truncate log (pos (suc i)) ≡ some (truncate_at log (pos (suc i)) en)
  unfolding log_truncate
  truncate_inside i en bounded h at = ground (arith, get_log_entry_within log bounded i)

  truncate_at_lem :
      (i : ℕ) (en : LogEntryNode)
      → log_length log ≤ max_length
      → i < log_length log
      → truncate_at log (pos (suc i)) en ≡ cut_at log i en
  unfolding truncate_at cut_entries
  truncate_at_lem i en bounded h = rw (
    get_log_node_within log bounded i h,
    cut_entries,
    delete_from-take (log_length log) log.log_entries i (le_refl _),
  )

module _ (os : Os) (log : Log) (e : LogEntry) (bounded : log_length log ≤ max_length) where
  -- Past the end the entry is appended.
  pub log_write_entry_next :
      (i : ℕ)
      → Contiguous 0 log.log_entries
      → log_length log ≤ i
      → i < 2 ^ 63
      → e.index ≡ pos (suc i)
      → log_write_entry os log e ≡ some (append_entry os log e)
  log_write_entry_next i c h b ei = elim (Option-cases (get_log_entry log e.index)) [
    | inl missing ↦ write_missing os log e missing
    | inr (en, found) ↦
        write_found os log e en (found_nonempty log e.index en found) found
        ∙ resolve_other os log e en.log_entry
            (rw ei (get_log_entry_other log bounded i en c h b (rw ei at found)))
  ]

  -- The same index and term again: nothing happens.
  pub log_write_entry_same :
      (i : ℕ) (en : LogEntryNode)
      → e.index ≡ pos (suc i)
      → get_elem? log.log_entries i ≡ some en
      → en.log_entry.index ≡ e.index
      → en.log_entry.term ≡ e.term
      → log_write_entry os log e ≡ some log
  log_write_entry_same i en ei at same_index same_term =
      write_at os log e i en bounded ei at ∙ resolve_same os log e en.log_entry same_index same_term

  -- Another term, not at the last entry: the log is cut there and the entry appended.
  pub log_write_entry_conflict :
      (i : ℕ) (en : LogEntryNode)
      → e.index ≡ pos (suc i)
      → get_elem? log.log_entries i ≡ some en
      → en.log_entry.index ≡ e.index
      → en.log_entry.term ≢ e.term
      → suc i < log_length log
      → log_write_entry os log e ≡ some (append_entry os (cut_at log i en) e)
  log_write_entry_conflict i en ei at same_index other_term h =
      write_at os log e i en bounded ei at
      ∙ resolve_conflict os log e en.log_entry same_index other_term
      ∙ rw (
        ei,
        truncate_inside os log e i en bounded h at,
        truncate_at_lem os log e i en bounded (omega arith),
      )

  -- Another term at the last entry: logTruncate's test is strict, so nothing is cut.
  pub log_write_entry_conflict_last :
      (i : ℕ) (en : LogEntryNode)
      → e.index ≡ pos (suc i)
      → get_elem? log.log_entries i ≡ some en
      → en.log_entry.index ≡ e.index
      → en.log_entry.term ≢ e.term
      → suc i ≡ log_length log
      → log_write_entry os log e ≡ some (append_entry os log e)
  log_write_entry_conflict_last i en ei at same_index other_term h =
      write_at os log e i en bounded ei at
      ∙ resolve_conflict os log e en.log_entry same_index other_term
      ∙ rw (ei, truncate_strict os log e i bounded h)
