-- ===== src/Log/Conflict.antt =====
-- src/log.c: the conflict at the last entry, which logTruncate does not resolve.
use prez.Prelude.{
  ℕ, suc, ◌+◌, ◌≤◌, ◌≡◌, ◌≢◌, List, [], ◌∷◌, ◌++◌, some, length, get_elem?, arith, ap, ◌∙◌, sym,
}
use prez.Prelude.Int.{pos, pos_part}
use prez.Log.{Log, LogEntry, LogEntryNode, Os, log_length, log_write_entry, append_entry}
use prez.Adlist.{list_add_node_tail}
use prez.Log.Index.{max_length, Contiguous, index_at}
use prez.Log.Takeover.{entries_of}
use prez.Log.Append.{entries-append_entry}
use prez.Log.Write.{log_write_entry_conflict_last}

Contiguous-last :
    (start : ℕ) (l : List LogEntryNode) (n : LogEntryNode)
    → Contiguous start (l ++ n ∷ [])
    → n.log_entry.index ≡ pos (suc (start + length l))
Contiguous-last start [] n c = c.0 ∙ ap pos (omega arith)
Contiguous-last start (m ∷ l) n c = Contiguous-last (suc start) l n c.1 ∙ ap pos (omega arith)

append_entry-not-Contiguous :
    (os : Os) (log : Log) (e : LogEntry)
    → e.index ≡ pos (log_length log)
    → ¬ Contiguous 0 (append_entry os log e).log_entries
unfolding append_entry list_add_node_tail
append_entry-not-Contiguous os log e h c = omega (
  arith,
  ap pos_part h,
  ap pos_part (
      Contiguous-last 0 log.log_entries (record { log_entry = e; position = log.log_current_size })
        c),
)

-- A follower whose last entry is not the leader's keeps it. Let a log of 2^62 entries at most have
-- the indices 1, 2, 3, …. When an entry arrives for the last index of a log, with another term than
-- the last entry has, logWriteEntry keeps every old entry and puts the new one behind them, so that
-- two entries have that index and the indices are no longer 1, 2, 3, ….
pub log_write_entry-keeps_conflict :
    (os : Os) (log : Log) (e : LogEntry) (i : ℕ) (en : LogEntryNode)
    → Contiguous 0 log.log_entries
    → log_length log ≤ max_length
    → suc i ≡ log_length log
    → get_elem? log.log_entries i ≡ some en
    → e.index ≡ pos (log_length log)
    → en.log_entry.term ≢ e.term
    → (log' : Log) × (log_write_entry os log e ≡ some log')
      × (entries_of log' ≡ entries_of log ++ e ∷ [])
      × (en.log_entry.index ≡ e.index)
      × (¬ Contiguous 0 log'.log_entries)
log_write_entry-keeps_conflict os log e i en c m h at ei other =
    let here : e.index ≡ pos (suc i) = ei ∙ ap pos (sym h) in
    let same = index_at log i en c at ∙ sym here in
    (
      append_entry os log e,
      log_write_entry_conflict_last os log e m i en here at same other h,
      entries-append_entry os log e,
      same,
      append_entry-not-Contiguous os log e ei,
    )
