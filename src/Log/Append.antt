-- ===== src/Log/Append.antt =====
-- src/log.c: what the writing of entries makes of the entries of a log: at its end, at a conflict,
-- and where the terms agree.
use mathlib.Core.List.{map-append}
use native.Mathlib.Nat.{le_refl}
use prez.Prelude.{
  ℕ, zero, suc, ◌+◌, ◌≤◌, ◌<◌, ◌≡◌, ◌≢◌, refl, List, [], ◌∷◌, ◌++◌, Option, some, length, get_elem?,
  take, length-take, length-append, arith, ap, sym, ◌∙◌, append_assoc, append-nil, map-take,
}
use prez.Prelude.Int.{pos}
use prez.Log.{Log, LogEntry, LogEntryNode, Os, log_length, write_all, log_write_entry, append_entry}
use prez.Adlist.{list_add_node_tail}
use prez.Log.Index.{max_length, Contiguous, index_at}
use prez.Log.Takeover.{entries_of, Numbered}
use prez.Log.Write.{cut_at, log_write_entry_next, log_write_entry_same, log_write_entry_conflict}

Contiguous-append :
    (start : ℕ) (l : List LogEntryNode) (n : LogEntryNode)
    → Contiguous start l
    → n.log_entry.index ≡ pos (suc (start + length l))
    → Contiguous start (l ++ n ∷ [])
Contiguous-append start [] n c h = (h ∙ ap pos (omega arith), tt)
Contiguous-append start (m ∷ l) n c h =
    (c.0, Contiguous-append (suc start) l n c.1 (h ∙ ap pos (omega arith)))

pub Contiguous-take :
    (start n : ℕ) (l : List LogEntryNode) → Contiguous start l → Contiguous start (take n l)
Contiguous-take start zero l c = tt
Contiguous-take start (suc n) [] c = tt
Contiguous-take start (suc n) (m ∷ l) c = (c.0, Contiguous-take (suc start) n l c.1)

-- The outcome of writing entries: a well-formed log of the given entries.
abbrev pub Wrote : Option Log → List LogEntry → Type 0
Wrote r es = (log' : Log) × (r ≡ some log') × Contiguous 0 log'.log_entries × (entries_of log' ≡ es)

module _ (os : Os) where
  pub entries-append_entry :
      (log : Log) (e : LogEntry) → entries_of (append_entry os log e) ≡ entries_of log ++ e ∷ []
  unfolding append_entry list_add_node_tail
  entries-append_entry log e = map-append _ log.log_entries _

  pub length-append_entry :
      (log : Log) (e : LogEntry) → log_length (append_entry os log e) ≡ log_length log + 1
  unfolding append_entry list_add_node_tail
  length-append_entry log e = length-append log.log_entries _

  pub append_entry-Contiguous :
      (log : Log) (e : LogEntry)
      → Contiguous 0 log.log_entries
      → e.index ≡ pos (suc (log_length log))
      → Contiguous 0 (append_entry os log e).log_entries
  unfolding append_entry list_add_node_tail
  append_entry-Contiguous log e c h =
      Contiguous-append 0 log.log_entries _ c (h ∙ ap pos (omega arith))

  pub write_all_step :
      (log log' : Log) (e : LogEntry) (es : List LogEntry)
      → log_write_entry os log e ≡ some log'
      → write_all os log (e ∷ es) ≡ write_all os log' es
  unfolding write_all
  write_all_step log log' e es h = rw h

  -- From the end of the log on, every entry is appended.
  pub write_all_end :
      (log : Log) (start : ℕ) (es : List LogEntry)
      → start ≡ log_length log
      → Contiguous 0 log.log_entries
      → start + length es ≤ max_length
      → Numbered start es
      → Wrote (write_all os log es) (entries_of log ++ es)
  unfolding write_all
  write_all_end log start [] s c m n = (log, refl, c, sym (append-nil _))
  write_all_end log start (e ∷ es) s c m n =
      let log1 = append_entry os log e in
      let at_end : e.index ≡ pos (suc (log_length log)) = n.0 ∙ ap pos (omega arith) in
      let wrote =
        log_write_entry_next os log e (omega arith) (log_length log) c (le_refl _) (omega arith)
          at_end in
      let (log', done, c', content) =
        write_all_end log1 (suc start) es (omega (arith, length-append_entry log e))
          (append_entry-Contiguous log e c at_end) (omega arith) n.1 in
      (
        log',
        write_all_step log log1 e es wrote ∙ done,
        c',
        content ∙ rw (entries-append_entry log e) (append_assoc (entries_of log) (e ∷ []) es),
      )

  length-cut_at :
      (log : Log) (i : ℕ) (en : LogEntryNode)
      → i < log_length log
      → log_length (cut_at log i en) ≡ i
  length-cut_at log i en h = omega (arith, length-take i log.log_entries)

  -- An entry of another term, not at the last place: the rest of the log is replaced.
  pub write_all_conflict :
      (log : Log) (start : ℕ) (en : LogEntryNode) (e : LogEntry) (es : List LogEntry)
      → Contiguous 0 log.log_entries
      → log_length log ≤ max_length
      → start + length (e ∷ es) ≤ max_length
      → suc start < log_length log
      → Numbered start (e ∷ es)
      → get_elem? log.log_entries start ≡ some en
      → en.log_entry.term ≢ e.term
      → Wrote (write_all os log (e ∷ es)) (take start (entries_of log) ++ (e ∷ es))
  write_all_conflict log start en e es c m m' h n at other =
      let cut = cut_at log start en in
      let log1 = append_entry os cut e in
      let size = length-cut_at log start en (omega arith) in
      let at_end : e.index ≡ pos (suc (log_length cut)) = n.0 ∙ ap pos (omega arith) in
      let wrote =
        log_write_entry_conflict os log e m start en n.0 at (index_at log start en c at ∙ sym n.0)
          other h in
      let (log', done, c', content) =
        write_all_end log1 (suc start) es (omega (arith, length-append_entry cut e, size))
          (append_entry-Contiguous cut e (Contiguous-take 0 start log.log_entries c) at_end)
          (omega arith) n.1 in
      (
        log',
        write_all_step log log1 e es wrote ∙ done,
        c',
        content
            ∙ rw
                (
                  entries-append_entry cut e,
                  map-take (λ (n : LogEntryNode). n.log_entry) start log.log_entries,
                )
                (append_assoc (take start (entries_of log)) (e ∷ []) es),
      )

  -- One entry of the same term: kept, whatever the message carries beside index and term.
  pub write_all_same :
      (log : Log) (start : ℕ) (en : LogEntryNode) (e : LogEntry) (es : List LogEntry)
      → Contiguous 0 log.log_entries
      → log_length log ≤ max_length
      → Numbered start (e ∷ es)
      → get_elem? log.log_entries start ≡ some en
      → en.log_entry.term ≡ e.term
      → write_all os log (e ∷ es) ≡ write_all os log es
  write_all_same log start en e es c m n at same =
      write_all_step log log e es (
        log_write_entry_same os log e m start en n.0 at (index_at log start en c at ∙ sym n.0) same)
