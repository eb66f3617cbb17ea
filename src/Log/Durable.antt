-- ===== src/Log/Durable.antt =====
-- src/log.c: every path through logWriteEntry keeps the log file in step with the memory.
use mathlib.Core.Option
use native.Mathlib.Nat.{le_refl}
use prez.Prelude.{
  ℕ, ◌≡◌, refl, ◌&&◌, not, List, [], ◌∷◌, Option, none, some, length, get_elem?, ap, sym, ◌∙◌,
  Bool-cases, Option-cases, inl, inr, ltb, eq_of_some, none≢some,
}
use prez.Prelude.Int.{ℤ, ◌==ℤ◌, to_ulong}
use prez.Prelude.Text.{Bytes}
use prez.Log.{
  Log, LogEntry, LogEntryNode, Os, Status, log_length, log_append_entries, log_sync, write_all,
  bind-eq-some, log_write_entry, append_entry, ◌>>=◌, truncate_at, log_truncate, resolve,
  write_over, cut_entries, get_log_node, get_log_entry,
}
use prez.Adlist.Index.{delete_from-take}
use prez.Log.Write.{cut_at}
use prez.Log.Image.{FileMatches, cut_at-FileMatches, append_entry-FileMatches}

-- What truncation leads to: the same log, or the log cut before one of its entries.
data Truncated (log log' : Log) : Type 0 where
  kept : log' ≡ log → Truncated log log'
  cut :
      (n : ℕ) (en : LogEntryNode)
      → get_elem? log.log_entries n ≡ some en
      → log' ≡ cut_at log n en
      → Truncated log log'

truncate_at-Truncated :
    (log log' : Log) (index : ℤ) (o : Option ℕ)
    → get_log_node log index ≡ o
    → Option.map (truncate_at log index) (o >>= get_elem? log.log_entries) ≡ some log'
    → Truncated log log'
unfolding truncate_at cut_entries
truncate_at-Truncated log log' index none node h = cc
truncate_at-Truncated log log' index (some n) node h =
    elim (Option-cases (get_elem? log.log_entries n)) [
      | inl e ↦ absurd (none≢some (rw e at h))
      | inr (en, e) ↦ cut n en e (
          sym (eq_of_some (rw e at h))
          ∙ rw (node, cut_entries, delete_from-take (log_length log) log.log_entries n (le_refl _)))
    ]

log_truncate-Truncated :
    (log log' : Log) (index : ℤ) → log_truncate log index ≡ some log' → Truncated log log'
unfolding log_truncate get_log_entry
log_truncate-Truncated log log' index h =
    elim (Bool-cases (ltb (to_ulong index) (log_length log))) [
      | inl t ↦ truncate_at-Truncated log log' index (get_log_node log index) refl (rw t at h)
      | inr f ↦ kept (sym (eq_of_some (rw f at h)))
    ]

Truncated-FileMatches : {log log' : Log} → FileMatches log → Truncated log log' → FileMatches log'
Truncated-FileMatches f (kept e) = rw e f
Truncated-FileMatches {log} f (cut n en at e) = rw e (cut_at-FileMatches log n en f at)

module _ (os : Os) (complete : (file buf : Bytes) → os.written file buf ≡ length buf) where
  after_truncate :
      (log log' : Log) (e : LogEntry) (o : Option Log)
      → FileMatches log
      → log_truncate log e.index ≡ o
      → Option.map (λ cut. append_entry os cut e) o ≡ some log'
      → FileMatches log'
  after_truncate log log' e none f t h = cc
  after_truncate log log' e (some cut_log) f t h = rw (sym (eq_of_some h)) (
      append_entry-FileMatches os complete cut_log e
        (Truncated-FileMatches f (log_truncate-Truncated log cut_log e.index t)))

  resolve-FileMatches :
      (log log' : Log) (e old : LogEntry)
      → FileMatches log
      → resolve os log e old ≡ some log'
      → FileMatches log'
  unfolding resolve
  resolve-FileMatches log log' e old f h =
      elim (Bool-cases (old.index ==ℤ e.index && old.term ==ℤ e.term)) [
        | inl same ↦ rw (sym (eq_of_some (rw same at h))) f
        | inr differs ↦
            let h' = rw differs at h in
            elim (Bool-cases (not (e.term ==ℤ old.term) && e.index ==ℤ old.index)) [
              | inl conflict ↦
                  after_truncate log log' e (log_truncate log e.index) f refl (rw conflict at h')
              | inr other ↦
                  rw (sym (eq_of_some (rw other at h')))
                    (append_entry-FileMatches os complete log e f)
            ]
      ]

  write_over-FileMatches :
      (log log' : Log) (e : LogEntry) (o : Option LogEntryNode)
      → FileMatches log
      → write_over os log e o ≡ some log'
      → FileMatches log'
  unfolding write_over
  write_over-FileMatches log log' e none f h =
      rw (sym (eq_of_some h)) (append_entry-FileMatches os complete log e f)
  write_over-FileMatches log log' e (some en) f h = resolve-FileMatches log log' e en.log_entry f h

  log_write_entry-FileMatches :
      (log log' : Log) (e : LogEntry)
      → FileMatches log
      → log_write_entry os log e ≡ some log'
      → FileMatches log'
  unfolding log_write_entry
  log_write_entry-FileMatches log log' e f h = elim (Bool-cases (ltb 0 (log_length log))) [
    | inl t ↦ write_over-FileMatches log log' e (get_log_entry log e.index) f (rw t at h)
    | inr n ↦ rw (sym (eq_of_some (rw n at h))) (append_entry-FileMatches os complete log e f)
  ]

  write_all-FileMatches :
      (log log' : Log) (es : List LogEntry)
      → FileMatches log
      → write_all os log es ≡ some log'
      → FileMatches log'
  unfolding write_all
  write_all-FileMatches log log' [] f h = rw (sym (eq_of_some h)) f
  write_all-FileMatches log log' (e ∷ es) f h =
      let (log1, first, others) =
        bind-eq-some (log_write_entry os log e) (λ l. write_all os l es) h in
      write_all-FileMatches log1 log' es (log_write_entry-FileMatches log log1 e f first) others

  -- The file follows the memory. Where write(2) takes every record whole, logAppendEntries keeps, for
  -- every log and every message (entries that repeat, conflict or leave gaps included), that the
  -- file is the records of the entries in memory, that each `position` is the offset of its record,
  -- and that log_current_size is the size of the file.
  pub log_append_entries-FileMatches :
      (log log' : Log) (es : List LogEntry) (s : Status)
      → FileMatches log
      → log_append_entries os log es ≡ some (log', s)
      → FileMatches log'
  unfolding log_append_entries
  log_append_entries-FileMatches log log' es s f h =
      let (log1, done, same) =
        bind-eq-some (write_all os log es) (λ l. some (l, log_sync os l)) h in
      write_all-FileMatches log log' es f
        (done ∙ ap some (ap (λ (p : Log × Status). p.0) (eq_of_some same)))
