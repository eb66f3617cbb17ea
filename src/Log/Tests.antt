-- ===== src/Log/Tests.antt =====
-- src/log.c: the theorems at concrete logs.
use prez.Prelude.{◌⊎◌, ◌≡◌, ◌≢◌, ◌↔◌, refl, arith, [], ◌∷◌, ◌++◌, true, some}
use prez.Prelude.Int.{pos, ◌-ℤ◌}
use prez.Prelude.Text.{codes}
use prez.Log.{
  Log, Status, ok, log_verify_append, log_append_entries, log_write_entry, log_sync, append_entry,
  get_log_entry, get_log_node, resolve,
}
use prez.Adlist.{list_index}
use prez.Log.Index.{Contiguous}
use prez.Log.Image.{FileMatches}
use prez.Log.Takeover.{entries_of, taken_over}
use prez.Log.Verify.{Holds, log_verify_append-Holds}
use prez.Log.Replicate.{Kept, log_append_entries-Wrote}
use prez.Log.Durable.{log_append_entries-FileMatches}
use prez.Log.Conflict.{log_write_entry-keeps_conflict}
use prez.Log.Load.{
  load_log_file, done, undefined, read_line, fgets, c_string, atoi, strtol, strtol_digits, allocate,
  need, load_arg, load_entry,
}
use prez.Log.Load.Restore.{load_log_file-restores}
use prez.Log.Load.Ends.{Ended, load_log_file-ends}
use prez.Log.Samples.{
  machine, second, third, newer_second, two_log, three_log, two_log-Contiguous,
  three_log-Contiguous, two_log-FileMatches, two_log-Storable,
}

log_verify_append-Holds_example :
    (s : Status) × (log_verify_append two_log (pos 2) (pos 1) ≡ some s)
    × ((s ≡ ok) ↔ Holds two_log (pos 2) (pos 1))
log_verify_append-Holds_example =
    log_verify_append-Holds two_log (pos 2) (pos 1) (omega arith) (omega arith)

log_append_entries-Wrote_example :
    ((log' : Log) × (log_append_entries machine three_log (newer_second ∷ [])
        ≡ some (log', log_sync machine log'))
      × Contiguous 0 log'.log_entries
      × (entries_of log' ≡ taken_over 1 (entries_of three_log) (newer_second ∷ [])))
    ⊎ Kept machine three_log 1 (newer_second ∷ [])
log_append_entries-Wrote_example =
    log_append_entries-Wrote machine three_log three_log-Contiguous (omega arith) 1
      (newer_second ∷ []) (omega arith) (omega arith) (refl, tt)

third_written :
    log_append_entries machine two_log (third ∷ []) ≡ some (append_entry machine two_log third, ok)
unfolding log_append_entries log_write_entry get_log_entry get_log_node list_index ◌-ℤ◌ resolve
    log_sync
third_written = refl

log_append_entries-FileMatches_example : FileMatches (append_entry machine two_log third)
log_append_entries-FileMatches_example =
    log_append_entries-FileMatches machine (λ file buf. refl) two_log
      (append_entry machine two_log third) (third ∷ []) ok two_log-FileMatches third_written

terms_differ : second.term ≢ newer_second.term
terms_differ e = cc

log_write_entry-keeps_conflict_example :
    (log' : Log) × (log_write_entry machine two_log newer_second ≡ some log')
    × (entries_of log' ≡ entries_of two_log ++ newer_second ∷ [])
    × (second.index ≡ newer_second.index)
    × (¬ Contiguous 0 log'.log_entries)
log_write_entry-keeps_conflict_example =
    log_write_entry-keeps_conflict machine two_log newer_second 1
      (record { log_entry = second; position = _ }) two_log-Contiguous (omega arith) refl refl refl
      terms_differ

load_log_file-restores_example : load_log_file true true third two_log.file ≡ done (two_log, ok)
load_log_file-restores_example =
    load_log_file-restores third two_log two_log-FileMatches two_log-Storable

load_log_file-ends_example :
    Ended (codes "*1\r\n$x") (λ _. Unit {0}) (load_log_file true true third (codes "*1\r\n$x"))
load_log_file-ends_example = load_log_file-ends true true third (codes "*1\r\n$x")

-- A negative length is the overrun.
negative_length : load_log_file true true third (codes "*1\r\n$-1\r\n") ≡ undefined
unfolding load_log_file read_line fgets c_string atoi strtol strtol_digits allocate need load_arg
    load_entry
negative_length = refl
