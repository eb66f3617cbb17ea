-- ===== src/Log/Samples.antt =====
-- src/log.c: small logs for the tests.
use prez.Prelude.{ℕ, refl, length, List, [], ◌∷◌, ◌+◌, true}
use prez.Prelude.Int.{pos}
use prez.Prelude.Text.{Bytes, codes}
use prez.Log.{LogEntry, LogEntryNode, Log, Os, entry_record}
use prez.Prelude.{arith, Bool, ltb, ◌&&◌, ◌≡◌, All, ◌<◌}
use prez.Log.Load.Record.{IsText, Storable}
use prez.Log.Index.{Contiguous}
use prez.Log.Image.{image, FileMatches}

abbrev pub machine : Os
machine = record { written = λ file buf. length buf; synced = λ file. true }

abbrev pub entry : ℕ → ℕ → Bytes → LogEntry
entry index term text = record {
  index = pos index;
  term = pos term;
  command_name = codes "set";
  command = text;
}

abbrev pub first : LogEntry
first = entry 1 1 (codes "set a 1\n")

abbrev pub second : LogEntry
second = entry 2 1 (codes "set b 2\n")

abbrev pub third : LogEntry
third = entry 3 1 (codes "set c 3\n")

-- Another second entry, of a newer term.
abbrev pub newer_second : LogEntry
newer_second = entry 2 2 (codes "set d 4\n")

abbrev pub two_nodes : List LogEntryNode
two_nodes =
    record { log_entry = first; position = 0 }
    ∷ record { log_entry = second; position = 0 + length (entry_record first) }
    ∷ []

abbrev pub three_nodes : List LogEntryNode
three_nodes =
    record { log_entry = first; position = 0 }
    ∷ record { log_entry = second; position = 0 + length (entry_record first) }
    ∷ record {
      log_entry = third;
      position = 0 + length (entry_record first) + length (entry_record second);
    }
    ∷ []

abbrev pub log_of : List LogEntryNode → Log
log_of l = record { log_entries = l; log_current_size = length (image l); file = image l }

abbrev pub two_log : Log
two_log = log_of two_nodes

abbrev pub three_log : Log
three_log = log_of three_nodes

pub two_log-Contiguous : Contiguous 0 two_log.log_entries
two_log-Contiguous = (refl, (refl, tt))

pub three_log-Contiguous : Contiguous 0 three_log.log_entries
three_log-Contiguous = (refl, (refl, (refl, tt)))

pub two_log-FileMatches : FileMatches two_log
two_log-FileMatches = record { content = refl; size = refl; placed = (refl, (refl, tt)) }

abbrev no_zero : Bytes → Bool
no_zero [] = true
no_zero (c ∷ s) = ltb 0 c && no_zero s

no_zero-All : (s : Bytes) → no_zero s ≡ true → All (λ c. 0 < c) s
no_zero-All [] h = tt
no_zero-All (c ∷ s) h = (ground arith, no_zero-All s (ground arith))

is_text : (s : Bytes) → no_zero s ≡ true → ltb (length s) 40 ≡ true → IsText s
is_text s h short = (no_zero-All s h, ground arith)

pub two_log-Storable : All (λ n. Storable n.log_entry) two_log.log_entries
two_log-Storable = (
  record {
    index_fits = omega arith;
    term_fits = omega arith;
    name_fits = is_text first.command_name refl refl;
    command_fits = is_text first.command refl refl;
  },
  (
    record {
      index_fits = omega arith;
      term_fits = omega arith;
      name_fits = is_text second.command_name refl refl;
      command_fits = is_text second.command refl refl;
    },
    tt,
  ),
)
