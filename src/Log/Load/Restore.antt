-- ===== src/Log/Load/Restore.antt =====
-- src/log.c: loadLogFile restores the log from the file that logWriteEntry left.
use native.Mathlib.Nat.{le_refl}
use prez.Prelude.{
  ℕ, zero, suc, ◌+◌, ◌≤◌, ◌<◌, ◌≡◌, ◌≢◌, refl, sym, ap, ◌∙◌, true, List, [], ◌∷◌, ◌++◌, length, All,
  arith, append_assoc, length-append, append-nil,
}
use prez.Prelude.Text.{Bytes}
use prez.Log.{LogEntry, LogEntryNode, Log, ok, header, cat_log_entry, entry_record}
use prez.Log.Image.{image, Placed, FileMatches}
use prez.Adlist.{list_add_node_tail}
use prez.Log.Load.{done, load_entry, load_entries, load_log_file, Progress}
use prez.Log.Load.Record.{Storable, load_entry_lem}

load_entries_round :
    (rounds : ℕ) (fresh : LogEntry) (t : Bytes) (p : Progress) (entries : List LogEntryNode)
    (size : ℕ)
    → t ≢ []
    → load_entry fresh t ≡ done p
    → load_entries (suc rounds) fresh t entries size
      ≡ load_entries rounds fresh p.rest
          (entries ++ record { log_entry = p.entry; position = size } ∷ [])
          (size + p.loglen)
unfolding load_entries list_add_node_tail
load_entries_round rounds fresh [] p entries size h e = absurd (h refl)
load_entries_round rounds fresh (c ∷ s) p entries size h e = rw e

entry_record-nonempty : (e : LogEntry) (s : Bytes) → entry_record e ++ s ≢ []
unfolding entry_record cat_log_entry header
entry_record-nonempty e s q = cc

length-entry_record-pos : (e : LogEntry) → 0 < length (entry_record e)
unfolding entry_record cat_log_entry header
length-entry_record-pos e = omega arith

load_entries_end :
    (rounds : ℕ) (fresh : LogEntry) (entries : List LogEntryNode) (size : ℕ)
    → load_entries rounds fresh [] entries size ≡ done (entries, size)
unfolding load_entries
load_entries_end zero fresh entries size = refl
load_entries_end (suc rounds) fresh entries size = refl

-- The list, from any point of the loop on.
load_entries_lem :
    (rounds : ℕ) (fresh : LogEntry) (l before : List LogEntryNode) (size : ℕ)
    → length (image l) ≤ rounds
    → Placed size l
    → All (λ n. Storable n.log_entry) l
    → load_entries rounds fresh (image l) before size ≡ done (before ++ l, size + length (image l))
unfolding image
load_entries_lem rounds fresh [] before size h p st =
    let none_left : size ≡ size + 0 = omega arith in
    load_entries_end rounds fresh before size ∙ rw (append-nil before, ← none_left)
load_entries_lem zero fresh (n ∷ l) before size h p st = absurd (
    omega (
      arith,
      length-append (entry_record n.log_entry) (image l),
      length-entry_record-pos n.log_entry,
    ))
load_entries_lem (suc rounds) fresh (n ∷ l) before size h p st =
    let e = n.log_entry in
    let len = length-append (entry_record e) (image l) in
    let total : size + length (entry_record e) + length (image l)
        ≡ size + length (entry_record e ++ image l) =
      omega (arith, len) in
    let placed : record { log_entry = e; position = size } ≡ n =
      ap (λ k. record n { position = k }) (sym p.0) in
    load_entries_round rounds fresh (entry_record e ++ image l) _ before size
      (entry_record-nonempty e (image l)) (load_entry_lem fresh e (image l) st.0)
    ∙ load_entries_lem rounds fresh l _ (size + length (entry_record e))
        (omega (arith, len, length-entry_record-pos e)) p.1 st.1
    ∙ rw (placed, total, append_assoc before (n ∷ []) l)

-- A restart restores the log. If the file can be opened and holds the records of a log whose numbers
-- fit a `long long` and whose texts fit their arrays, loadLogFile ends with PREZ_OK and gives that
-- log back, with the positions, the size and the file that it had.
pub load_log_file-restores :
    (fresh : LogEntry) (log : Log)
    → FileMatches log
    → All (λ n. Storable n.log_entry) log.log_entries
    → load_log_file true true fresh log.file ≡ done (log, ok)
unfolding load_log_file
load_log_file-restores fresh log f st =
    let l = log.log_entries in
    let size : 0 + length (image l) ≡ log.log_current_size = omega (arith, f.size) in
    let got : load_entries (length log.file) fresh log.file [] 0 ≡ done (l, log.log_current_size) =
      rw f.content
        (load_entries_lem (length (image l)) fresh l [] 0 (le_refl _) f.placed st ∙ rw size) in
    rw got
