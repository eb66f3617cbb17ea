-- ===== src/Log.antt =====
-- src/log.c: the replicated log, in memory and in the log file. `none` is a dereference of NULL.
pub mod Index
pub mod Samples
mod Tests
pub mod Write
pub mod Takeover
pub mod Append
pub mod Replicate
pub mod Image
pub mod Durable
pub mod Conflict
pub mod Load
pub mod Verify
use mathlib.Core.Option
use prez.Prelude.{
  ℕ, zero, suc, ◌+◌, ◌-◌, ◌%◌, ◌^◌, Bool, true, false, ◌&&◌, not, List, [], ◌∷◌, ◌++◌, Option, none,
  some, ltb, ◌==◌, if◌then◌else◌, length, get_elem?, take, replicate, ◌≡◌, refl,
}
use prez.Prelude.Int.{ℤ, pos, negsuc, ◌+ℤ◌, ◌-ℤ◌, ltb_ℤ, ◌==ℤ◌, to_ulong, to_long}
use prez.Prelude.Text.{Bytes}
use prez.Util.Decimal.{decimal}
use prez.Adlist.{list_index, list_add_node_tail, delete_from}

-- `long long` is ℤ. The text in a `char` array is its bytes up to the terminator.
pub record LogEntry : Type 0 where
  pub index : ℤ
  pub term : ℤ
  pub command_name : Bytes
  pub command : Bytes

pub record LogEntryNode : Type 0 where
  pub log_entry : LogEntry
  pub position : ℕ

-- The members of clusterState that belong to the log, and the content of the log file.
pub record Log : Type 0 where
  pub log_entries : List LogEntryNode
  pub log_current_size : ℕ
  pub file : Bytes

-- What the operating system decides: how many of the bytes that are given to write(2) reach the
-- file, and whether fsync(2) succeeds.
pub record Os : Type 0 where
  pub written : Bytes → Bytes → ℕ
  pub synced : Bytes → Bool

-- PREZ_OK and PREZ_ERR.
pub data Status : Type 0 where
  ok err : Status

infixl 5 ◌>>=◌
abbrev pub ◌>>=◌ {ℓ κ} : {A : Type ℓ} {B : Type κ} → Option A → (A → Option B) → Option B
none >>= f = none
some a >>= f = f a

pub bind-eq-some {ℓ κ} :
    {A : Type ℓ} {B : Type κ} (m : Option A) (f : A → Option B) {b : B}
    → (m >>= f) ≡ some b
    → (a : A) × (m ≡ some a) × (f a ≡ some b)
bind-eq-some none f h = cc
bind-eq-some (some a) f h = (a, refl, h)

abbrev pub log_length : Log → ℕ
log_length log = length log.log_entries

-- `index-1-logLength` is computed in `unsigned long` and passed on as a `long`.
pub node_offset : ℕ → ℤ → ℤ
node_offset len index = to_long ((to_ulong (index -ℤ pos 1) + 2 ^ 64 - len) % 2 ^ 64)

unfoldable pub get_log_node : Log → ℤ → Option ℕ
unfolding node_offset
get_log_node log index = list_index log.log_entries (node_offset (log_length log) index)

unfoldable pub get_log_entry : Log → ℤ → Option LogEntryNode
get_log_entry log index = do n ← get_log_node log index; get_elem? log.log_entries n

pub last_entry : Log → Option LogEntryNode
last_entry log = do n ← list_index log.log_entries (negsuc 0); get_elem? log.log_entries n

-- `if (ln) return entry->...; return 0;`
abbrev pub index_or_zero : Option LogEntryNode → ℤ
index_or_zero none = pos 0
index_or_zero (some en) = en.log_entry.index

abbrev pub term_or_zero : Option LogEntryNode → ℤ
term_or_zero none = pos 0
term_or_zero (some en) = en.log_entry.term

unfoldable pub log_current_index : Log → ℤ
unfolding last_entry
log_current_index log = index_or_zero (last_entry log)

unfoldable pub log_current_term : Log → ℤ
unfolding last_entry
log_current_term log = term_or_zero (last_entry log)

unfoldable pub log_get_term : Log → ℤ → ℤ
log_get_term log index = term_or_zero (get_log_entry log index)

unfoldable pub log_verify_append : Log → ℤ → ℤ → Option Status
log_verify_append log index term =
    if index ==ℤ pos 0
    then some ok
    else if ltb (log_length log) (to_ulong index)
    then some err
    else Option.map (λ en. if en.log_entry.term ==ℤ term then ok else err) (get_log_entry log index)

-- ftruncate(2): cut, or extend by zero bytes.
pub ftruncate : Bytes → ℕ → Bytes
ftruncate file size = take size file ++ replicate (size - length file) 0

-- The list from getLogNode(index) on is deleted; a NULL there ends the loop at once.
pub cut_entries : Log → Option ℕ → List LogEntryNode
cut_entries log none = log.log_entries
cut_entries log (some n) = delete_from (log_length log) log.log_entries n

pub truncate_at : Log → ℤ → LogEntryNode → Log
truncate_at log index en = record {
  log_entries = cut_entries log (get_log_node log index);
  log_current_size = en.position;
  file = ftruncate log.file en.position;
}

unfoldable pub log_truncate : Log → ℤ → Option Log
unfolding ftruncate cut_entries truncate_at
log_truncate log index =
    if ltb (to_ulong index) (log_length log)
    then Option.map (truncate_at log index) (get_log_entry log index)
    else some log

-- A length or count behind its mark, as ll2string(buf+1, 31, n) and "\r\n" leave it.
unfoldable pub header : ℕ → ℕ → Bytes
header mark n = mark ∷ decimal (pos n) ++ b'\r' ∷ b'\n' ∷ []

unfoldable pub cat_args : List Bytes → Bytes
cat_args [] = []
cat_args (arg ∷ argv) = header b'$' (length arg) ++ (arg ++ b'\r' ∷ b'\n' ∷ cat_args argv)

unfoldable pub cat_log_entry : List Bytes → Bytes
cat_log_entry argv = header b'*' (length argv) ++ cat_args argv

-- The record of an entry in the log file.
unfoldable pub entry_record : LogEntry → Bytes
entry_record e = cat_log_entry (decimal e.index ∷ decimal e.term ∷ e.command_name ∷ e.command ∷ [])

module _ (os : Os) where
  -- The second half of logWriteEntry: persist, then append to the list.
  pub append_entry : Log → LogEntry → Log
  append_entry log e =
      let buf = entry_record e in
      record {
        log_entries =
            list_add_node_tail log.log_entries
              (record { log_entry = e; position = log.log_current_size });
        log_current_size = log.log_current_size + length buf;
        file = log.file ++ take (os.written log.file buf) buf;
      }

  -- With an entry at hand under the new entry's index: skip, truncate, or neither.
  pub resolve : Log → LogEntry → LogEntry → Option Log
  resolve log e old =
      if old.index ==ℤ e.index && old.term ==ℤ e.term
      then some log
      else if not (e.term ==ℤ old.term) && e.index ==ℤ old.index
      then Option.map (λ cut. append_entry cut e) (log_truncate log e.index)
      else some (append_entry log e)

  pub write_over : Log → LogEntry → Option LogEntryNode → Option Log
  write_over log e none = some (append_entry log e)
  write_over log e (some en) = resolve log e en.log_entry

  -- It always returns PREZ_OK.
  unfoldable pub log_write_entry : Log → LogEntry → Option Log
  unfolding write_over
  log_write_entry log e =
      if ltb 0 (log_length log)
      then write_over log e (get_log_entry log e.index)
      else some (append_entry log e)

  unfoldable pub log_sync : Log → Status
  log_sync log = if os.synced log.file then ok else err

  pub write_all : Log → List LogEntry → Option Log
  write_all log [] = some log
  write_all log (e ∷ es) = do log' ← log_write_entry log e; write_all log' es

  unfoldable pub log_append_entries : Log → List LogEntry → Option (Log × Status)
  unfolding write_all
  log_append_entries log entries = do log' ← write_all log entries; some (log', log_sync log')
