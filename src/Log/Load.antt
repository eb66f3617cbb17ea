-- ===== src/Log/Load.antt =====
-- src/log.c: loadLogFile, over the bytes of the file. fgets, strtol and atoi are written out.
mod Lines
pub mod Record
pub mod Restore
pub mod Ends
use prez.Prelude.{
  ℕ, zero, suc, ◌+◌, ◌-◌, ◌*◌, ◌%◌, ◌^◌, Bool, true, false, ◌&&◌, ◌||◌, List, [], ◌∷◌, ◌++◌, Option,
  none, some, ltb, leb, ◌==◌, if◌then◌else◌, length, take, drop,
}
use prez.Prelude.Int.{ℤ, pos, negsuc, ltb_ℤ, to_ulong}
use prez.Prelude.Text.{Bytes}
use prez.Util.Decimal.{string2ll, llong_max}
use prez.Adlist.{list_add_node_tail}
use prez.Log.{LogEntry, LogEntryNode, Log, Status, ok, err}

-- The two error exits end the process. `undefined` is where C leaves open what happens, and
-- `unfinished` marks that the rounds of the model ran out.
pub data Loaded {ℓ} (A : Type ℓ) : Type ℓ where
  done : A → Loaded A
  format_error read_error undefined unfinished : Loaded A

infixl 5 ◌>>=◌
abbrev pub ◌>>=◌ {ℓ κ} : {A : Type ℓ} {B : Type κ} → Loaded A → (A → Loaded B) → Loaded B
done a >>= f = f a
format_error >>= f = format_error
read_error >>= f = read_error
undefined >>= f = undefined
unfinished >>= f = unfinished

-- The bytes before the terminator.
unfoldable pub c_string : Bytes → Bytes
c_string [] = []
c_string (c ∷ s) = if c == 0 then [] else c ∷ c_string s

-- fgets into a buffer of n + 1 bytes: up to n bytes, and not past a newline.
unfoldable pub fgets : ℕ → Bytes → Bytes × Bytes
fgets zero s = ([], s)
fgets (suc n) [] = ([], [])
fgets (suc n) (c ∷ s) =
    let more = fgets n s in if c == b'\n' then (c ∷ [], s) else (c ∷ more.0, more.1)

pub is_space : ℕ → Bool
is_space c = c == b' ' || (leb 9 c && leb c 13)

-- The value of the digits at the front, behind a value that is read already.
unfoldable pub strtol_digits : Bytes → ℕ → ℕ
strtol_digits [] v = v
strtol_digits (c ∷ s) v =
    if leb b'0' c && leb c b'9' then strtol_digits s (v * 10 + (c - b'0')) else v

-- Results out of range are LONG_MAX and LONG_MIN.
pub clamp_pos : ℕ → ℤ
clamp_pos v = if ltb llong_max v then pos llong_max else pos v

clamp_neg : ℕ → ℤ
clamp_neg zero = pos 0
clamp_neg (suc v) = if ltb llong_max v then negsuc llong_max else negsuc v

unfoldable pub strtol : Bytes → ℤ
unfolding is_space clamp_pos clamp_neg
strtol [] = pos 0
strtol (c ∷ s) =
    let rest = strtol s in
    if is_space c
    then rest
    else if c == b'-'
    then clamp_neg (strtol_digits s 0)
    else if c == b'+'
    then clamp_pos (strtol_digits s 0)
    else clamp_pos (strtol_digits (c ∷ s) 0)

-- atoi is (int)strtol: 32 bits are kept.
unfoldable pub atoi : Bytes → ℤ
atoi s =
    let w = to_ulong (strtol s) % 2 ^ 32 in
    if ltb w (2 ^ 31) then pos w else negsuc (2 ^ 32 - 1 - w)

-- memcpy of a 40-byte array from an sds, which has a terminator behind its bytes. Of a shorter sds
-- the copy also takes bytes past its end, which stand behind the terminator.
unfoldable pub c_array : Bytes → Bytes
c_array arg = c_string (take 40 (arg ++ 0 ∷ []))

set_number : (ℤ → LogEntry) → Option ℤ → Loaded LogEntry
set_number set none = read_error
set_number set (some v) = done (set v)

-- The switch over LOG_TYPE_INDEX, LOG_TYPE_TERM, LOG_TYPE_COMMANDNAME and LOG_TYPE_COMMAND.
unfoldable pub set_field : ℕ → LogEntry → Bytes → Loaded LogEntry
unfolding set_number
set_field zero entry arg = set_number (λ v. record entry { index = v }) (string2ll arg)
set_field (suc zero) entry arg = set_number (λ v. record entry { term = v }) (string2ll arg)
set_field (suc (suc zero)) entry arg = done (record entry { command_name = c_array arg })
set_field (suc (suc (suc zero))) entry arg = done (record entry { command = c_array arg })
set_field (suc (suc (suc (suc j)))) entry arg = format_error

-- A line whose first byte is the mark, the bytes behind the mark, and what follows the line.
pub record Line : Type 0 where
  pub number : Bytes
  pub size : ℕ
  pub rest : Bytes

pub marked : ℕ → Bytes → Bytes → Loaded Line
marked mark [] rest = format_error
marked mark (c ∷ line) rest =
    if c == mark
    then done (record { number = c_string line; size = length (c_string (c ∷ line)); rest = rest })
    else format_error

-- `fgets(buf,sizeof(buf),fp)` with 128 bytes, and the test of buf[0].
unfoldable pub read_line : ℕ → Bytes → Loaded Line
unfolding marked
read_line mark [] = read_error
read_line mark (c ∷ s) = let (line, rest) = fgets 127 (c ∷ s) in marked mark line rest

pub record Progress : Type 0 where
  pub entry : LogEntry
  pub loglen : ℕ
  pub rest : Bytes

-- `sdsnewlen(NULL,len)`: for the lengths −17 … −1 the size with the header, the terminator and the
-- 8 bytes that zcalloc may add wraps around, and fread writes past what was allocated. An
-- allocation that fails ends the process; that is not told from the fread that would fail.
unfoldable pub allocate : ℕ → Loaded (Unit {0})
allocate len = if leb (2 ^ 64 - 17) len then undefined else done tt

-- fread of `len` bytes fails if fewer are left.
unfoldable pub need : ℕ → Bytes → Loaded (Unit {0})
need len s = if ltb (length s) len then format_error else done tt

unfoldable pub load_arg : ℕ → Progress → Loaded Progress
unfolding allocate
load_arg j p = do
  line ← read_line b'$' p.rest
  let len = to_ulong (strtol line.number)
  _ ← allocate len
  _ ← need len line.rest
  entry ← set_field j p.entry (take len line.rest)
  let rest = drop len line.rest
  _ ← need 2 rest
  done (record { entry = entry; loglen = p.loglen + (len + line.size) + 2; rest = drop 2 rest })

-- `for (j = 0; j < argc; j++)`, by the rounds that are left.
pub load_args : ℕ → ℕ → Progress → Loaded Progress
load_args zero j p = done p
load_args (suc more) j p = do p' ← load_arg j p; load_args more (j + 1) p'

-- `fresh` is what zmalloc returns for the entry.
unfoldable pub load_entry : LogEntry → Bytes → Loaded Progress
unfolding load_args
load_entry fresh s = do
  line ← read_line b'*' s
  let argc = atoi line.number
  if ltb_ℤ argc (pos 1)
      then format_error
      else load_args (to_ulong argc) 0
          (record { entry = fresh; loglen = line.size; rest = line.rest })

-- The outer loop ends at the end of the file.
pub load_entries : ℕ → LogEntry → Bytes → List LogEntryNode → ℕ → Loaded (List LogEntryNode × ℕ)
load_entries rounds fresh [] entries size = done (entries, size)
load_entries zero fresh (c ∷ s) entries size = unfinished
load_entries (suc rounds) fresh (c ∷ s) entries size = do
  p ← load_entry fresh (c ∷ s)
  load_entries rounds fresh p.rest
      (list_add_node_tail entries (record { log_entry = p.entry; position = size }))
      (size + p.loglen)

-- Each entry takes a byte at least, so the file's size bounds the rounds. The first two arguments say
-- whether the file can be opened for appending and for reading; without the latter the process
-- ends, as for a read error.
unfoldable pub load_log_file : Bool → Bool → LogEntry → Bytes → Loaded (Log × Status)
unfolding load_entries
load_log_file false readable fresh file =
    done (record { log_entries = []; log_current_size = 0; file = file }, err)
load_log_file true false fresh file = read_error
load_log_file true true fresh file = do
  loaded ← load_entries (length file) fresh file [] 0
  done (record { log_entries = loaded.0; log_current_size = loaded.1; file = file }, ok)
