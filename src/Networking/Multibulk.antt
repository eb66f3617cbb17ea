-- ===== src/Networking/Multibulk.antt =====
-- src/networking.c: processMultibulkBuffer: a request as a count and that many strings with their
-- lengths.
pub mod Reference
pub mod Agree
pub mod Refine
pub mod RoundTrip
pub mod Lines
pub mod Resume
pub mod Chunks
pub mod Shrink
use prez.Prelude.{
  ℕ, zero, suc, ◌+◌, ◌-◌, ◌*◌, Bool, true, false, ◌&&◌, ◌||◌, List, [], ◌∷◌, ◌++◌, Option, none,
  some, ltb, leb, ◌==◌, not, if◌then◌else◌, length, take, drop, get_or,
}
use prez.Prelude.Int.{ℤ, pos, negsuc}
use prez.Prelude.Text.{Bytes}
use prez.Util.Decimal.{string2ll}
use prez.Networking.{
  inline_max_size, mbulk_big_arg, ProtocolError, too_big_mbulk_count, invalid_multibulk_length,
  too_big_bulk_count, invalid_bulk_length, expected_dollar, Client, Outcome, ok, err, aborted,
  trimmed, set_protocol_error, strchr,
}

-- Trim to pos, and PREZ_OK when nothing is left to read.
unfoldable pub finish : ℕ → Client → Outcome
unfolding trimmed
finish at c =
    let c' : Client = record c {
      querybuf = if at == 0 then c.querybuf else trimmed at c.querybuf;
    } in
    if c.multibulklen == 0 then ok c' else err c'

-- What is known of the next string: its length has not come yet; an error, with the place that
-- setProtocolError trims to; or its length, the place of its first byte, and the client.
pub data BulkLength : Type 0 where
  unread : BulkLength
  refused : ProtocolError → ℕ → BulkLength
  known : ℕ → ℕ → Client → BulkLength

-- `ll < 0 || ll > 512*1024*1024`; a long string is made to start at the buffer's start.
unfoldable pub bulk_length_value : ℕ → ℕ → Client → Option ℤ → BulkLength
unfolding trimmed
bulk_length_value at next c none = refused invalid_bulk_length at
bulk_length_value at next c (some (negsuc n)) = refused invalid_bulk_length at
bulk_length_value at next c (some (pos ll)) =
    if ltb (512 * 1024 * 1024) ll
    then refused invalid_bulk_length at
    else if leb mbulk_big_arg ll
    then known ll 0 (record c { querybuf = trimmed next c.querybuf; bulklen = some ll })
    else known ll next (record c { bulklen = some ll })

unfoldable pub bulk_length_line : ℕ → Client → Option ℕ → BulkLength
unfolding bulk_length_value
bulk_length_line at c none =
    if ltb inline_max_size (length c.querybuf) then refused too_big_bulk_count 0 else unread
bulk_length_line at c (some i) =
    if ltb (length c.querybuf) (at + i + 2)
    then unread
    else if not (get_or c.querybuf at 0 == b'$')
    then refused (expected_dollar (get_or c.querybuf at 0)) at
    else bulk_length_value at (at + i + 2) c (string2ll (take (i - 1) (drop (at + 1) c.querybuf)))

unfoldable pub bulk_length : ℕ → Client → Option ℕ → BulkLength
unfolding bulk_length_line strchr
bulk_length at c (some n) = known n at c
bulk_length at c none = bulk_length_line at c (strchr b'\r' (drop at c.querybuf))

-- One string, with where the next begins. A long one that is all of the buffer becomes the object.
unfoldable pub read_argument : ℕ → ℕ → Client → ℕ × Client
read_argument n at c =
    let c' : Client = record c { bulklen = none; multibulklen = c.multibulklen - 1 } in
    if at == 0 && (leb mbulk_big_arg n && length c.querybuf == n + 2)
    then (
      0,
      record c' { argv = c.argv ++ take (length c.querybuf - 2) c.querybuf ∷ []; querybuf = [] },
    )
    else (at + (n + 2), record c' { argv = c.argv ++ take n (drop at c.querybuf) ∷ [] })

-- The loop; the first argument is multibulklen, which falls at each round that goes on.
unfoldable pub multibulk_rounds : ℕ → ℕ → Client → Outcome
unfolding finish bulk_length read_argument set_protocol_error
multibulk_rounds zero at c = finish at c
multibulk_rounds (suc more) at c = elim (bulk_length at c c.bulklen) [
  | unread ↦ finish at c
  | refused e start ↦ err (set_protocol_error e start c)
  | known n from c' ↦ elim (ltb (length c'.querybuf - from) (n + 2)) [
    | true ↦ finish from c'
    | false ↦ let next = read_argument n from c' in multibulk_rounds more next.0 next.1
  ]
]

-- The count: `!ok || ll > 1024*1024` is an error, and with `ll <= 0` there is nothing to read.
unfoldable pub multibulk_value : ℕ → Client → Option ℤ → Outcome
unfolding multibulk_rounds set_protocol_error trimmed
multibulk_value next c none = err (set_protocol_error invalid_multibulk_length 0 c)
multibulk_value next c (some (negsuc n)) = ok (record c { querybuf = trimmed next c.querybuf })
multibulk_value next c (some (pos zero)) = ok (record c { querybuf = trimmed next c.querybuf })
multibulk_value next c (some (pos (suc n))) =
    if ltb (1024 * 1024) (suc n)
    then err (set_protocol_error invalid_multibulk_length 0 c)
    else multibulk_rounds (suc n) next (record c { multibulklen = suc n })

unfoldable pub multibulk_count : Client → Option ℕ → Outcome
unfolding multibulk_value set_protocol_error
multibulk_count c none =
    if ltb inline_max_size (length c.querybuf)
    then err (set_protocol_error too_big_mbulk_count 0 c)
    else err c
multibulk_count c (some i) =
    if ltb (length c.querybuf) (i + 2)
    then err c
    else if not (get_or c.querybuf 0 0 == b'*')
    then aborted
    else multibulk_value (i + 2) c (string2ll (take (i - 1) (drop 1 c.querybuf)))

unfoldable pub process_multibulk_buffer : Client → Outcome
unfolding multibulk_count multibulk_rounds strchr
process_multibulk_buffer c =
    if c.multibulklen == 0
    then (if length c.argv == 0 then multibulk_count c (strchr b'\r' c.querybuf) else aborted)
    else multibulk_rounds c.multibulklen 0 c
