-- ===== src/Networking.antt =====
-- src/networking.c: the query buffer of a client and the two request formats. The room behind the
-- bytes of the buffer is left out.
pub mod Inline
pub mod Multibulk
pub mod Input
mod Tests
use prez.Prelude.{
  ℕ, zero, suc, ◌+◌, ◌-◌, ◌*◌, Bool, true, false, ◌&&◌, List, [], ◌∷◌, ◌++◌, Option, none, some,
  ltb, leb, ◌==◌, not, if◌then◌else◌, length, take, drop, get_or,
}
use prez.Prelude.Int.{ℤ, pos, negsuc}
use prez.Prelude.Text.{Bytes}
use prez.Util.Decimal.{string2ll}
use prez.Sds.Buffer.{sdsnewlen, sdsrange}
use prez.Sds.SplitArgs.{sdssplitargs}

abbrev pub inline_max_size : ℕ
inline_max_size = 1024 * 64

abbrev pub mbulk_big_arg : ℕ
mbulk_big_arg = 1024 * 32

-- The texts of addReplyError.
pub data ProtocolError : Type 0 where
  too_big_inline unbalanced_quotes too_big_mbulk_count invalid_multibulk_length : ProtocolError
  too_big_bulk_count invalid_bulk_length : ProtocolError
  expected_dollar : ℕ → ProtocolError

-- The member reqtype; `unknown` is 0.
pub data ReqType : Type 0 where
  unknown inline multibulk : ReqType

-- prezClient. The length of `argv` is argc; `bulklen` is none for -1; `errors` are the protocol errors
-- replied so far; the two flags are PREZ_BLOCKED and PREZ_CLOSE_AFTER_REPLY.
pub record Client : Type 0 where
  pub querybuf : Bytes
  pub reqtype : ReqType
  pub argv : List Bytes
  pub multibulklen : ℕ
  pub bulklen : Option ℕ
  pub errors : List ProtocolError
  pub blocked : Bool
  pub close_after_reply : Bool

-- PREZ_OK and PREZ_ERR with the client, and an assertion that fails.
pub data Outcome : Type 0 where
  ok : Client → Outcome
  err : Client → Outcome
  aborted : Outcome

-- sdsrange(c->querybuf,pos,-1).
unfoldable pub trimmed : ℕ → Bytes → Bytes
trimmed start buf = (sdsrange (sdsnewlen buf) (pos start) (negsuc 0)).buf

unfoldable pub reset_client : Client → Client
reset_client c = record c { argv = []; reqtype = unknown; multibulklen = 0; bulklen = none }

unfoldable pub set_protocol_error : ProtocolError → ℕ → Client → Client
unfolding trimmed
set_protocol_error e start c = record c {
  errors = c.errors ++ e ∷ [];
  close_after_reply = true;
  querybuf = trimmed start c.querybuf;
}

-- strchr(3): the place of the first `ch` before the terminator, which the first 0 is.
unfoldable pub strchr : ℕ → Bytes → Option ℕ
strchr ch [] = none
strchr ch (c ∷ s) =
    let rest = strchr ch s in
    if c == ch
    then some 0
    else if c == 0
    then none
    else elim rest [ none ↦ none | some i ↦ some (suc i) ]
