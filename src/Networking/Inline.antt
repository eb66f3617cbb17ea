-- ===== src/Networking/Inline.antt =====
-- src/networking.c: processInlineBuffer: a request as a line of words.
pub mod Line
use prez.Prelude.{
  ℕ, zero, suc, ◌+◌, ◌-◌, ◌*◌, Bool, true, false, ◌&&◌, ◌||◌, List, [], ◌∷◌, ◌++◌, Option, none,
  some, ltb, leb, ◌==◌, not, if◌then◌else◌, length, take, drop, get_or,
}
use prez.Prelude.Int.{ℤ, pos, negsuc}
use prez.Prelude.Text.{Bytes}
use prez.Sds.SplitArgs.{sdssplitargs}
use prez.Networking.{
  inline_max_size, ProtocolError, too_big_inline, unbalanced_quotes, Client, Outcome, ok, err,
  trimmed, set_protocol_error, strchr,
}

unfoldable pub nonempty_args : List Bytes → List Bytes
nonempty_args [] = []
nonempty_args (arg ∷ args) =
    let rest = nonempty_args args in if length arg == 0 then rest else arg ∷ rest

-- A carriage return before the newline belongs to the end of the line.
unfoldable pub line_length : Bytes → ℕ → ℕ
line_length buf zero = 0
line_length buf (suc i) = if get_or buf i 0 == b'\r' then i else suc i

unfoldable pub inline_line : Client → ℕ → Option (List Bytes) → Outcome
unfolding set_protocol_error nonempty_args trimmed
inline_line c querylen none = err (set_protocol_error unbalanced_quotes 0 c)
inline_line c querylen (some args) =
    ok (record c { querybuf = trimmed (querylen + 2) c.querybuf; argv = nonempty_args args })

unfoldable pub inline_found : Client → Option ℕ → Outcome
unfolding line_length inline_line
inline_found c none =
    if ltb inline_max_size (length c.querybuf)
    then err (set_protocol_error too_big_inline 0 c)
    else err c
inline_found c (some newline) =
    let querylen = line_length c.querybuf newline in
    inline_line c querylen (sdssplitargs (take querylen c.querybuf))

unfoldable pub process_inline_buffer : Client → Outcome
unfolding inline_found strchr
process_inline_buffer c = inline_found c (strchr b'\n' c.querybuf)
