-- ===== src/Networking/Input.antt =====
-- src/networking.c: processInputBuffer: the requests in the buffer of a client one after the other.
pub mod Rounds
pub mod Pipeline
pub mod Server
use prez.Prelude.{
  ℕ, zero, suc, ◌≤◌, ◌<◌, ◌≡◌, refl, Bool, true, false, ◌||◌, List, [], ◌∷◌, Option, none, some,
  ◌==◌, if◌then◌else◌, length, get_or,
}
use prez.Prelude.Text.{Bytes}
use prez.Log.{◌>>=◌}
use prez.Networking.{
  Client, ReqType, unknown, inline, multibulk, Outcome, ok, err, aborted, reset_client,
}
use prez.Networking.Inline.{process_inline_buffer}
use prez.Networking.Multibulk.{process_multibulk_buffer}

-- The tests at the head of the loop: nothing is left, or the client is in the middle of something, or
-- it is to be closed.
unfoldable pub stops : Client → Bool
stops c = length c.querybuf == 0 || (c.blocked || c.close_after_reply)

unfoldable pub request_type : ReqType → Bytes → ReqType
request_type unknown buf = if get_or buf 0 0 == b'*' then multibulk else inline
request_type inline buf = inline
request_type multibulk buf = multibulk

unfoldable pub process_request : ReqType → Client → Outcome
process_request inline c = process_inline_buffer c
process_request multibulk c = process_multibulk_buffer c
process_request unknown c = aborted

-- processCommand as the loop sees it: PREZ_OK or not, and the rest of the server; none where C
-- leaves the behaviour undefined.
module _ {S : Type 0} (command : List Bytes → S → Option (Bool × S)) where
  -- The client is reset when the command was executed, and where there was none.
  unfoldable pub run_request : Client → S → Option (Client × S)
  unfolding reset_client
  run_request c s =
      let called = command c.argv s in
      if length c.argv == 0
      then some (reset_client c, s)
      else (called >>= λ r. some (if r.0 then reset_client c else c, r.1))

  unfoldable pub input_rounds : ℕ → Client → S → Option (Client × S)
  unfolding stops request_type process_request run_request
  input_rounds zero c s = some (c, s)
  input_rounds (suc rounds) c s = elim (stops c) [
    | true ↦ some (c, s)
    | false ↦
        let typed : Client = record c { reqtype = request_type c.reqtype c.querybuf } in
        elim (process_request typed.reqtype typed) [
          | err d ↦ some (d, s)
          | aborted ↦ none
          | ok d ↦ elim (run_request d s) [
            | none ↦ none
            | some next ↦ input_rounds rounds next.0 next.1
          ]
        ]
  ]

  -- A round uses a byte at least.
  unfoldable pub process_input_buffer : Client → S → Option (Client × S)
  unfolding input_rounds
  process_input_buffer c s = input_rounds (length c.querybuf) c s
