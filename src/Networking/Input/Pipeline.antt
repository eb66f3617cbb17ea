-- ===== src/Networking/Input/Pipeline.antt =====
-- src/networking.c: processInputBuffer on requests that come one behind the other.
use prez.Prelude.{
  ℕ, zero, suc, ◌+◌, ◌≤◌, ◌<◌, ◌≡◌, inl, inr, refl, sym, ◌∙◌, Bool, true, false, List, [], ◌∷◌,
  Option, none, some, ◌==◌, All, length, arith, Option-cases, none≢some, eq_of_some,
}
use prez.Prelude.Text.{Bytes}
use prez.Networking.{Client, unknown, multibulk, ok, aborted, reset_client}
use prez.Networking.Multibulk.{process_multibulk_buffer}
use prez.Networking.Multibulk.RoundTrip.{
  request, bulk_max, multibulk_max, process_multibulk_buffer-request,
}
use prez.Networking.Input.{
  stops, request_type, process_request, run_request, input_rounds, process_input_buffer,
}
use prez.Networking.Input.Rounds.{
  typed, round_stops, round_goes_on, round_aborts, input_rounds-process_input_buffer,
}

-- A request that is accepted.
pub record Acceptable (args : List Bytes) : Type 0 where
  pub some_args : 0 < length args
  pub few : length args ≤ multibulk_max
  pub short : All (λ arg. length arg ≤ bulk_max) args

-- The texts of several requests.
unfoldable pub pipeline : List (List Bytes) → Bytes
pipeline [] = []
pipeline (args ∷ more) = request args (pipeline more)

-- A client that waits for a request, with a buffer.
abbrev pub ready : Client → Bytes → Client
ready c buf = record c {
  querybuf = buf;
  argv = [];
  reqtype = unknown;
  multibulklen = 0;
  bulklen = none;
  blocked = false;
  close_after_reply = false;
}

-- The client that has read a request, and not been reset.
abbrev pub has_read : Client → List Bytes → Bytes → Client
has_read c args buf = record (ready c buf) { argv = args; reqtype = multibulk }

ready_goes_on :
    (c : Client) (args : List Bytes) (rest : Bytes) → stops (ready c (request args rest)) ≡ false
unfolding stops request
ready_goes_on c args rest = ground arith

length-request : (args : List Bytes) (rest : Bytes) → 0 < length (request args rest)
unfolding request
length-request args rest = omega arith

pub reads :
    (c : Client) (args : List Bytes) (rest : Bytes)
    → Acceptable args
    → process_request
        (typed (ready c (request args rest))).reqtype
        (typed (ready c (request args rest)))
      ≡ ok (has_read c args rest)
unfolding process_request
reads c args rest a =
    let is_multibulk : request_type unknown (request args rest) ≡ multibulk =
      unfold request_type request in refl in
    rw is_multibulk (
      process_multibulk_buffer-request args rest (record (ready c rest) { reqtype = multibulk })
        a.some_args a.few a.short)

pub not_reset :
    (c : Client) (args : List Bytes) (rest : Bytes)
    → 0 < length args
    → process_request multibulk (has_read c args rest) ≡ aborted
unfolding process_request process_multibulk_buffer
not_reset c args rest p = let full : (length args == 0) ≡ false = ground arith in rw full refl

module _ {S : Type 0} (command : List Bytes → S → Option (Bool × S)) where
  -- The commands one after the other, each executed; none where one fails or only is accepted for
  -- later.
  unfoldable pub executed : List (List Bytes) → S → Option S
  executed [] s = some s
  executed (args ∷ more) s = elim (command args s) [
    | some (true, t) ↦ executed more t
    | some (false, t) ↦ none
    | none ↦ none
  ]

  run-done :
      (c : Client) (args : List Bytes) (rest : Bytes) (s t : S)
      → 0 < length args
      → command args s ≡ some (true, t)
      → run_request command (has_read c args rest) s ≡ some (ready c rest, t)
  unfolding run_request reset_client
  run-done c args rest s t p called =
      let full : (length args == 0) ≡ false = ground arith in rw (full, called) refl

  in_order :
      (n : ℕ) (c : Client) (rs : List (List Bytes)) (s t : S)
      → length rs ≤ n
      → All Acceptable rs
      → executed rs s ≡ some t
      → input_rounds command n (ready c (pipeline rs)) s ≡ some (ready c [], t)
  unfolding pipeline executed
  in_order n c [] s t h a e =
      round_stops command n (ready c []) s (unfold stops in refl) ∙ rw (eq_of_some e) refl
  in_order zero c (args ∷ rs) s t h a e = absurd (omega arith)
  in_order (suc n) c (args ∷ rs) s t h a e = elim (Option-cases (command args s)) [
    | inl fail ↦ absurd (none≢some (rw (executed, fail) at e))
    | inr ((false, u), later) ↦ absurd (none≢some (rw (executed, later) at e))
    | inr ((true, u), called) ↦
        round_goes_on command n (ready c (request args (pipeline rs))) s
          (has_read c args (pipeline rs)) (ready c (pipeline rs), u)
          (ready_goes_on c args (pipeline rs)) (reads c args (pipeline rs) a.0)
          (run-done c args (pipeline rs) s u (a.0).some_args called)
        ∙ in_order n c rs u t (omega arith) a.1 (rw (executed, called) at e)
  ]

  -- Requests are served in order. Let a client that waits for a request have the texts of any
  -- number of acceptable requests in its buffer, and let each of the commands be executed at once
  -- when it is its turn. Then processInputBuffer executes all of them, in the order of the
  -- requests, and the client is left with an empty buffer, waiting for the next.
  pub process_input_buffer-pipeline :
      (c : Client) (rs : List (List Bytes)) (s t : S)
      → All Acceptable rs
      → executed rs s ≡ some t
      → process_input_buffer command (ready c (pipeline rs)) s ≡ some (ready c [], t)
  process_input_buffer-pipeline c rs s t a e =
      let n = length (pipeline rs) + length rs in
      sym (input_rounds-process_input_buffer command n (ready c (pipeline rs)) s (omega arith))
      ∙ in_order n c rs s t (omega arith) a e

  pub run_later :
      (c : Client) (args : List Bytes) (rest : Bytes) (s t : S)
      → 0 < length args
      → command args s ≡ some (false, t)
      → run_request command (has_read c args rest) s ≡ some (has_read c args rest, t)
  unfolding run_request
  run_later c args rest s t p called =
      let full : (length args == 0) ≡ false = ground arith in rw (full, called) refl

  -- A command that is only accepted for later must be the last in the buffer. When processCommand
  -- does not return PREZ_OK, the client keeps its arguments, and if as much as one byte stands
  -- behind the request, processInputBuffer runs into the assertion that the client has none.
  pub process_input_buffer-unreset :
      (c : Client) (args : List Bytes) (rest : Bytes) (s t : S)
      → Acceptable args
      → command args s ≡ some (false, t)
      → 0 < length rest
      → process_input_buffer command (ready c (request args rest)) s ≡ none
  process_input_buffer-unreset c args rest s t a called more =
      let n = length (request args rest) in
      let goes_on : stops (has_read c args rest) ≡ false = unfold stops in ground arith in
      sym (
        input_rounds-process_input_buffer command (suc (suc n)) (ready c (request args rest)) s
          (omega arith))
      ∙ round_goes_on command (suc n) (ready c (request args rest)) s (has_read c args rest)
          (has_read c args rest, t) (ready_goes_on c args rest) (reads c args rest a)
          (run_later c args rest s t a.some_args called)
      ∙ round_aborts command n (has_read c args rest) t goes_on
          (unfold request_type in not_reset c args rest a.some_args)
