-- ===== src/Networking/Input/Rounds.antt =====
-- src/networking.c: the loop of processInputBuffer, round by round.
use prez.Prelude.{
  ℕ, zero, suc, ◌+◌, ◌≤◌, ◌<◌, ◌≡◌, inl, inr, refl, sym, ap, ◌∙◌, Bool, true, false, List, Option,
  none, some, ltb, ◌==◌, length, take, arith, Bool-cases, Option-cases, length-drop, none≢some,
  eq_of_some, nat_cases,
}
use prez.Prelude.Text.{Bytes}
use prez.Sds.SplitArgs.{sdssplitargs}
use prez.Networking.{
  Client, ReqType, unknown, inline, multibulk, Outcome, ok, err, aborted, reset_client, strchr,
  inline_max_size,
}
use prez.Networking.Inline.{process_inline_buffer, inline_found, inline_line, line_length}
use prez.Networking.Multibulk.Refine.{err≢ok}
use prez.Networking.Multibulk.Reference.{trimmed-drop}
use prez.Networking.Multibulk.Shrink.{process_multibulk_buffer-shrinks, eq_of_ok, aborted≢ok}
use prez.Networking.Input.{
  stops, request_type, process_request, run_request, input_rounds, process_input_buffer,
}

line_shrink :
    (c d : Client) (n : ℕ) (o : Option (List Bytes))
    → 0 < length c.querybuf
    → inline_line c n o ≡ ok d
    → length d.querybuf < length c.querybuf
unfolding inline_line
line_shrink c d n none p done = absurd (err≢ok _ d done)
line_shrink c d n (some args) p done =
    rw (← eq_of_ok done, trimmed-drop (n + 2) c.querybuf)
      (omega (arith, length-drop (n + 2) c.querybuf))

found_shrink :
    (c d : Client) (o : Option ℕ)
    → 0 < length c.querybuf
    → inline_found c o ≡ ok d
    → length d.querybuf < length c.querybuf
unfolding inline_found
found_shrink c d none p done = elim (Bool-cases (ltb inline_max_size (length c.querybuf))) [
  | inl big ↦ absurd (err≢ok _ d (rw big at done))
  | inr small ↦ absurd (err≢ok _ d (rw small at done))
]
found_shrink c d (some i) p done =
    let n = line_length c.querybuf i in line_shrink c d n (sdssplitargs (take n c.querybuf)) p done

request_shrink :
    (t : ReqType) (c d : Client)
    → 0 < length c.querybuf
    → process_request t c ≡ ok d
    → length d.querybuf < length c.querybuf
unfolding process_request process_inline_buffer
request_shrink inline c d p done = found_shrink c d (strchr b'\n' c.querybuf) p done
request_shrink multibulk c d p done = process_multibulk_buffer-shrinks c d done
request_shrink unknown c d p done = absurd (aborted≢ok d done)

data OutcomeCases (o : Outcome) : Type 0 where
  was_ok : (d : Client) → o ≡ ok d → OutcomeCases o
  was_err : (d : Client) → o ≡ err d → OutcomeCases o
  was_aborted : o ≡ aborted → OutcomeCases o

Outcome-cases : (o : Outcome) → OutcomeCases o
Outcome-cases (ok d) = was_ok d refl
Outcome-cases (err d) = was_err d refl
Outcome-cases aborted = was_aborted refl

-- The client whose request type is determined.
abbrev pub typed : Client → Client
typed c = record c { reqtype = request_type c.reqtype c.querybuf }

module _ {S : Type 0} (command : List Bytes → S → Option (Bool × S)) where
  -- A command does not touch the buffer.
  run_request-buffer :
      (c : Client) (s : S) (next : Client × S)
      → run_request command c s ≡ some next
      → (next.0).querybuf ≡ c.querybuf
  unfolding run_request reset_client
  run_request-buffer c s next done = elim (Bool-cases (length c.argv == 0)) [
    | inl empty ↦ rw (← eq_of_some (rw empty at done)) refl
    | inr full ↦ elim (Option-cases (command c.argv s)) [
      | inl undefined ↦ absurd (none≢some (rw (full, undefined) at done))
      | inr ((true, t), called) ↦ rw (← eq_of_some (rw (full, called) at done)) refl
      | inr ((false, t), called) ↦ rw (← eq_of_some (rw (full, called) at done)) refl
    ]
  ]

  -- The ways of a round.
  module _ (n : ℕ) (c : Client) (s : S) where
    pub round_stops : stops c ≡ true → input_rounds command n c s ≡ some (c, s)
    unfolding input_rounds
    round_stops stop = elim (nat_cases n) [
      | inl none_left ↦ rw (none_left, input_rounds) refl
      | inr (k, more) ↦ rw (more, input_rounds, stop) refl
    ]

    pub round_goes_on :
        (d : Client) (next : Client × S)
        → stops c ≡ false
        → process_request (typed c).reqtype (typed c) ≡ ok d
        → run_request command d s ≡ some next
        → input_rounds command (suc n) c s ≡ input_rounds command n next.0 next.1
    unfolding input_rounds
    round_goes_on d next go request run = rw (input_rounds, go, request, run) refl

    pub round_aborts :
        stops c ≡ false
        → process_request (typed c).reqtype (typed c) ≡ aborted
        → input_rounds command (suc n) c s ≡ none
    unfolding input_rounds
    round_aborts go request = rw (input_rounds, go, request) refl

    round_waits :
        (d : Client)
        → stops c ≡ false
        → process_request (typed c).reqtype (typed c) ≡ err d
        → input_rounds command (suc n) c s ≡ some (d, s)
    unfolding input_rounds
    round_waits d go request = rw (input_rounds, go, request) refl

    round_fails :
        (d : Client)
        → stops c ≡ false
        → process_request (typed c).reqtype (typed c) ≡ ok d
        → run_request command d s ≡ none
        → input_rounds command (suc n) c s ≡ none
    unfolding input_rounds
    round_fails d go request run = rw (input_rounds, go, request, run) refl

  nothing_stops : (c : Client) → length c.querybuf ≤ 0 → stops c ≡ true
  unfolding stops
  nothing_stops c h = ground arith

  something_left : (c : Client) → stops c ≡ false → 0 < length c.querybuf
  unfolding stops
  something_left c go = ground arith

  enough_rounds :
      (n m : ℕ) (c : Client) (s : S)
      → length c.querybuf ≤ n
      → length c.querybuf ≤ m
      → input_rounds command n c s ≡ input_rounds command m c s
  enough_rounds zero m c s h g =
      round_stops 0 c s (nothing_stops c h) ∙ sym (round_stops m c s (nothing_stops c h))
  enough_rounds (suc n) zero c s h g =
      round_stops (suc n) c s (nothing_stops c g) ∙ sym (round_stops 0 c s (nothing_stops c g))
  enough_rounds (suc n) (suc m) c s h g = elim (Bool-cases (stops c)) [
    | inl stop ↦ round_stops (suc n) c s stop ∙ sym (round_stops (suc m) c s stop)
    | inr go ↦ elim (Outcome-cases (process_request (typed c).reqtype (typed c))) [
      | was_err d request ↦ round_waits n c s d go request ∙ sym (round_waits m c s d go request)
      | was_aborted request ↦ round_aborts n c s go request ∙ sym (round_aborts m c s go request)
      | was_ok d request ↦ elim (Option-cases (run_request command d s)) [
        | inl fail ↦ round_fails n c s d go request fail ∙ sym (round_fails m c s d go request fail)
        | inr (next, run) ↦
            let shorter =
              request_shrink (typed c).reqtype (typed c) d (something_left c go) request in
            let same : length (next.0).querybuf ≡ length d.querybuf =
              ap length (run_request-buffer d s next run) in
            round_goes_on n c s d next go request run
            ∙ enough_rounds n m next.0 next.1 (omega arith) (omega arith)
            ∙ sym (round_goes_on m c s d next go request run)
      ]
    ]
  ]

  -- As many rounds as there are bytes are enough.
  pub input_rounds-process_input_buffer :
      (n : ℕ) (c : Client) (s : S)
      → length c.querybuf ≤ n
      → input_rounds command n c s ≡ process_input_buffer command c s
  unfolding process_input_buffer
  input_rounds-process_input_buffer n c s h =
      enough_rounds n (length c.querybuf) c s h (omega arith)

  -- The loop of processInputBuffer without a bound on its rounds: how it comes to an end, and with
  -- what. A round after which it goes on leaves fewer bytes in the buffer.
  pub data Runs : Client → S → Option (Client × S) → Type 0 where
    halts : {c : Client} {s : S} → stops c ≡ true → Runs c s (some (c, s))
    waits :
        {c d : Client} {s : S}
        → stops c ≡ false
        → process_request (typed c).reqtype (typed c) ≡ err d
        → Runs c s (some (d, s))
    aborts :
        {c : Client} {s : S}
        → stops c ≡ false
        → process_request (typed c).reqtype (typed c) ≡ aborted
        → Runs c s none
    fails :
        {c d : Client} {s : S}
        → stops c ≡ false
        → process_request (typed c).reqtype (typed c) ≡ ok d
        → run_request command d s ≡ none
        → Runs c s none
    goes_on :
        {c d e : Client} {s t : S} {r : Option (Client × S)}
        → stops c ≡ false
        → process_request (typed c).reqtype (typed c) ≡ ok d
        → run_request command d s ≡ some (e, t)
        → length e.querybuf < length c.querybuf
        → Runs e t r
        → Runs c s r

  input_rounds-Runs :
      (n : ℕ) (c : Client) (s : S) → length c.querybuf ≤ n → Runs c s (input_rounds command n c s)
  input_rounds-Runs zero c s h =
      let stop = nothing_stops c h in rw (round_stops 0 c s stop) (Runs.halts stop)
  input_rounds-Runs (suc n) c s h = elim (Bool-cases (stops c)) [
    | inl stop ↦ rw (round_stops (suc n) c s stop) (Runs.halts stop)
    | inr go ↦ elim (Outcome-cases (process_request (typed c).reqtype (typed c))) [
      | was_err d request ↦ rw (round_waits n c s d go request) (Runs.waits go request)
      | was_aborted request ↦ rw (round_aborts n c s go request) (Runs.aborts go request)
      | was_ok d request ↦ elim (Option-cases (run_request command d s)) [
        | inl fail ↦ rw (round_fails n c s d go request fail) (Runs.fails go request fail)
        | inr ((e, t), run) ↦
            let shorter =
              request_shrink (typed c).reqtype (typed c) d (something_left c go) request in
            let same : length e.querybuf ≡ length d.querybuf =
              ap length (run_request-buffer d s (e, t) run) in
            rw (round_goes_on n c s d (e, t) go request run)
              (Runs.goes_on go request run (omega arith) (input_rounds-Runs n e t (omega arith)))
      ]
    ]
  ]

  -- processInputBuffer ends, for every client, buffer and command. Its loop, of whose rounds no
  -- number is fixed beforehand, comes after finitely many of them to a client that is empty, blocked
  -- or to be closed, to a request that is not complete or not accepted, to a failed assertion, or
  -- to a command that C leaves undefined; every round but the last leaves fewer bytes in the
  -- buffer; and what it ends with is the result of the model, which bounds the rounds by the bytes.
  pub process_input_buffer-Runs : (c : Client) (s : S) → Runs c s (process_input_buffer command c s)
  unfolding process_input_buffer
  process_input_buffer-Runs c s = input_rounds-Runs (length c.querybuf) c s (omega arith)
