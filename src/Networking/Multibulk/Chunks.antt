-- ===== src/Networking/Multibulk/Chunks.antt =====
-- src/networking.c: processMultibulkBuffer called again when more bytes have come.
use mathlib.Core.Bool.{true≢false}
use prez.Prelude.{
  ℕ, zero, suc, ◌+◌, ◌-◌, ◌*◌, ◌≤◌, ◌≡◌, ◌≢◌, inl, inr, refl, sym, ap, ◌∙◌, true, false, ◌++◌,
  Option, none, some, ltb, ◌==◌, length, take, drop, get_or, arith, Bool-cases, Option-cases,
  length-append, length-drop, take-append, drop-append, get_or-append,
}
use prez.Prelude.Int.{ℤ, pos, negsuc}
use prez.Prelude.Text.{Bytes}
use prez.Util.Decimal.{string2ll}
use prez.Networking.{
  inline_max_size, ProtocolError, invalid_multibulk_length, set_protocol_error, Client, ok, err,
  aborted, strchr,
}
use prez.Networking.Multibulk.{
  multibulk_rounds, multibulk_count, multibulk_value, process_multibulk_buffer,
}
use prez.Networking.Multibulk.Reference.{read_strings, skip}
use prez.Networking.Multibulk.Refine.{multibulk_rounds-read_strings}
use prez.Networking.Multibulk.Resume.{extend, read_strings-Resumes, eq_of_err}
use prez.Networking.Multibulk.Lines.{strchr-append}

ok≢err : (c d : Client) → ok c ≢ err d
ok≢err c d h = cc

aborted≢err : (d : Client) → aborted ≢ err d
aborted≢err d h = cc

-- An error of the protocol closes the connection.
closes :
    (e : ProtocolError) (c d : Client)
    → err (set_protocol_error e 0 c) ≡ err d
    → d.close_after_reply ≢ false
unfolding set_protocol_error
closes e c d h alive =
    absurd (true≢false (ap (λ (d : Client). d.close_after_reply) (eq_of_err h) ∙ alive))

-- The three ways of a call.
pub call_counts :
    (c : Client)
    → (c.multibulklen == 0) ≡ true
    → (length c.argv == 0) ≡ true
    → process_multibulk_buffer c ≡ multibulk_count c (strchr b'\r' c.querybuf)
unfolding process_multibulk_buffer
call_counts c fresh empty = rw (fresh, empty) refl

pub call_aborts :
    (c : Client)
    → (c.multibulklen == 0) ≡ true
    → (length c.argv == 0) ≡ false
    → process_multibulk_buffer c ≡ aborted
unfolding process_multibulk_buffer
call_aborts c fresh full = rw (fresh, full) refl

pub call_goes_on :
    (c : Client)
    → (c.multibulklen == 0) ≡ false
    → process_multibulk_buffer c ≡ multibulk_rounds c.multibulklen 0 c
unfolding process_multibulk_buffer
call_goes_on c within = rw within refl

-- The rounds stop, and go on from where they stopped.
rounds_again :
    (k at : ℕ) (c d : Client) (more : Bytes)
    → c.multibulklen ≡ k
    → at ≤ length c.querybuf
    → length c.querybuf + length more ≤ inline_max_size
    → multibulk_rounds k at c ≡ err d
    → d.close_after_reply ≡ false
    → multibulk_rounds k at (extend c more) ≡ process_multibulk_buffer (extend d more)
unfolding process_multibulk_buffer
rounds_again k at c d more left h fits stopped alive =
    let read = sym (multibulk_rounds-read_strings k at c left h (inl (omega arith))) ∙ stopped in
    let (j, left', shorter, same) = read_strings-Resumes k (skip at c) d more left read alive in
    let moved : skip at (extend c more) ≡ extend (skip at c) more =
      rw (drop-append at c.querybuf more h) refl in
    let size = length-append c.querybuf more in
    let size' = length-append d.querybuf more in
    let short : length d.querybuf ≤ length c.querybuf =
      omega (arith, shorter, length-drop at c.querybuf) in
    multibulk_rounds-read_strings k at (extend c more) left (omega (arith, size))
      (inl (omega (arith, size)))
    ∙ ap (read_strings k) moved
    ∙ same
    ∙ sym (
        multibulk_rounds-read_strings (suc j) 0 (extend d more) left' (omega arith)
          (inl (omega (arith, size'))))
    ∙ rw left' (ground arith)

-- A count that is known is known with more bytes.
value_again :
    (at : ℕ) (c d : Client) (more : Bytes) (o : Option ℤ)
    → at ≤ length c.querybuf
    → length c.querybuf + length more ≤ inline_max_size
    → multibulk_value at c o ≡ err d
    → d.close_after_reply ≡ false
    → multibulk_value at (extend c more) o ≡ process_multibulk_buffer (extend d more)
unfolding multibulk_value
value_again at c d more none h fits stopped alive =
    absurd (closes invalid_multibulk_length c d stopped alive)
value_again at c d more (some (negsuc n)) h fits stopped alive = absurd (ok≢err _ d stopped)
value_again at c d more (some (pos zero)) h fits stopped alive = absurd (ok≢err _ d stopped)
value_again at c d more (some (pos (suc n))) h fits stopped alive =
    elim (Bool-cases (ltb (1024 * 1024) (suc n))) [
      | inl many ↦ absurd (closes invalid_multibulk_length c d (rw many at stopped) alive)
      | inr few ↦ rw few (
          rounds_again (suc n) at (record c { multibulklen = suc n }) d more refl h fits
            (rw few at stopped) alive)
    ]

count_again :
    (c d : Client) (more : Bytes)
    → (c.multibulklen == 0) ≡ true
    → (length c.argv == 0) ≡ true
    → length c.querybuf + length more ≤ inline_max_size
    → multibulk_count c (strchr b'\r' c.querybuf) ≡ err d
    → d.close_after_reply ≡ false
    → process_multibulk_buffer (extend c more) ≡ process_multibulk_buffer (extend d more)
unfolding multibulk_count
count_again c d more left empty fits stopped alive = elim (Option-cases (strchr b'\r' c.querybuf)) [
  | inl no_line ↦
      let small : ltb inline_max_size (length c.querybuf) ≡ false = ground arith in
      let same : c ≡ d = eq_of_err (rw (no_line, small) at stopped) in
      ap (λ d. process_multibulk_buffer (extend d more)) same
  | inr (i, line) ↦ elim (Bool-cases (ltb (length c.querybuf) (i + 2))) [
    | inl short ↦
        let same : c ≡ d = eq_of_err (rw (line, short) at stopped) in
        ap (λ d. process_multibulk_buffer (extend d more)) same
    | inr whole ↦ elim (Bool-cases (get_or c.querybuf 0 0 == b'*')) [
      | inr other ↦ absurd (aborted≢err d (rw (line, whole, other) at stopped))
      | inl star ↦
          let q = c.querybuf in
          let (line', below) = strchr-append b'\r' q more i line in
          let whole' : ltb (length (q ++ more)) (i + 2) ≡ false =
            ground (arith, length-append q more) in
          let first : get_or (q ++ more) 0 0 ≡ get_or q 0 0 =
            get_or-append q more 0 0 (ground arith) in
          let text : take (i - 1) (drop 1 (q ++ more)) ≡ take (i - 1) (drop 1 q) =
            rw (drop-append 1 q more (ground arith))
              (take-append (i - 1) (drop 1 q) more (ground (arith, length-drop 1 q))) in
          let again =
            value_again (i + 2) c d more (string2ll (take (i - 1) (drop 1 q))) (ground arith) fits
              (rw (line, whole, star) at stopped) alive in
          call_counts (extend c more) left empty ∙ rw (line', whole', first, star, text) again
    ]
  ]
]

-- Requests may come in pieces. Let processMultibulkBuffer stop for want of bytes: it returns
-- PREZ_ERR and the connection is not to be closed. With more bytes behind the buffer that it has
-- left, it then does what it would have done with all the bytes at once, provided that they are 64
-- kilobytes at most.
pub process_multibulk_buffer-extend :
    (c d : Client) (more : Bytes)
    → length c.querybuf + length more ≤ inline_max_size
    → process_multibulk_buffer c ≡ err d
    → d.close_after_reply ≡ false
    → process_multibulk_buffer (extend c more) ≡ process_multibulk_buffer (extend d more)
process_multibulk_buffer-extend c d more fits stopped alive =
    elim (Bool-cases (c.multibulklen == 0)) [
      | inl fresh ↦ elim (Bool-cases (length c.argv == 0)) [
        | inl empty ↦
            count_again c d more fresh empty fits (sym (call_counts c fresh empty) ∙ stopped) alive
        | inr full ↦ absurd (aborted≢err d (sym (call_aborts c fresh full) ∙ stopped))
      ]
      | inr within ↦
          call_goes_on (extend c more) within
          ∙ rounds_again c.multibulklen 0 c d more refl (omega arith) fits
              (sym (call_goes_on c within) ∙ stopped) alive
    ]
