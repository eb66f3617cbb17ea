-- ===== src/Networking/Multibulk/Shrink.antt =====
-- src/networking.c: a request that is read is taken off the buffer.
use prez.Prelude.{
  ℕ, zero, suc, ◌+◌, ◌-◌, ◌*◌, ◌≤◌, ◌<◌, ◌≡◌, ◌≢◌, inl, inr, refl, sym, ap, ◌∙◌, Option, none, some,
  ltb, ◌==◌, length, take, drop, get_or, arith, Bool-cases, length-drop,
}
use prez.Prelude.Int.{ℤ, pos, negsuc}
use prez.Prelude.Text.{Bytes}
use prez.Util.Decimal.{string2ll}
use prez.Networking.{inline_max_size, Client, Outcome, ok, err, aborted, strchr, trimmed}
use prez.Networking.Multibulk.{
  read_argument, multibulk_rounds, multibulk_count, multibulk_value, process_multibulk_buffer,
}
use prez.Networking.Multibulk.Reference.{skip, trimmed-drop}
use prez.Networking.Multibulk.Agree.{
  waiting, oversized, refusing, knowing, bulk_length-Cases, finish_done, finish_more,
}
use prez.Networking.Multibulk.Refine.{
  read_argument-Moves, rounds_done, rounds-unread, rounds-refused, rounds_short, rounds_full,
  err≢ok,
}
use prez.Networking.Multibulk.Lines.{behind_shorter}
use prez.Networking.Multibulk.Chunks.{call_counts, call_aborts, call_goes_on}

abbrev ok_client : Client → Outcome → Client
ok_client c (ok d) = d
ok_client c (err d) = c
ok_client c aborted = c

pub eq_of_ok : {c d : Client} → ok c ≡ ok d → c ≡ d
eq_of_ok {c = c} h = ap (ok_client c) h

pub aborted≢ok : (d : Client) → aborted ≢ ok d
aborted≢ok d h = cc

-- Each round takes a byte at least.
rounds_shrink :
    (k at : ℕ) (c d : Client)
    → c.multibulklen ≡ k
    → at ≤ length c.querybuf
    → multibulk_rounds k at c ≡ ok d
    → length d.querybuf + at + k ≤ length c.querybuf
rounds_shrink zero at c d left h done =
    let same : skip at c ≡ d = eq_of_ok (sym (rounds_done 0 at c ∙ finish_done at c left) ∙ done) in
    rw (← same) (omega (arith, length-drop at c.querybuf))
rounds_shrink (suc k) at c d left h done = elim (bulk_length-Cases at c h) [
  | waiting b l ↦
      absurd (err≢ok _ d (sym (rounds-unread k at c b ∙ finish_more at c k left) ∙ done))
  | oversized b l big ↦ absurd (err≢ok _ d (sym (rounds-refused k at c _ 0 b) ∙ done))
  | refusing e b l ↦ absurd (err≢ok _ d (sym (rounds-refused k at c e at b) ∙ done))
  | knowing n from q inside small b l ↦
      let now : Client = record c { querybuf = q; bulklen = some n } in
      elim (Bool-cases (ltb (length q - from) (n + 2))) [
        | inl short ↦ absurd (
            err≢ok _ d
              (sym (rounds_short k at c n from now b short ∙ finish_more from now k left) ∙ done))
        | inr full ↦
            let next = read_argument n from now in
            let (within, no_more, same, fewer) = read_argument-Moves n from q c inside full in
            let shrunk =
              rounds_shrink k next.0 next.1 d (omega arith) within
                (sym (rounds_full k at c n from now b full) ∙ done) in
            let behind = behind_shorter c.bulklen (drop at c.querybuf) (drop from q) n l in
            let room : n + 2 ≤ length q - from = ground arith in
            let size : length (drop next.0 (next.1).querybuf)
                ≡ length (drop (n + 2) (drop from q)) =
              ap (λ (x : Client). length x.querybuf) same in
            omega (
              arith,
              behind,
              size,
              length-drop at c.querybuf,
              length-drop from q,
              length-drop (n + 2) (drop from q),
              length-drop next.0 (next.1).querybuf,
            )
      ]
]

trimmed_shrink : (at : ℕ) (buf : Bytes) → length (trimmed at buf) ≡ length buf - at
trimmed_shrink at buf = rw (trimmed-drop at buf) (length-drop at buf)

value_shrink :
    (at : ℕ) (c d : Client) (o : Option ℤ)
    → 0 < at
    → at ≤ length c.querybuf
    → multibulk_value at c o ≡ ok d
    → length d.querybuf < length c.querybuf
unfolding multibulk_value
value_shrink at c d none p h done = absurd (err≢ok _ d done)
value_shrink at c d (some (negsuc n)) p h done =
    rw (← eq_of_ok done) (omega (arith, trimmed_shrink at c.querybuf))
value_shrink at c d (some (pos zero)) p h done =
    rw (← eq_of_ok done) (omega (arith, trimmed_shrink at c.querybuf))
value_shrink at c d (some (pos (suc n))) p h done = elim (Bool-cases (ltb (1024 * 1024) (suc n))) [
  | inl many ↦ absurd (err≢ok _ d (rw many at done))
  | inr few ↦ omega (
    arith,
    rounds_shrink (suc n) at (record c { multibulklen = suc n }) d refl h (rw few at done),
  )
]

count_shrink :
    (c d : Client) (o : Option ℕ)
    → multibulk_count c o ≡ ok d
    → length d.querybuf < length c.querybuf
unfolding multibulk_count
count_shrink c d none done = elim (Bool-cases (ltb inline_max_size (length c.querybuf))) [
  | inl big ↦ absurd (err≢ok _ d (rw big at done))
  | inr small ↦ absurd (err≢ok _ d (rw small at done))
]
count_shrink c d (some i) done = elim (Bool-cases (ltb (length c.querybuf) (i + 2))) [
  | inl short ↦ absurd (err≢ok _ d (rw short at done))
  | inr whole ↦ elim (Bool-cases (get_or c.querybuf 0 0 == b'*')) [
    | inr other ↦ absurd (aborted≢ok d (rw (whole, other) at done))
    | inl star ↦
        value_shrink (i + 2) c d (string2ll (take (i - 1) (drop 1 c.querybuf))) (omega arith)
          (ground arith) (rw (whole, star) at done)
  ]
]

pub process_multibulk_buffer-shrinks :
    (c d : Client) → process_multibulk_buffer c ≡ ok d → length d.querybuf < length c.querybuf
process_multibulk_buffer-shrinks c d done = elim (Bool-cases (c.multibulklen == 0)) [
  | inl fresh ↦ elim (Bool-cases (length c.argv == 0)) [
    | inl empty ↦
        count_shrink c d (strchr b'\r' c.querybuf) (sym (call_counts c fresh empty) ∙ done)
    | inr full ↦ absurd (aborted≢ok d (sym (call_aborts c fresh full) ∙ done))
  ]
  | inr within ↦
      let shrunk =
        rounds_shrink c.multibulklen 0 c d refl (omega arith)
          (sym (call_goes_on c within) ∙ done) in
      ground arith
]
