-- ===== src/Log/Verify.antt =====
-- src/log.c: logVerifyAppend never dereferences NULL and accepts exactly the entries that are there.
use prez.Prelude.{
  ℕ, zero, suc, ◌-◌, ◌^◌, ◌≤◌, ◌<◌, ◌≡◌, refl, Bool, true, some, if◌then◌else◌, get_elem?,
  get_elem?_within, lt-length_of_some, arith, ap, ◌↔◌, dec_lt,
}
use prez.Prelude.Int.{ℤ, pos, negsuc, ◌==ℤ◌, ==ℤ_iff, pos_part}
use prez.Util.Decimal.RoundTrip.{IsLongLong}
use prez.Log.{Log, LogEntryNode, Status, ok, err, log_length, log_verify_append}
use prez.Log.Index.{max_length, get_log_entry_within}

-- What logVerifyAppend is for: index 0, or the index of an entry of that term.
pub data Holds (log : Log) (index term : ℤ) : Type 0 where
  start : index ≡ pos 0 → Holds log index term
  present :
      (i : ℕ) (en : LogEntryNode)
      → index ≡ pos (suc i)
      → get_elem? log.log_entries i ≡ some en
      → en.log_entry.term ≡ term
      → Holds log index term

verify_within :
    (log : Log) (i : ℕ) (term : ℤ) (en : LogEntryNode)
    → log_length log ≤ max_length
    → i < log_length log
    → get_elem? log.log_entries i ≡ some en
    → log_verify_append log (pos (suc i)) term
      ≡ some (if en.log_entry.term ==ℤ term then ok else err)
unfolding log_verify_append
verify_within log i term en m h at = ground (arith, get_log_entry_within log m i h)

verify_above :
    (log : Log) (i : ℕ) (term : ℤ)
    → log_length log ≤ i
    → i < 2 ^ 63 - 1
    → log_verify_append log (pos (suc i)) term ≡ some err
unfolding log_verify_append
verify_above log i term h b = ground arith

verify_negative :
    (log : Log) (n : ℕ) (term : ℤ)
    → log_length log ≤ max_length
    → n < 2 ^ 63
    → log_verify_append log (negsuc n) term ≡ some err
unfolding log_verify_append
verify_negative log n term m b = ground arith

not-Holds_above :
    (log : Log) (i : ℕ) (term : ℤ) → log_length log ≤ i → ¬ Holds log (pos (suc i)) term
not-Holds_above log i term h (start e) = cc
not-Holds_above log i term h (present j en e at et) =
    omega (arith, lt-length_of_some log.log_entries j en at, ap pos_part e)

not-Holds_negative : (log : Log) (n : ℕ) (term : ℤ) → ¬ Holds log (negsuc n) term
not-Holds_negative log n term (start e) = cc
not-Holds_negative log n term (present j en e at et) = cc

Holds-term :
    (log : Log) (i : ℕ) (term : ℤ) (en : LogEntryNode)
    → get_elem? log.log_entries i ≡ some en
    → Holds log (pos (suc i)) term
    → en.log_entry.term ≡ term
Holds-term log i term en at (start e) = cc
Holds-term log i term en at (present j en' e at' et) =
    let same : i ≡ j = omega (arith, ap pos_part e) in let at'' = rw (← same) at at' in ground arith

verdict_iff : (b : Bool) → ((if b then ok else err) ≡ ok) ↔ (b ≡ true)
verdict_iff b = ground arith

-- For every index and term that a message can carry and every log of 2^62 entries at most,
-- logVerifyAppend answers (it never reads through NULL), and it answers PREZ_OK exactly for index 0
-- and for the index and term of an entry of the log; negative indices and indices past the end are
-- refused.
pub log_verify_append-Holds :
    (log : Log) (index term : ℤ)
    → log_length log ≤ max_length
    → IsLongLong index
    → (s : Status) × (log_verify_append log index term ≡ some s) × ((s ≡ ok) ↔ Holds log index term)
log_verify_append-Holds log (pos zero) term m r =
    (ok, unfold log_verify_append in refl, (λ _. start refl, λ _. refl))
log_verify_append-Holds log (negsuc n) term m r = (
  err,
  verify_negative log n term m (omega arith),
  (λ e. absurd (cc), λ h. absurd (not-Holds_negative log n term h)),
)
log_verify_append-Holds log (pos (suc i)) term m r = elim (dec_lt i (log_length log)) [
  | yes h ↦
      let (en, at) = get_elem?_within log.log_entries i h in
      (
        (if en.log_entry.term ==ℤ term then ok else err),
        verify_within log i term en m h at,
        (
          λ e. present i en refl at ((==ℤ_iff _ term).0 ((verdict_iff _).0 e)),
          λ g. (verdict_iff _).1 ((==ℤ_iff _ term).1 (Holds-term log i term en at g)),
        ),
      )
  | no h ↦ (
    err,
    verify_above log i term (omega arith) (omega arith),
    (λ e. absurd (cc), λ g. absurd (not-Holds_above log i term (omega arith) g)),
  )
]
