-- ===== src/Util/Decimal/Length.antt =====
-- src/util.c: digits10 counts the digits that ll2string writes.
use prez.Prelude.{
  ℕ, zero, suc, ◌+◌, ◌*◌, ◌/◌, ◌%◌, ◌≤◌, ◌<◌, ◌≡◌, refl, [], ◌∷◌, arith, get_or, leb, length, ltb,
  ltb→lt, tests, Bool-cases, inl, inr, ap, ◌∙◌,
}
use prez.Prelude.Text.{Bytes}
use prez.Util.Decimal.{
  ullong_max, llong_max, digits, write_digits, digits10, bit, text_of, digits10_ladder,
  digits10_rounds,
}

-- How many of t, 10 t, 100 t, … (k of them) are at most n.
places : ℕ → ℕ → ℕ → ℕ
places zero t n = 0
places (suc k) t n = bit (leb t n) + places k (t * 10) n

places_hundred : (k t n : ℕ) → places k (t * 100) n ≡ places k t (n / 100)
unfolding places
places_hundred zero t n = refl
places_hundred (suc k) t n =
    let e : t * 100 * 10 ≡ t * 10 * 100 = omega arith in
    rw e (rw (places_hundred k (t * 10) n) (ground arith))

ladder_below : (v m : ℕ) → v < 1_000_000_000_000 → digits10_ladder v m ≡ 1 + places 11 10 v
unfolding digits10_ladder places
ladder_below v m h = ground arith

places_append : (n : ℕ) → places 19 10 n ≡ places 11 10 n + places 8 1_000_000_000_000 n
unfolding places
places_append n = omega arith

places_below : (n : ℕ) → n < 1_000_000_000_000 → places 8 1_000_000_000_000 n ≡ 0
unfolding places
places_below n h = ground arith

places_above : (n : ℕ) → 1_000_000_000_000 ≤ n → places 11 10 n ≡ 11
unfolding places
places_above n h = ground arith

ladder_above : (v m : ℕ) → 1_000_000_000_000 ≤ v → digits10_ladder v m ≡ 12 + m
unfolding digits10_ladder
ladder_above v m h = ground arith

-- The places of the upper part of a number of more than twelve digits.
places_upper : (n : ℕ) → places 8 1_000_000_000_000 n ≡ places 8 1 (n / 1_000_000_000_000)
places_upper n =
    places_hundred 8 10_000_000_000 n
    ∙ places_hundred 8 100_000_000 (n / 100)
    ∙ places_hundred 8 1_000_000 (n / 100 / 100)
    ∙ places_hundred 8 10_000 (n / 100 / 100 / 100)
    ∙ places_hundred 8 100 (n / 100 / 100 / 100 / 100)
    ∙ places_hundred 8 1 (n / 100 / 100 / 100 / 100 / 100)
    ∙ ap (places 8 1) (omega arith)

places_few : (m : ℕ) → 0 < m → m < 100_000_000 → places 8 1 m ≡ 1 + places 11 10 m
unfolding places
places_few m p h = ground arith

digits10-places : (n : ℕ) → n ≤ ullong_max → digits10 n ≡ 1 + places 19 10 n
unfolding digits10
digits10-places n h = elim (Bool-cases (ltb n 1_000_000_000_000)) [
  | inl few ↦ omega (
    tests,
    ladder_below n (digits10_rounds 1 (n / 1_000_000_000_000)) (ltb→lt n _ few),
    places_append n,
    places_below n (ltb→lt n _ few),
  )
  | inr many ↦ omega (
    arith,
    ladder_above n (digits10_rounds 1 (n / 1_000_000_000_000)) (ground arith),
    ladder_below (n / 1_000_000_000_000) 0 (omega arith),
    places_append n,
    places_above n (ground arith),
    places_upper n,
    places_few (n / 1_000_000_000_000) (ground arith) (omega arith),
  )
]

places_split : (n : ℕ) → 100 ≤ n → places 19 10 n ≡ 2 + places 17 1000 n
unfolding places
places_split n h = ground arith

places_end : (m : ℕ) → m < 1_000_000_000_000_000_000 → places 19 10 m ≡ places 17 10 m
unfolding places
places_end m h = ground arith

places_none : (k t n : ℕ) → n < t → places k t n ≡ 0
unfolding places
places_none zero t n h = refl
places_none (suc k) t n h = ground (arith, places_none k (t * 10) n (omega arith))

places_le : (k t n : ℕ) → places k t n ≤ k
unfolding places
places_le zero t n = omega arith
places_le (suc k) t n = ground (arith, places_le k (t * 10) n)

places_two : (n : ℕ) → 10 ≤ n → n < 100 → places 19 10 n ≡ 1
unfolding places
places_two n p h = ground (arith, places_none 18 100 n h)

length-write_digits :
    (f n : ℕ) (out : Bytes)
    → n < f
    → n ≤ ullong_max
    → length (write_digits f n out) ≡ 1 + places 19 10 n + length out
unfolding write_digits
length-write_digits zero n out h fits = absurd (omega arith)
length-write_digits (suc f) n out h fits = ground (
  arith,
  places_none 19 10 n,
  places_two n,
  places_split n,
  places_hundred 17 10 n,
  places_end (n / 100) (omega arith),
  length-write_digits f (n / 100)
      (get_or digits (n % 100 * 2) 0 ∷ get_or digits (n % 100 * 2 + 1) 0 ∷ out),
)

pub length-text_of : (n : ℕ) → n ≤ ullong_max → length (text_of n) ≡ digits10 n
unfolding text_of
length-text_of n h =
    omega (arith, length-write_digits (suc n) n [] (omega arith) h, digits10-places n h)

places_last : (n : ℕ) → n < 10_000_000_000_000_000_000 → places 19 10 n ≡ places 18 10 n
unfolding places
places_last n h = ground arith

-- A `long long` has at most 19 digits.
pub digits10_le : (n : ℕ) → n ≤ llong_max + 1 → digits10 n ≤ 19
digits10_le n h =
    omega (arith, digits10-places n (omega arith), places_last n (omega arith), places_le 18 10 n)
