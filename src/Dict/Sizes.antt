-- ===== src/Dict/Sizes.antt =====
-- src/dict.c: the sizes of tables.
use native.Mathlib.Nat.{mul_assoc, pow-succ'}
use prez.Prelude.{
  ℕ, zero, suc, ◌*◌, ◌^◌, ◌<◌, ◌≤◌, ◌≡◌, ◌⊎◌, refl, sym, ap, ◌∙◌, inl, inr, false, Bool-cases,
  arith, leb,
}
use prez.Dict.{doubled, dict_next_power, initial_size, long_max}

times_power : (i j : ℕ) → i * 2 * 2 ^ j ≡ i * 2 ^ suc j
times_power i j = mul_assoc i 2 (2 ^ j) ∙ ap (λ n. i * n) (sym (pow-succ' 2 j))

-- A first power of two, doubled until it is as large as a number, and not twice as large.
pub record Fits (i n r : ℕ) : Type 0 where
  pub exponent : ℕ
  pub is_power : r ≡ i * 2 ^ exponent
  pub large : n ≤ r
  pub least : (r ≡ i) ⊎ (r < 2 * n)

after : {i n r : ℕ} → i < n → Fits (i * 2) n r → Fits i n r
after {i = i} {n = n} {r = r} above f = record {
  exponent = suc f.exponent;
  is_power = f.is_power ∙ times_power i f.exponent;
  large = f.large;
  least = elim f.least [ inl e ↦ inr (omega arith) | inr l ↦ inr l ];
}

doubled-Fits : (fuel i n : ℕ) → n ≤ i * 2 ^ fuel → Fits i n (doubled fuel i n)
unfolding doubled
doubled-Fits zero i n h = record {
  exponent = 0;
  is_power = omega arith;
  large = omega (arith, h);
  least = inl refl;
}
doubled-Fits (suc fuel) i n h = elim (Bool-cases (leb n i)) [
  | inl fits ↦
      rw fits
        (record { exponent = 0; is_power = omega arith; large = ground arith; least = inl refl })
  | inr small ↦
      let above : i < n = ground arith in
      let power : n ≤ i * 2 * 2 ^ fuel = rw (times_power i fuel) h in
      rw small (after above (doubled-Fits fuel (i * 2) n power))
]

-- The size of a table for a number of entries below LONG_MAX is a power of two, it is enough for
-- them, and it is the initial size or less than twice their number.
pub dict_next_power-Fits : (n : ℕ) → n < long_max → Fits initial_size n (dict_next_power n)
unfolding dict_next_power
dict_next_power-Fits n h =
    let small : leb long_max n ≡ false = ground arith in
    rw small (doubled-Fits 61 initial_size n (omega arith))

pub dict_next_power_pos : (n : ℕ) → 0 < dict_next_power n
unfolding dict_next_power
dict_next_power_pos n = elim (Bool-cases (leb long_max n)) [
  | inl huge ↦ rw huge (omega arith)
  | inr small ↦
      let f = dict_next_power-Fits n (ground arith) in
      elim f.least [ inl e ↦ omega arith | inr l ↦ omega (arith, f.large) ]
]
