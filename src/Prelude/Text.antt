-- ===== src/Prelude/Text.antt =====
-- Byte strings (`sds`, `char *`) as lists of numbers, and checks of a small range by evaluation.
use Prim.Native.Char.{code}
use Prim.Native.String.{String}
use prez.Prelude.{
  ℕ, zero, suc, ◌+◌, ◌<◌, ◌≤◌, ◌≡◌, ℕ_discrete, Bool, true, false, ◌&&◌, List, [], ◌∷◌, ◌==◌, arith,
  refl, ◌↔◌,
}

abbrev pub Bytes : Type 0
Bytes = List ℕ

-- The code points of a literal: its bytes, if it is ASCII.
abbrev pub codes : String → Bytes
codes String.[] = []
codes (String.◌∷◌ c s) = code c ∷ codes s

-- A test that passes for `start` and the `count` - 1 numbers behind it.
unfoldable pub passes_from : (ℕ → Bool) → ℕ → ℕ → Bool
passes_from test start zero = true
passes_from test start (suc count) = passes_from test (suc start) count && test start

pub passes_from_lem :
    (test : ℕ → Bool) (start count i : ℕ)
    → start ≤ i
    → i < start + count
    → passes_from test start count ≡ true
    → test i ≡ true
unfolding passes_from
passes_from_lem test start zero i above below pass = absurd (omega arith)
passes_from_lem test start (suc count) i above below pass = elim (ℕ_discrete start i) [
  | yes here ↦ rw (← here) (ground arith)
  | no further ↦ passes_from_lem test (suc start) count i (omega arith) (omega arith) (ground arith)
]

-- Equality of byte strings.
unfoldable pub bytes_eq : Bytes → Bytes → Bool
bytes_eq [] [] = true
bytes_eq [] (b ∷ t) = false
bytes_eq (a ∷ s) [] = false
bytes_eq (a ∷ s) (b ∷ t) = a == b && bytes_eq s t

pub bytes_eq_refl : (s : Bytes) → bytes_eq s s ≡ true
unfolding bytes_eq
bytes_eq_refl [] = refl
bytes_eq_refl (a ∷ s) = ground (arith, bytes_eq_refl s)

pub eq_of_bytes_eq : (s t : Bytes) → bytes_eq s t ≡ true → s ≡ t
unfolding bytes_eq
eq_of_bytes_eq [] [] h = refl
eq_of_bytes_eq [] (b ∷ t) h = cc
eq_of_bytes_eq (a ∷ s) [] h = cc
eq_of_bytes_eq (a ∷ s) (b ∷ t) h = ground (arith, eq_of_bytes_eq s t)

pub bytes_eq_iff : (s t : Bytes) → (bytes_eq s t ≡ true) ↔ (s ≡ t)
bytes_eq_iff s t = (eq_of_bytes_eq s t, λ e. rw e (bytes_eq_refl t))
