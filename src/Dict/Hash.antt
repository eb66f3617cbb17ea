-- ===== src/Dict/Hash.antt =====
-- src/dict.c and src/prez.c: the hash functions, on 32 bits and with words in little-endian order as
-- their comment assumes, and the types of the dictionaries whose keys are sds strings.
use Prim.Native.Nat.{bit_xor}
use native.Mathlib.Nat.{pow-succ', mod-add-mod, mul-zero, mul-suc, add-mul, mul_assoc}
use prez.Prelude.{
  ℕ, zero, suc, ◌+◌, ◌*◌, ◌/◌, ◌%◌, ◌^◌, ◌<◌, ◌≡◌, refl, ap, ◌∙◌, Bool, true, false, not, [], ◌∷◌,
  length, if◌then◌else◌, arith, ◌==◌,
}
use prez.Prelude.Text.{Bytes, bytes_eq, bytes_eq_refl, eq_of_bytes_eq}
use prez.Cluster.Apply.{to_lower}
use prez.Dict.{DictType}
use prez.Dict.Chains.{Lawful}

abbrev pub to_uint : ℕ → ℕ
to_uint n = n % 2 ^ 32

-- The mixing constant of dictGenHashFunction.
abbrev mixing : ℕ
mixing = 1_540_483_477

abbrev times_mixing : ℕ → ℕ
times_mixing h = to_uint (h * mixing)

abbrev word : ℕ → ℕ → ℕ → ℕ → ℕ
word a b c d = a + b * 2 ^ 8 + c * 2 ^ 16 + d * 2 ^ 24

-- `k *= m; k ^= k >> r; k *= m`.
unfoldable pub mix_word : ℕ → ℕ
mix_word k = let t = times_mixing k in times_mixing (bit_xor t (t / 2 ^ 24))

-- The loop over the words, and the last bytes.
unfoldable pub mix_bytes : Bytes → ℕ → ℕ
unfolding mix_word
mix_bytes [] h = h
mix_bytes (a ∷ []) h = times_mixing (bit_xor h a)
mix_bytes (a ∷ b ∷ []) h = times_mixing (bit_xor (bit_xor h (b * 2 ^ 8)) a)
mix_bytes (a ∷ b ∷ c ∷ []) h =
    times_mixing (bit_xor (bit_xor (bit_xor h (c * 2 ^ 16)) (b * 2 ^ 8)) a)
mix_bytes (a ∷ b ∷ c ∷ d ∷ data_left) h =
    mix_bytes data_left (bit_xor (times_mixing h) (mix_word (word a b c d)))

unfoldable pub dict_gen_hash_function : ℕ → Bytes → ℕ
unfolding mix_bytes
dict_gen_hash_function seed key =
    let h = mix_bytes key (bit_xor seed (to_uint (length key))) in
    let t = times_mixing (bit_xor h (h / 2 ^ 13)) in bit_xor t (t / 2 ^ 15)

-- `hash = ((hash << 5) + hash) + tolower(c)` for each byte.
unfoldable pub case_hash : Bytes → ℕ → ℕ
case_hash [] hash = hash
case_hash (c ∷ buf) hash = case_hash buf (to_uint (to_uint (hash * 2 ^ 5) + hash + to_lower c))

unfoldable pub dict_gen_case_hash_function : ℕ → Bytes → ℕ
unfolding case_hash
dict_gen_case_hash_function seed buf = case_hash buf seed

unfoldable pub dict_sds_key_compare : Bytes → Bytes → Bool
dict_sds_key_compare key1 key2 =
    if not (length key1 == length key2) then false else bytes_eq key1 key2

-- dbDictType: dictSdsHash and dictSdsKeyCompare.
abbrev pub db_dict_type : ℕ → DictType Bytes
db_dict_type seed = record {
  hash_function = dict_gen_hash_function seed;
  key_compare = dict_sds_key_compare;
}

pub compare-eq : (s t : Bytes) → dict_sds_key_compare s t ≡ true → s ≡ t
unfolding dict_sds_key_compare
compare-eq s t h = eq_of_bytes_eq s t (ground arith)

pub compare_self : (s : Bytes) → dict_sds_key_compare s s ≡ true
unfolding dict_sds_key_compare
compare_self s = ground (arith, bytes_eq_refl s)

-- Keys that dictSdsKeyCompare takes for equal are equal, so dictSdsHash gives them one hash.
pub db_dict_type-Lawful : (seed : ℕ) → Lawful (db_dict_type seed)
db_dict_type-Lawful seed = record {
  compare_refl = compare_self;
  compare_sym = λ k l h. rw (compare-eq k l h) (compare_self l);
  compare_trans = λ k l m h g. rw (compare-eq k l h) g;
  hash_same = λ k l h. ap (dict_gen_hash_function seed) (compare-eq k l h);
}

-- The sum of the bytes, in lower case, each times 33 to the number of bytes behind it.
pub power_sum : Bytes → ℕ
power_sum [] = 0
power_sum (c ∷ buf) = to_lower c * 33 ^ length buf + power_sum buf

mod-mul-add : (x p q m : ℕ) → (x % m * p + q) % m ≡ (x * p + q) % m
mod-mul-add x zero q m = rw (mul-zero (x % m), mul-zero x) refl
mod-mul-add x (suc p) q m =
    ap (λ y. y % m) (rw (mul-suc (x % m) p) (omega arith))
    ∙ mod-mul-add x p (x % m + q) m
    ∙ ap (λ y. y % m) (omega arith)
    ∙ mod-add-mod x m (x * p + q)
    ∙ ap (λ y. y % m) (rw (mul-suc x p) (omega arith))

case_hash-power_sum :
    (s : Bytes) (h : ℕ) → h < 2 ^ 32 → case_hash s h ≡ (h * 33 ^ length s + power_sum s) % 2 ^ 32
unfolding case_hash power_sum
case_hash-power_sum [] h small = omega (arith, small)
case_hash-power_sum (c ∷ s) h small =
    let n = to_uint (to_uint (h * 2 ^ 5) + h + to_lower c) in
    let p = 33 ^ length s in
    let x = h * 33 + to_lower c in
    let same : n ≡ x % 2 ^ 32 = omega arith in
    case_hash-power_sum s n (omega arith)
    ∙ ap (λ y. (y * p + power_sum s) % 2 ^ 32) same
    ∙ mod-mul-add x p (power_sum s) (2 ^ 32)
    ∙ ap (λ y. y % 2 ^ 32)
        (rw (pow-succ' 33 (length s), add-mul (h * 33) (to_lower c) p, mul_assoc h 33 p)
          (omega arith))

-- The hash that ignores case is a polynomial in 33: for a 32-bit seed it is, modulo 2^32, the seed
-- times 33 to the length of the key, plus the sum of the bytes in lower case, each times 33 to the
-- number of bytes behind it.
pub dict_gen_case_hash_function-power_sum :
    (seed : ℕ) (buf : Bytes)
    → seed < 2 ^ 32
    → dict_gen_case_hash_function seed buf ≡ (seed * 33 ^ length buf + power_sum buf) % 2 ^ 32
unfolding dict_gen_case_hash_function
dict_gen_case_hash_function-power_sum seed buf small = case_hash-power_sum buf seed small
