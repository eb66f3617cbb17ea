-- ===== src/Dict/Tests.antt =====
-- src/dict.c: small dictionaries of numbers, one of them in the middle of a move.
use mathlib.Core.Path.{subst}
use prez.Prelude.{
  length, ◌+◌, ◌*◌, ◌%◌, ℕ, ◌^◌, ◌≡◌, refl, sym, ap, true, false, List, [], ◌∷◌, Option, none, some,
  ◌==◌, arith,
}
use prez.Prelude.Text.{codes}
use prez.Cluster.Apply.{to_lower}
use prez.Dict.{
  Chain, lookup, Dict, DictType, is_rehashing, dict_create, dict_rehash, dict_next_power,
  initial_size, dict_reset,
}
use prez.Dict.Operations.{dict_replace}
use prez.Dict.Chains.{Lawful, Distinct}
use prez.Dict.Sizes.{Fits, dict_next_power-Fits}
use prez.Dict.Tables.{look}
use prez.Dict.Valid.{content, Valid, Holds, single, Blank-Sound, reset-Blank}
use prez.Dict.Progress.{Rehashed, dict_rehash-Rehashed}
use prez.Dict.Store.{dict_replace_lem}
use prez.Dict.Hash.{
  dict_gen_hash_function, dict_gen_case_hash_function, power_sum,
  dict_gen_case_hash_function-power_sum,
}
use prez.Dict.Iterator.{DictIterator, dict_get_safe_iterator}
use prez.Dict.Iterator.Walk.{walk}
use prez.Dict.Iterator.Complete.{walk-Complete}
use prez.Dict.Run.{
  Operation, find, add, replace, delete, resize, rehash, found, told, quiet, calls, replies,
  changed_by_all, calls-replies,
}

abbrev numbers : DictType ℕ
numbers = record { hash_function = λ k. k; key_compare = λ k l. k == l }

numbers-Lawful : Lawful numbers
numbers-Lawful = record {
  compare_refl = λ k. ground arith;
  compare_sym = λ k l h. ground arith;
  compare_trans = λ k l m h g. ground arith;
  hash_same = λ k l h. ground arith;
}

abbrev after_call : {A : Type 0} → Dict ℕ ℕ → Option (A × Dict ℕ ℕ) → Dict ℕ ℕ
after_call d none = d
after_call d (some (a, e)) = e

-- Stored with dictReplace, on a dictionary that may grow.
abbrev with_number : Dict ℕ ℕ → ℕ → ℕ → Dict ℕ ℕ
with_number d k v = after_call d (dict_replace numbers true d k v)

with_number-Valid : (d : Dict ℕ ℕ) (k v : ℕ) → Valid numbers d → Valid numbers (with_number d k v)
with_number-Valid d k v h =
    let (e, eq, g) = dict_replace_lem numbers numbers-Lawful true d k v h in
    subst (Valid numbers) (sym (ap (after_call d) eq)) g.valid

abbrev four_numbers : Dict ℕ ℕ
four_numbers = with_number (with_number (with_number (with_number dict_create 1 10) 2 20) 5 50) 8 80

abbrev five_numbers : Dict ℕ ℕ
five_numbers = with_number four_numbers 13 130

create-Valid : Valid numbers (dict_create {K = ℕ} {V = ℕ})
create-Valid =
    (single numbers dict_reset 0 (Blank-Sound numbers dict_reset (reset-Blank ℕ ℕ))).valid

five_numbers-Valid : Valid numbers five_numbers
five_numbers-Valid = with_number-Valid four_numbers 13 130 (
    with_number-Valid (with_number (with_number (with_number dict_create 1 10) 2 20) 5 50) 8 80 (
      with_number-Valid (with_number (with_number dict_create 1 10) 2 20) 5 50 (
        with_number-Valid (with_number dict_create 1 10) 2 20
          (with_number-Valid dict_create 1 10 create-Valid))))

five_numbers_moving : is_rehashing five_numbers ≡ true
unfolding dict_replace
five_numbers_moving = refl

abbrev some_calls : List (Operation ℕ ℕ)
some_calls =
    find 5
    ∷ add 5 51
    ∷ delete 1
    ∷ rehash 2
    ∷ replace 2 21
    ∷ resize
    ∷ add 1 11
    ∷ find 9
    ∷ rehash 100
    ∷ find 13
    ∷ []

five_numbers-replies :
    replies numbers some_calls (content numbers five_numbers)
    ≡ found (some 50)
      ∷ told false
      ∷ told true
      ∷ quiet
      ∷ told false
      ∷ quiet
      ∷ told true
      ∷ found none
      ∷ quiet
      ∷ found (some 130)
      ∷ []
unfolding content dict_replace look
five_numbers-replies = refl

calls-replies_example :
    (e : Dict ℕ ℕ) × (calls numbers true some_calls five_numbers
      ≡ some (replies numbers some_calls (content numbers five_numbers), e))
    × Holds numbers e (changed_by_all numbers some_calls (content numbers five_numbers))
calls-replies_example =
    calls-replies numbers numbers-Lawful true some_calls five_numbers (content numbers five_numbers)
      (record { valid = five_numbers-Valid; holds = λ l. refl })

dict_rehash-Rehashed_example :
    Rehashed numbers numbers-Lawful five_numbers 5 (dict_rehash numbers five_numbers 5)
dict_rehash-Rehashed_example =
    dict_rehash-Rehashed numbers numbers-Lawful five_numbers 5 five_numbers-Valid

dict_next_power-Fits_example : Fits initial_size 1000 (dict_next_power 1000)
dict_next_power-Fits_example = dict_next_power-Fits 1000 (omega arith)

dict_next_power_1000 : dict_next_power 1000 ≡ 1024
unfolding dict_next_power
dict_next_power_1000 = refl

dict_gen_case_hash_function-power_sum_example :
    dict_gen_case_hash_function 5381 (codes "GET")
    ≡ (5381 * 33 ^ 3 + power_sum (codes "GET")) % 2 ^ 32
dict_gen_case_hash_function-power_sum_example =
    dict_gen_case_hash_function-power_sum 5381 (codes "GET") (omega arith)

murmur_of_key : dict_gen_hash_function 5381 (codes "mykey") ≡ 4_132_144_527
unfolding dict_gen_hash_function
murmur_of_key = refl

murmur_with_a_tail : dict_gen_hash_function 5381 (codes "abcdefg") ≡ 3_976_125_357
unfolding dict_gen_hash_function
murmur_with_a_tail = refl

case_hash_of_get : dict_gen_case_hash_function 5381 (codes "GET") ≡ 193_492_613
unfolding dict_gen_case_hash_function to_lower
case_hash_of_get = refl

-- All five, in the middle of the move.
five_numbers_walked :
    (it : DictIterator ℕ ℕ) × (e : Dict ℕ ℕ) × (walk 6 five_numbers dict_get_safe_iterator
      ≡ some (
        record { key = 8; val = 80 }
            ∷ record { key = 5; val = 50 }
            ∷ record { key = 1; val = 10 }
            ∷ record { key = 2; val = 20 }
            ∷ record { key = 13; val = 130 }
            ∷ [],
        it,
        e,
      ))
unfolding walk dict_replace
five_numbers_walked = (_, _, refl)

walk-Complete_example :
    (l : Chain ℕ ℕ) × (it : DictIterator ℕ ℕ) × (e : Dict ℕ ℕ) × (walk
        (five_numbers.ht0.used + five_numbers.ht1.used + 1)
        five_numbers
        dict_get_safe_iterator
      ≡ some (l, it, e))
    × ((k : ℕ) → lookup numbers l k ≡ content numbers five_numbers k)
    × Distinct numbers l
    × (length l ≡ five_numbers.ht0.used + five_numbers.ht1.used)
walk-Complete_example = walk-Complete numbers numbers-Lawful five_numbers true five_numbers-Valid
