-- ===== src/Sds/Buffer.antt =====
-- src/sds.c: the buffers: their bytes and the room behind them. Memory does not run out.
use prez.Prelude.{
  ℕ, zero, suc, ◌+◌, ◌-◌, ◌*◌, ◌≤◌, ◌<◌, ◌≡◌, ◌⊎◌, inl, inr, refl, [], ◌∷◌, ◌++◌, if◌then◌else◌,
  arith, Bool-cases, ltb, leb, ◌==◌, length, take, drop, replicate, length-append, length-drop,
  take_all,
}
use prez.Prelude.Int.{ℤ, pos, negsuc}
use prez.Prelude.Text.{Bytes}

-- struct sdshdr: `len` is the length of the bytes, `avail` is the member `free`.
pub record Sds : Type 0 where
  pub buf : Bytes
  pub avail : ℕ

abbrev pub sds_max_prealloc : ℕ
sds_max_prealloc = 1024 * 1024

unfoldable pub sdsnewlen : Bytes → Sds
sdsnewlen init = record { buf = init; avail = 0 }

unfoldable pub sdsclear : Sds → Sds
sdsclear s = record { buf = []; avail = s.avail + length s.buf }

-- The size that a string of `newlen` bytes is given.
unfoldable pub preallocated : ℕ → ℕ
preallocated newlen = if ltb newlen sds_max_prealloc then newlen * 2 else newlen + sds_max_prealloc

unfoldable pub sds_make_room_for : Sds → ℕ → Sds
unfolding preallocated
sds_make_room_for s addlen =
    if leb addlen s.avail
    then s
    else record s { avail = preallocated (length s.buf + addlen) - length s.buf }

unfoldable pub sds_remove_free_space : Sds → Sds
sds_remove_free_space s = record s { avail = 0 }

-- The header has 8 bytes.
unfoldable pub sds_alloc_size : Sds → ℕ
sds_alloc_size s = 8 + length s.buf + s.avail + 1

unfoldable pub sdsgrowzero : Sds → ℕ → Sds
sdsgrowzero s len =
    let curlen = length s.buf in
    let r = sds_make_room_for s (len - curlen) in
    if leb len curlen
    then s
    else record { buf = r.buf ++ replicate (len - curlen) 0; avail = curlen + r.avail - len }

unfoldable pub sdscatlen : Sds → Bytes → Sds
sdscatlen s t =
    let r = sds_make_room_for s (length t) in
    record { buf = r.buf ++ t; avail = r.avail - length t }

unfoldable pub sdscpylen : Sds → Bytes → Sds
sdscpylen s t =
    let r =
      if ltb (s.avail + length s.buf) (length t)
      then sds_make_room_for s (length t - length s.buf)
      else s in
    record { buf = t; avail = r.avail + length r.buf - length t }

-- An index from the end becomes one from the start, at the least 0.
unfoldable pub from_start : ℕ → ℤ → ℕ
from_start len (pos i) = i
from_start len (negsuc i) = len - suc i

-- How many bytes of `len` the range from `start` to `end` keeps.
unfoldable pub range_length : ℕ → ℕ → ℕ → ℕ
range_length len start end =
    if ltb end start
    then 0
    else if leb len start
    then 0
    else if leb len end
    then (if ltb (len - 1) start then 0 else len - 1 - start + 1)
    else end - start + 1

-- The indices are `int`, the length is one too.
unfoldable pub sdsrange : Sds → ℤ → ℤ → Sds
unfolding from_start range_length
sdsrange s start end =
    let len = length s.buf in
    let first = from_start len start in
    let newlen = range_length len first (from_start len end) in
    if len == 0
    then s
    else record { buf = take newlen (drop first s.buf); avail = s.avail + (len - newlen) }

make_room_lem : (s : Sds) (n : ℕ) → n ≤ (sds_make_room_for s n).avail
unfolding sds_make_room_for preallocated
make_room_lem s n = ground arith

make_room_buf : (s : Sds) (n : ℕ) → (sds_make_room_for s n).buf ≡ s.buf
unfolding sds_make_room_for
make_room_buf s n = ground arith

make_room_avail :
    (s : Sds) (n : ℕ)
    → ((sds_make_room_for s n).avail ≡ s.avail)
      ⊎ ((s.avail < n)
          × ((sds_make_room_for s n).avail ≡ preallocated (length s.buf + n) - length s.buf))
unfolding sds_make_room_for
make_room_avail s n = elim (Bool-cases (leb n s.avail)) [
  | inl fits ↦ inl (rw fits refl)
  | inr full ↦ inr (ground arith, rw full refl)
]

grows : (n : ℕ) → n ≤ preallocated n
unfolding preallocated
grows n = ground arith

-- Appending appends. The bytes of `t` stand behind those of `s`, and the string either has the same
-- memory as before, which had room for them, or has memory of the preallocated size for them, so that
-- as many bytes again, up to a megabyte, fit without another allocation.
pub sdscatlen_lem :
    (s : Sds) (t : Bytes)
    → ((sdscatlen s t).buf ≡ s.buf ++ t)
      × ((sds_alloc_size (sdscatlen s t) ≡ sds_alloc_size s)
          ⊎ ((s.avail < length t)
              × (sds_alloc_size (sdscatlen s t) ≡ 9 + preallocated (length s.buf + length t))))
unfolding sdscatlen sds_alloc_size
sdscatlen_lem s t = (
  rw (make_room_buf s (length t)) refl,
  elim (make_room_avail s (length t)) [
    | inl same ↦ inl (
        rw (make_room_buf s (length t))
          (omega (arith, length-append s.buf t, make_room_lem s (length t))))
    | inr (full, more) ↦ inr (
      full,
      rw (make_room_buf s (length t)) (
          omega (
            arith,
            length-append s.buf t,
            make_room_lem s (length t),
            grows (length s.buf + length t),
          )),
    )
  ],
)

range_length_tail : (len n : ℕ) → 0 < len → n ≤ len → range_length len n (len - 1) ≡ len - n
unfolding range_length
range_length_tail len n p h = ground arith

nothing : (l : Bytes) (n : ℕ) → length l ≡ 0 → l ≡ drop n l
nothing [] zero h = refl
nothing [] (suc n) h = refl
nothing (x ∷ l) n h = absurd (omega arith)

-- What a handler sent is dropped from the front. Let at most as many bytes have been sent as the buffer
-- has. Then sdsrange(s, n, -1) leaves the others in their order, in the same memory.
pub sdsrange-drop :
    (s : Sds) (n : ℕ)
    → n ≤ length s.buf
    → ((sdsrange s (pos n) (negsuc 0)).buf ≡ drop n s.buf)
      × (sds_alloc_size (sdsrange s (pos n) (negsuc 0)) ≡ sds_alloc_size s)
unfolding sdsrange from_start sds_alloc_size
sdsrange-drop s n h = elim (Bool-cases (length s.buf == 0)) [
  | inl empty ↦ rw empty (nothing s.buf n (ground arith), refl)
  | inr some ↦
      let kept = range_length_tail (length s.buf) n (ground arith) h in
      let rest = take_all (drop n s.buf) (length s.buf - n) (omega (arith, length-drop n s.buf)) in
      rw (some, kept, rest) (refl, omega (arith, length-drop n s.buf))
]
