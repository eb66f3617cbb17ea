-- ===== src/Sds/SplitArgs.antt =====
-- src/sds.c: is_hex_digit, hex_digit_to_int and sdssplitargs. The line is the text before its
-- terminator, so `*p` behind the last byte is 0, and no byte of the line is 0.
mod Tests
pub mod Repr
use prez.Prelude.{
  ℕ, zero, suc, ◌+◌, ◌-◌, ◌*◌, Bool, true, false, ◌&&◌, ◌||◌, not, List, [], ◌∷◌, ◌++◌, Option,
  none, some, leb, ◌==◌, if◌then◌else◌, length, get_or,
}
use prez.Prelude.Text.{Bytes}

unfoldable pub is_hex_digit : ℕ → Bool
is_hex_digit c =
    (leb b'0' c && leb c b'9') || (leb b'a' c && leb c b'f') || (leb b'A' c && leb c b'F')

unfoldable pub hex_digit_to_int : ℕ → ℕ
hex_digit_to_int c =
    if leb b'0' c && leb c b'9'
    then c - b'0'
    else if leb b'a' c && leb c b'f'
    then c - b'a' + 10
    else if leb b'A' c && leb c b'F'
    then c - b'A' + 10
    else 0

-- isspace(3) in the C locale.
unfoldable pub is_space : ℕ → Bool
is_space c = c == b' ' || (leb 9 c && leb c 13)

-- The switch over the byte behind a backslash.
unfoldable pub unescape : ℕ → ℕ
unescape c =
    if c == b'n'
    then 10
    else if c == b'r'
    then 13
    else if c == b't'
    then 9
    else if c == b'b'
    then 8
    else if c == b'a'
    then 7
    else c

-- Neither inq nor insq, inq, insq.
pub data Mode : Type 0 where
  plain quoted single_quoted : Mode

-- `*(p+1) && !isspace(*(p+1))`: a closing quote followed by anything else is an error.
closes_badly : Bytes → Bool
unfolding is_space
closes_badly [] = false
closes_badly (c ∷ s) = not (is_space c)

-- `*p == '\\' && *(p+1) == 'x' && is_hex_digit(*(p+2)) && is_hex_digit(*(p+3))`, at the bytes
-- behind the backslash.
is_hex_escape : Bytes → Bool
unfolding is_hex_digit
is_hex_escape s =
    get_or s 0 0 == b'x' && (is_hex_digit (get_or s 1 0) && is_hex_digit (get_or s 2 0))

hex_byte : Bytes → ℕ
unfolding hex_digit_to_int
hex_byte s = hex_digit_to_int (get_or s 1 0) * 16 + hex_digit_to_int (get_or s 2 0)

-- The inner loop: the token and the rest of the line, none for unbalanced quotes. The second
-- argument counts the bytes that a round has used ahead of `p`.
unfoldable pub token : Mode → ℕ → Bytes → Bytes → Option (Bytes × Bytes)
unfolding closes_badly is_hex_escape hex_byte unescape
token plain skip [] current = some (current, [])
token quoted skip [] current = none
token single_quoted skip [] current = none
token mode (suc skip) (c ∷ s) current = token mode skip s current
token plain zero (c ∷ s) current =
    let open_double = token quoted zero s current in
    let open_single = token single_quoted zero s current in
    let append = token plain zero s (current ++ c ∷ []) in
    if c == b' ' || c == 10 || c == 13 || c == 9
    then some (current, s)
    else if c == b'"'
    then open_double
    else if c == b'\''
    then open_single
    else append
token quoted zero (c ∷ s) current =
    let hex = token quoted 3 s (current ++ hex_byte s ∷ []) in
    let escaped = token quoted 1 s (current ++ unescape (get_or s 0 0) ∷ []) in
    let append = token quoted zero s (current ++ c ∷ []) in
    if c == b'\\' && is_hex_escape s
    then hex
    else if c == b'\\' && not (length s == 0)
    then escaped
    else if c == b'"'
    then (if closes_badly s then none else some (current, s))
    else append
token single_quoted zero (c ∷ s) current =
    let escaped = token single_quoted 1 s (current ++ b'\'' ∷ []) in
    let append = token single_quoted zero s (current ++ c ∷ []) in
    if c == b'\\' && get_or s 0 0 == b'\''
    then escaped
    else if c == b'\''
    then (if closes_badly s then none else some (current, s))
    else append

unfoldable pub skip_blanks : Bytes → Bytes
unfolding is_space
skip_blanks [] = []
skip_blanks (c ∷ s) = let rest = skip_blanks s in if is_space c then rest else c ∷ s

-- The outer loop. A round uses a byte at least, so the length of the line bounds the rounds.
split_rounds : ℕ → Bytes → List Bytes → Option (List Bytes)
split_rounds zero line vector = none
split_rounds (suc rounds) line vector = elim (skip_blanks line) [
  | [] ↦ some vector
  | c ∷ s ↦ elim (token plain zero (c ∷ s) []) [
    | none ↦ none
    | some found ↦ split_rounds rounds found.1 (vector ++ found.0 ∷ [])
  ]
]

unfoldable pub sdssplitargs : Bytes → Option (List Bytes)
unfolding split_rounds skip_blanks token
sdssplitargs line = split_rounds (suc (length line)) line []
