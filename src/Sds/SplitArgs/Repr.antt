-- ===== src/Sds/SplitArgs/Repr.antt =====
-- src/sds.c: sdscatrepr, and sdssplitargs as its inverse.
use prez.Prelude.{
  ℕ, zero, ◌+◌, ◌-◌, ◌*◌, ◌/◌, ◌%◌, ◌<◌, ◌≡◌, inl, inr, refl, sym, ap, ◌∙◌, Bool, true, false, ◌&&◌,
  ◌||◌, [], ◌∷◌, ◌++◌, some, All, ltb, leb, ◌==◌, if◌then◌else◌, arith, Bool-cases, append_assoc,
  append-nil,
}
use prez.Prelude.Text.{Bytes, passes_from, passes_from_lem}
use prez.Sds.Buffer.{Sds, sdscatlen, sdscatlen_lem, sdsnewlen}
use prez.Sds.SplitArgs.{
  is_hex_digit, hex_digit_to_int, is_hex_escape, hex_byte, unescape, closes_badly, token, plain,
  quoted, skip_blanks, split_rounds, sdssplitargs,
}

-- isprint(3) in the C locale.
unfoldable pub is_print : ℕ → Bool
is_print c = leb 32 c && leb c 126

-- A digit of the conversion `x`.
unfoldable pub hex_digit : ℕ → ℕ
hex_digit d = if ltb d 10 then b'0' + d else b'a' + (d - 10)

-- What the switch appends for a byte.
unfoldable pub escaped : ℕ → Bytes
unfolding is_print hex_digit
escaped c =
    if c == b'\\' || c == b'"'
    then b'\\' ∷ c ∷ []
    else if c == 10
    then b'\\' ∷ b'n' ∷ []
    else if c == 13
    then b'\\' ∷ b'r' ∷ []
    else if c == 9
    then b'\\' ∷ b't' ∷ []
    else if c == 7
    then b'\\' ∷ b'a' ∷ []
    else if c == 8
    then b'\\' ∷ b'b' ∷ []
    else if is_print c
    then c ∷ []
    else b'\\' ∷ b'x' ∷ hex_digit (c / 16) ∷ hex_digit (c % 16) ∷ []

unfoldable pub repr_bytes : Sds → Bytes → Sds
unfolding escaped
repr_bytes s [] = s
repr_bytes s (c ∷ p) = repr_bytes (sdscatlen s (escaped c)) p

unfoldable pub sdscatrepr : Sds → Bytes → Sds
unfolding repr_bytes
sdscatrepr s p = sdscatlen (repr_bytes (sdscatlen s (b'"' ∷ [])) p) (b'"' ∷ [])

hex_reads : ℕ → Bool
unfolding is_hex_digit hex_digit_to_int hex_digit
hex_reads c =
    is_hex_digit (hex_digit (c / 16))
    && (is_hex_digit (hex_digit (c % 16))
        && hex_digit_to_int (hex_digit (c / 16)) * 16 + hex_digit_to_int (hex_digit (c % 16)) == c)

all_read : passes_from hex_reads 0 256 ≡ true
unfolding passes_from hex_reads
all_read = refl

hex_pair : (c : ℕ) → c < 256 → hex_reads c ≡ true
hex_pair c h = passes_from_lem hex_reads 0 256 c (omega arith) (omega arith) all_read

-- A backslash and a byte that is no x.
token_escape :
    (name c : ℕ) (more current : Bytes)
    → (name == b'x') ≡ false
    → unescape name ≡ c
    → token quoted zero (b'\\' ∷ name ∷ more) current ≡ token quoted zero more (current ++ c ∷ [])
unfolding token is_hex_escape
token_escape name c more current h e = rw (h, ← e) (ground arith)

hex_parts :
    (c : ℕ)
    → c < 256
    → (is_hex_digit (hex_digit (c / 16)) ≡ true)
      × (is_hex_digit (hex_digit (c % 16)) ≡ true)
      × (hex_digit_to_int (hex_digit (c / 16)) * 16 + hex_digit_to_int (hex_digit (c % 16)) ≡ c)
unfolding hex_reads
hex_parts c h = ground (arith, hex_pair c h)

token_hex :
    (hi lo : ℕ) (more current : Bytes)
    → is_hex_digit hi ≡ true
    → is_hex_digit lo ≡ true
    → token quoted zero (b'\\' ∷ b'x' ∷ hi ∷ lo ∷ more) current
      ≡ token quoted zero more (current ++ (hex_digit_to_int hi * 16 + hex_digit_to_int lo) ∷ [])
unfolding token is_hex_escape hex_byte
token_hex hi lo more current a b = rw (a, b) refl

token_print :
    (c : ℕ) (more current : Bytes)
    → (c == b'\\') ≡ false
    → (c == b'"') ≡ false
    → token quoted zero (c ∷ more) current ≡ token quoted zero more (current ++ c ∷ [])
unfolding token
token_print c more current a b = rw (a, b) refl

-- The escapes that are no hexadecimal numbers.
data EscapeCases (c : ℕ) : Type 0 where
  named :
      (name : ℕ)
      → (name == b'x') ≡ false
      → unescape name ≡ c
      → escaped c ≡ b'\\' ∷ name ∷ []
      → EscapeCases c
  printed : (c == b'\\') ≡ false → (c == b'"') ≡ false → escaped c ≡ c ∷ [] → EscapeCases c
  hexed : escaped c ≡ b'\\' ∷ b'x' ∷ hex_digit (c / 16) ∷ hex_digit (c % 16) ∷ [] → EscapeCases c

escaped-cases : (c : ℕ) → EscapeCases c
unfolding escaped unescape
escaped-cases c = elim (Bool-cases (c == b'\\' || c == b'"')) [
  | inl special ↦ named c (ground arith) (ground arith) (rw special refl)
  | inr a ↦ elim (Bool-cases (c == 10)) [
    | inl e ↦ named b'n' refl (ground arith) (rw (a, e) refl)
    | inr b ↦ elim (Bool-cases (c == 13)) [
      | inl e ↦ named b'r' refl (ground arith) (rw (a, b, e) refl)
      | inr d ↦ elim (Bool-cases (c == 9)) [
        | inl e ↦ named b't' refl (ground arith) (rw (a, b, d, e) refl)
        | inr f ↦ elim (Bool-cases (c == 7)) [
          | inl e ↦ named b'a' refl (ground arith) (rw (a, b, d, f, e) refl)
          | inr g ↦ elim (Bool-cases (c == 8)) [
            | inl e ↦ named b'b' refl (ground arith) (rw (a, b, d, f, g, e) refl)
            | inr k ↦ elim (Bool-cases (is_print c)) [
              | inl e ↦ printed (ground arith) (ground arith) (rw (a, b, d, f, g, k, e) refl)
              | inr e ↦ hexed (rw (a, b, d, f, g, k, e) refl)
            ]
          ]
        ]
      ]
    ]
  ]
]

-- The bytes of an escape are read back as the byte.
token-escaped :
    (c : ℕ) (more current : Bytes)
    → c < 256
    → token quoted zero (escaped c ++ more) current ≡ token quoted zero more (current ++ c ∷ [])
token-escaped c more current h = elim (escaped-cases c) [
  | named name x e shape ↦ rw shape (token_escape name c more current x e)
  | printed a b shape ↦ rw shape (token_print c more current a b)
  | hexed shape ↦
      let (hi, lo, value) = hex_parts c h in
      rw shape
        (token_hex (hex_digit (c / 16)) (hex_digit (c % 16)) more current hi lo ∙ rw value refl)
]

escapes : Bytes → Bytes
escapes [] = []
escapes (c ∷ p) = escaped c ++ escapes p

repr_bytes-escapes : (s : Sds) (p : Bytes) → (repr_bytes s p).buf ≡ s.buf ++ escapes p
unfolding repr_bytes escapes
repr_bytes-escapes s [] = sym (append-nil s.buf)
repr_bytes-escapes s (c ∷ p) =
    repr_bytes-escapes (sdscatlen s (escaped c)) p
    ∙ rw ((sdscatlen_lem s (escaped c)).0) (append_assoc s.buf (escaped c) (escapes p))

token-escapes :
    (p rest current : Bytes)
    → All (λ c. c < 256) p
    → token quoted zero (escapes p ++ rest) current ≡ token quoted zero rest (current ++ p)
unfolding escapes
token-escapes [] rest current a = rw (append-nil current) refl
token-escapes (c ∷ p) rest current a =
    rw
      (
        append_assoc (escaped c) (escapes p) rest,
        token-escaped c (escapes p ++ rest) current a.0,
        token-escapes p rest (current ++ c ∷ []) a.1,
        append_assoc current (c ∷ []) p,
      )
      refl

closing : (p : Bytes) → token quoted zero (b'"' ∷ []) p ≡ some (p, [])
unfolding token closes_badly
closing p = refl

sdscatrepr-text : (p : Bytes) → (sdscatrepr (sdsnewlen []) p).buf ≡ b'"' ∷ escapes p ++ b'"' ∷ []
unfolding sdscatrepr sdsnewlen
sdscatrepr-text p =
    let first = sdscatlen (sdsnewlen []) (b'"' ∷ []) in
    (sdscatlen_lem (repr_bytes first p) (b'"' ∷ [])).0
    ∙ rw (repr_bytes-escapes first p, (sdscatlen_lem (sdsnewlen []) (b'"' ∷ [])).0) refl

one_word :
    (body p : Bytes)
    → token quoted zero body [] ≡ some (p, [])
    → sdssplitargs (b'"' ∷ body) ≡ some (p ∷ [])
unfolding sdssplitargs split_rounds skip_blanks
one_word body p h =
    let opened : token plain zero (b'"' ∷ body) [] ≡ some (p, []) = unfold token in h in
    rw (split_rounds, opened) refl

-- An option of the command line is one word again. Whatever bytes a string has, sdssplitargs splits
-- the text that sdscatrepr makes of it into the string alone.
pub sdssplitargs-sdscatrepr :
    (p : Bytes)
    → All (λ c. c < 256) p
    → sdssplitargs (sdscatrepr (sdsnewlen []) p).buf ≡ some (p ∷ [])
sdssplitargs-sdscatrepr p a =
    let read : token quoted zero (escapes p ++ b'"' ∷ []) [] ≡ some (p, []) =
      token-escapes p (b'"' ∷ []) [] a ∙ closing p in
    ap sdssplitargs (sdscatrepr-text p) ∙ one_word (escapes p ++ b'"' ∷ []) p read
