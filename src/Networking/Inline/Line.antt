-- ===== src/Networking/Inline/Line.antt =====
-- src/networking.c: processInlineBuffer on a line with its end.
use prez.Prelude.{
  ℕ, suc, ◌+◌, ◌≡◌, ◌≢◌, refl, sym, ap, ◌∙◌, List, [], ◌∷◌, ◌++◌, some, All, length, drop, get_or,
  arith, take-length-append, drop-length-append,
}
use prez.Prelude.Text.{Bytes}
use prez.Sds.SplitArgs.{sdssplitargs}
use prez.Networking.{Client, ok, strchr}
use prez.Networking.Multibulk.Reference.{trimmed-drop, drop-add}
use prez.Networking.Inline.{
  process_inline_buffer, inline_found, inline_line, line_length, nonempty_args,
}

-- A byte of a line.
abbrev pub InLine : ℕ → Type 0
InLine b = (b ≢ 0) × (b ≢ b'\n')

strchr_newline :
    (l more : Bytes) → All InLine l → strchr b'\n' (l ++ b'\n' ∷ more) ≡ some (length l)
unfolding strchr
strchr_newline [] more a = refl
strchr_newline (b ∷ l) more a = rw (strchr_newline l more a.1) (ground arith)

strchr_return :
    (l more : Bytes)
    → All InLine l
    → strchr b'\n' (l ++ b'\r' ∷ b'\n' ∷ more) ≡ some (suc (length l))
unfolding strchr
strchr_return [] more a = refl
strchr_return (b ∷ l) more a = rw (strchr_return l more a.1) (ground arith)

get_or-length : (l : Bytes) (b : ℕ) (more : Bytes) → get_or (l ++ b ∷ more) (length l) 0 ≡ b
get_or-length [] b more = refl
get_or-length (x ∷ l) b more = get_or-length l b more

-- The last byte of a line is no carriage return.
abbrev pub EndsClean : Bytes → Type 0
EndsClean [] = Unit {0}
EndsClean (b ∷ []) = b ≢ b'\r'
EndsClean (b ∷ c ∷ l) = EndsClean (c ∷ l)

last_clean :
    (l : Bytes) (b : ℕ) (more : Bytes)
    → EndsClean (b ∷ l)
    → get_or (b ∷ l ++ more) (length l) 0 ≢ b'\r'
last_clean [] b more e = e
last_clean (c ∷ l) b more e = last_clean l c more e

line_length_bare : (l more : Bytes) → EndsClean l → line_length (l ++ more) (length l) ≡ length l
unfolding line_length
line_length_bare [] more e = refl
line_length_bare (b ∷ l) more e = ground (arith, last_clean l b more e)

line_length_return : (l more : Bytes) → line_length (l ++ b'\r' ∷ more) (suc (length l)) ≡ length l
unfolding line_length
line_length_return l more = rw (get_or-length l b'\r' more) (ground arith)

drop_past : (l more : Bytes) (n : ℕ) → drop (length l + n) (l ++ more) ≡ drop n more
drop_past l more n =
    sym (drop-add (length l) n (l ++ more)) ∙ ap (drop n) (drop-length-append l more)

-- A line is split into its words. Let the buffer have a line without line ends and zero bytes,
-- whose quotes are balanced, ended by a carriage return and a newline. Then processInlineBuffer
-- returns PREZ_OK with those words of the line that are not empty, and the buffer keeps exactly
-- what stands behind the line.
pub process_inline_buffer-sdssplitargs :
    (c : Client) (line rest : Bytes) (args : List Bytes)
    → All InLine line
    → sdssplitargs line ≡ some args
    → process_inline_buffer (record c { querybuf = line ++ b'\r' ∷ b'\n' ∷ rest })
      ≡ ok (record c { querybuf = rest; argv = nonempty_args args })
unfolding process_inline_buffer inline_found inline_line
process_inline_buffer-sdssplitargs c line rest args a words =
    let tail = b'\r' ∷ b'\n' ∷ rest in
    rw
      (
        strchr_return line rest a,
        line_length_return line (b'\n' ∷ rest),
        take-length-append line tail,
        words,
        trimmed-drop (length line + 2) (line ++ tail),
        drop_past line tail 2,
      )
      refl

-- A line that ends with a newline alone costs the next request a byte: processInlineBuffer returns
-- the words of the line, but drops two bytes behind it, so that the buffer loses the first byte of
-- what follows.
pub process_inline_buffer_bare :
    (c : Client) (line rest : Bytes) (args : List Bytes)
    → All InLine line
    → EndsClean line
    → sdssplitargs line ≡ some args
    → process_inline_buffer (record c { querybuf = line ++ b'\n' ∷ rest })
      ≡ ok (record c { querybuf = drop 1 rest; argv = nonempty_args args })
unfolding process_inline_buffer inline_found inline_line
process_inline_buffer_bare c line rest args a clean words =
    let tail = b'\n' ∷ rest in
    rw
      (
        strchr_newline line rest a,
        line_length_bare line tail clean,
        take-length-append line tail,
        words,
        trimmed-drop (length line + 2) (line ++ tail),
        drop_past line tail 2,
      )
      refl
