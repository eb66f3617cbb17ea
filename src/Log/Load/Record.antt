-- ===== src/Log/Load/Record.antt =====
-- src/log.c: loadLogFile reads an entry back from the record that logWriteEntry wrote.
use prez.Prelude.{
  ℕ, suc, ◌+◌, ◌%◌, ◌^◌, ◌≤◌, ◌<◌, ◌≡◌, refl, sym, ap, ◌∙◌, List, [], ◌∷◌, ◌++◌, length, All, arith,
  append_assoc, length-append, append-nil, take-length-append, drop-length-append, take_all,
}
use prez.Prelude.Int.{ℤ, pos}
use prez.Prelude.Text.{Bytes}
use prez.Util.Decimal.{llong_max, text_of, decimal}
use prez.Util.Decimal.RoundTrip.{IsLongLong, string2ll-decimal, length-decimal-le}
use prez.Log.{LogEntry, header, cat_args, cat_log_entry, entry_record}
use prez.Log.Load.{
  done, c_string, c_array, set_field, load_arg, load_args, load_entry, need, allocate, Progress,
  atoi,
}
use prez.Log.Load.Lines.{read_line-header, strtol_line}

-- The record of one argument.
arg_record : Bytes → Bytes
arg_record arg = header b'$' (length arg) ++ (arg ++ b'\r' ∷ b'\n' ∷ [])

arg_record_append :
    (arg s : Bytes) → arg_record arg ++ s ≡ header b'$' (length arg) ++ (arg ++ (b'\r' ∷ b'\n' ∷ s))
unfolding arg_record
arg_record_append arg s = simp append_assoc

length-arg_record :
    (arg : Bytes) → length (arg_record arg) ≡ length arg + length (header b'$' (length arg)) + 2
unfolding arg_record
length-arg_record arg = omega (
  arith,
  length-append (header b'$' (length arg)) (arg ++ b'\r' ∷ b'\n' ∷ []),
  length-append arg (b'\r' ∷ b'\n' ∷ []),
)

need_lem : (len : ℕ) (s : Bytes) → len ≤ length s → need len s ≡ done tt
unfolding need
need_lem len s h = ground arith

allocate_lem : (len : ℕ) → len ≤ llong_max → allocate len ≡ done tt
unfolding allocate
allocate_lem len h = ground arith

-- One round of the loop over the arguments.
load_arg_lem :
    (j : ℕ) (e e' : LogEntry) (loglen : ℕ) (arg s : Bytes)
    → length arg ≤ llong_max
    → set_field j e arg ≡ done e'
    → load_arg j (record { entry = e; loglen = loglen; rest = arg_record arg ++ s })
      ≡ done (record { entry = e'; loglen = loglen + length (arg_record arg); rest = s })
unfolding load_arg
load_arg_lem j e e' loglen arg s h set =
    let tail : Bytes = b'\r' ∷ b'\n' ∷ s in
    let word : length arg % 2 ^ 64 ≡ length arg = omega arith in
    rw
      (
        arg_record_append arg s,
        read_line-header b'$' (length arg) (arg ++ tail) (omega arith) (omega arith) h,
        strtol_line (length arg) h,
        word,
        allocate_lem (length arg) h,
        need_lem (length arg) (arg ++ tail) (omega (arith, length-append arg tail)),
        take-length-append arg tail,
        drop-length-append arg tail,
        set,
        need_lem 2 tail (omega arith),
      )
      (ap (λ k. done (record { entry = e'; loglen = k; rest = s })) size)
  where
    size :
        loglen + (length arg + length (header b'$' (length arg))) + 2
        ≡ loglen + length (arg_record arg)
    size = omega (arith, length-arg_record arg)

-- A text that a char array of 40 bytes holds with its terminator.
abbrev pub IsText : Bytes → Type 0
IsText s = All (λ c. 0 < c) s × (length s < 40)

c_string-append : (s : Bytes) → All (λ c. 0 < c) s → c_string (s ++ 0 ∷ []) ≡ s
unfolding c_string
c_string-append [] a = refl
c_string-append (c ∷ s) a = ground (arith, c_string-append s a.1)

c_array_lem : (s : Bytes) → IsText s → c_array s ≡ s
unfolding c_array
c_array_lem s t =
    rw (take_all (s ++ 0 ∷ []) 40 (omega (arith, length-append s (0 ∷ [])))) (c_string-append s t.0)

-- What the commands of clients give: numbers in range and texts that fit.
pub record Storable (e : LogEntry) : Type 0 where
  pub index_fits : IsLongLong e.index
  pub term_fits : IsLongLong e.term
  pub name_fits : IsText e.command_name
  pub command_fits : IsText e.command

set_index :
    (f : LogEntry) (v : ℤ)
    → IsLongLong v
    → set_field 0 f (decimal v) ≡ done (record f { index = v })
unfolding set_field
set_index f v h = rw (string2ll-decimal v h)

set_term :
    (f : LogEntry) (v : ℤ) → IsLongLong v → set_field 1 f (decimal v) ≡ done (record f { term = v })
unfolding set_field
set_term f v h = rw (string2ll-decimal v h)

set_name :
    (f : LogEntry) (s : Bytes) → IsText s → set_field 2 f s ≡ done (record f { command_name = s })
unfolding set_field
set_name f s t = rw (c_array_lem s t)

set_command :
    (f : LogEntry) (s : Bytes) → IsText s → set_field 3 f s ≡ done (record f { command = s })
unfolding set_field
set_command f s t = rw (c_array_lem s t)

load_args_step :
    (more j : ℕ) (p p' : Progress)
    → load_arg j p ≡ done p'
    → load_args (suc more) j p ≡ load_args more (j + 1) p'
unfolding load_args
load_args_step more j p p' h = rw h

cat_args-cons :
    (arg : Bytes) (argv : List Bytes) (s : Bytes)
    → cat_args (arg ∷ argv) ++ s ≡ arg_record arg ++ (cat_args argv ++ s)
unfolding cat_args arg_record
cat_args-cons arg argv s = simp append_assoc

length-cat_args :
    (arg : Bytes) (argv : List Bytes)
    → length (cat_args (arg ∷ argv)) ≡ length (arg_record arg) + length (cat_args argv)
length-cat_args arg argv =
    ap length (sym (append-nil (cat_args (arg ∷ argv))) ∙ cat_args-cons arg argv [])
    ∙ omega (
      arith,
      length-append (arg_record arg) (cat_args argv ++ []),
      length-append (cat_args argv) [],
    )

load_cons :
    (more j : ℕ) (e e' : LogEntry) (n : ℕ) (arg : Bytes) (argv : List Bytes) (s : Bytes)
    → length arg ≤ llong_max
    → set_field j e arg ≡ done e'
    → load_args (suc more) j (record { entry = e; loglen = n; rest = cat_args (arg ∷ argv) ++ s })
      ≡ load_args more
          (j + 1)
          (record { entry = e'; loglen = n + length (arg_record arg); rest = cat_args argv ++ s })
load_cons more j e e' n arg argv s h set =
    rw (cat_args-cons arg argv s)
      (load_args_step more j _ _ (load_arg_lem j e e' n arg (cat_args argv ++ s) h set))

load_args_end : (j : ℕ) (p : Progress) → load_args 0 j p ≡ done p
unfolding load_args
load_args_end j p = refl

cat_args-nil : cat_args [] ≡ []
unfolding cat_args
cat_args-nil = refl

abbrev args_of : LogEntry → List Bytes
args_of e = decimal e.index ∷ decimal e.term ∷ e.command_name ∷ e.command ∷ []

load_args_record :
    (fresh e : LogEntry) (n : ℕ) (s : Bytes)
    → Storable e
    → load_args 4 0 (record { entry = fresh; loglen = n; rest = cat_args (args_of e) ++ s })
      ≡ done (record { entry = e; loglen = n + length (cat_args (args_of e)); rest = s })
load_args_record fresh e n s st =
    let e1 = record fresh { index = e.index } in
    let e2 = record e1 { term = e.term } in
    let e3 = record e2 { command_name = e.command_name } in
    let n1 = n + length (arg_record (decimal e.index)) in
    let n2 = n1 + length (arg_record (decimal e.term)) in
    let n3 = n2 + length (arg_record e.command_name) in
    load_cons 3 0 fresh e1 n (decimal e.index) _ s
      (omega (arith, length-decimal-le e.index st.index_fits))
      (set_index fresh e.index st.index_fits)
    ∙ load_cons 2 1 e1 e2 n1 (decimal e.term) _ s
        (omega (arith, length-decimal-le e.term st.term_fits)) (set_term e1 e.term st.term_fits)
    ∙ load_cons 1 2 e2 e3 n2 e.command_name _ s (omega arith)
        (set_name e2 e.command_name st.name_fits)
    ∙ load_cons 0 3 e3 e n3 e.command _ s (omega arith) (set_command e3 e.command st.command_fits)
    ∙ load_args_end 4 _
    ∙ rw (cat_args-nil, total)
  where
    total :
        n
          + length (arg_record (decimal e.index))
          + length (arg_record (decimal e.term))
          + length (arg_record e.command_name)
          + length (arg_record e.command)
        ≡ n + length (cat_args (args_of e))
    total = omega (
      arith,
      length-cat_args (decimal e.index) (decimal e.term ∷ e.command_name ∷ e.command ∷ []),
      length-cat_args (decimal e.term) (e.command_name ∷ e.command ∷ []),
      length-cat_args e.command_name (e.command ∷ []),
      length-cat_args e.command [],
      ap length cat_args-nil,
    )

atoi_four : atoi (text_of 4 ++ b'\r' ∷ b'\n' ∷ []) ≡ pos 4
unfolding atoi
atoi_four = rw (strtol_line 4 (omega arith))

entry_record_append :
    (e : LogEntry) (s : Bytes) → entry_record e ++ s ≡ header b'*' 4 ++ (cat_args (args_of e) ++ s)
unfolding entry_record cat_log_entry
entry_record_append e s = append_assoc (header b'*' 4) (cat_args (args_of e)) s

length-entry_record :
    (e : LogEntry)
    → length (header b'*' 4) + length (cat_args (args_of e)) ≡ length (entry_record e)
unfolding entry_record cat_log_entry
length-entry_record e = sym (length-append (header b'*' 4) (cat_args (args_of e)))

-- One entry is read from its record.
pub load_entry_lem :
    (fresh e : LogEntry) (s : Bytes)
    → Storable e
    → load_entry fresh (entry_record e ++ s)
      ≡ done (record { entry = e; loglen = length (entry_record e); rest = s })
unfolding load_entry
load_entry_lem fresh e s st = rw (
  entry_record_append e s,
  read_line-header b'*' 4 (cat_args (args_of e) ++ s) (omega arith) (omega arith) (omega arith),
  atoi_four,
  load_args_record fresh e (length (header b'*' 4)) s st,
  length-entry_record e,
)
