-- ===== src/Log/Image.antt =====
-- src/log.c: the log file holds the records of the entries in memory, and `position` and
-- `log_current_size` say where in the file they stand.
use native.Mathlib.Nat.{le_refl}
use prez.Prelude.{
  ℕ, zero, suc, ◌+◌, ◌-◌, ◌≡◌, refl, List, [], ◌∷◌, ◌++◌, some, length, get_elem?, take, drop,
  take_all, length-append, take-append-drop, take-length-append, arith, ap, sym, ◌∙◌, append_assoc,
  append-nil,
}
use prez.Prelude.Text.{Bytes}
use prez.Log.{Log, LogEntry, LogEntryNode, Os, append_entry, entry_record, ftruncate}
use prez.Adlist.{list_add_node_tail}
use prez.Log.Write.{cut_at}

unfoldable pub image : List LogEntryNode → Bytes
image [] = []
image (n ∷ ns) = entry_record n.log_entry ++ image ns

-- The entries stand one behind the other from the offset `off` on.
abbrev pub Placed : ℕ → List LogEntryNode → Type 0
Placed off [] = Unit {0}
Placed off (n ∷ ns) = (n.position ≡ off) × Placed (off + length (entry_record n.log_entry)) ns

pub record FileMatches (log : Log) : Type 0 where
  pub content : log.file ≡ image log.log_entries
  pub size : log.log_current_size ≡ length (image log.log_entries)
  pub placed : Placed 0 log.log_entries

image-append : (xs ys : List LogEntryNode) → image (xs ++ ys) ≡ image xs ++ image ys
unfolding image
image-append [] ys = refl
image-append (n ∷ xs) ys =
    rw (image-append xs ys) (sym (append_assoc (entry_record n.log_entry) (image xs) (image ys)))

Placed-append :
    (off : ℕ) (l : List LogEntryNode) (n : LogEntryNode)
    → Placed off l
    → n.position ≡ off + length (image l)
    → Placed off (l ++ n ∷ [])
unfolding image
Placed-append off [] n p h = (omega arith, tt)
Placed-append off (m ∷ l) n p h = (
  p.0,
  Placed-append (off + length (entry_record m.log_entry)) l n p.1
      (h ∙ omega (arith, length-append (entry_record m.log_entry) (image l))),
)

Placed-take : (off n : ℕ) (l : List LogEntryNode) → Placed off l → Placed off (take n l)
Placed-take off zero l p = tt
Placed-take off (suc n) [] p = tt
Placed-take off (suc n) (m ∷ l) p =
    (p.0, Placed-take (off + length (entry_record m.log_entry)) n l p.1)

position-image :
    (off : ℕ) (l : List LogEntryNode) (n : ℕ) (en : LogEntryNode)
    → Placed off l
    → get_elem? l n ≡ some en
    → en.position ≡ off + length (image (take n l))
unfolding image
position-image off [] n en p h = cc
position-image off (m ∷ l) zero en p h = ground arith
position-image off (m ∷ l) (suc n) en p h =
    position-image (off + length (entry_record m.log_entry)) l n en p.1 h
    ∙ omega (arith, length-append (entry_record m.log_entry) (image (take n l)))

ftruncate_prefix : (xs ys : Bytes) (n : ℕ) → n ≡ length xs → ftruncate (xs ++ ys) n ≡ xs
unfolding ftruncate
ftruncate_prefix xs ys n h =
    let short : length xs - length (xs ++ ys) ≡ 0 = omega (arith, length-append xs ys) in
    rw (h, short, take-length-append xs ys) (append-nil xs)

pub cut_at-FileMatches :
    (log : Log) (n : ℕ) (en : LogEntryNode)
    → FileMatches log
    → get_elem? log.log_entries n ≡ some en
    → FileMatches (cut_at log n en)
cut_at-FileMatches log n en f h =
    let l = log.log_entries in
    let at : en.position ≡ length (image (take n l)) =
      position-image 0 l n en f.placed h ∙ omega arith in
    let whole : image l ≡ image (take n l) ++ image (drop n l) =
      ap image (sym (take-append-drop n l)) ∙ image-append (take n l) (drop n l) in
    record {
      content =
          rw (f.content, whole)
            (ftruncate_prefix (image (take n l)) (image (drop n l)) en.position at);
      size = at;
      placed = Placed-take 0 n l f.placed;
    }

module _ (os : Os) (complete : (file buf : Bytes) → os.written file buf ≡ length buf) where
  pub append_entry-FileMatches :
      (log : Log) (e : LogEntry) → FileMatches log → FileMatches (append_entry os log e)
  unfolding append_entry list_add_node_tail image
  append_entry-FileMatches log e f =
      let grown : image
            (log.log_entries ++ record { log_entry = e; position = log.log_current_size } ∷ [])
          ≡ image log.log_entries ++ entry_record e =
        image-append log.log_entries
          (record { log_entry = e; position = log.log_current_size } ∷ [])
        ∙ rw (append-nil (entry_record e)) in
      record {
        content =
            rw
              (
                complete log.file (entry_record e),
                take_all (entry_record e) (length (entry_record e)) (le_refl _),
                f.content,
              )
              (sym grown);
        size =
            rw grown
              (omega (arith, f.size, length-append (image log.log_entries) (entry_record e)));
        placed = Placed-append 0 log.log_entries _ f.placed (f.size ∙ omega arith);
      }
