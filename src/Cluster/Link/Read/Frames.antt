-- ===== src/Cluster/Link/Read/Frames.antt =====
-- src/cluster.c: clusterReadHandler delivers the same packets however the bytes arrive.
use prez.Prelude.{
  ℕ, suc, ◌-◌, ◌≤◌, ◌<◌, ◌≡◌, inl, inr, refl, sym, ap, ◌∙◌, true, false, ◌||◌, [], ◌∷◌, ◌++◌,
  Option, none, some, if◌then◌else◌, arith, Bool-cases, eq_of_some, dec_lt, ltb, leb, length,
  length-append, append_assoc, get_or-append,
}
use prez.Prelude.Text.{Bytes}
use prez.Cluster.Link.Read.{
  message_length, bad_header, read_length, buffer_size, whole, Reading, reading, closed, died,
  received, processed,
}

pub message_length-append :
    (hdr more : Bytes) → 8 ≤ length hdr → message_length (hdr ++ more) ≡ message_length hdr
unfolding message_length
message_length-append hdr more h =
    rw
      (
        get_or-append hdr more 4 0 (omega arith),
        get_or-append hdr more 5 0 (omega arith),
        get_or-append hdr more 6 0 (omega arith),
        get_or-append hdr more 7 0 (omega arith),
      )
      refl

-- A buffer that the handler leaves: the first eight bytes of a packet, or fewer, or a packet that
-- is not whole.
abbrev pub Partial : Bytes → Type 0
Partial rcvbuf = (leb (length rcvbuf) 8 || ltb (length rcvbuf) (message_length rcvbuf)) ≡ true

-- How much a buffer asks for, in its three states.
pub asked_short :
    (rcvbuf : Bytes) → length rcvbuf < 8 → read_length rcvbuf ≡ some (8 - length rcvbuf)
unfolding read_length
asked_short rcvbuf h = ground arith

-- A packet that is not whole: its length is known, and its header has been looked at.
unfoldable pub asked_of : ℕ → ℕ → ℕ
asked_of len have = if ltb buffer_size (len - have) then buffer_size else len - have

pub asked_long :
    (rcvbuf : Bytes)
    → 8 < length rcvbuf
    → length rcvbuf < message_length rcvbuf
    → read_length rcvbuf ≡ some (asked_of (message_length rcvbuf) (length rcvbuf))
unfolding read_length asked_of
asked_long rcvbuf h l = ground arith

-- With eight bytes the header is looked at, and a good one has a length of 96 at least.
pub good_header :
    (rcvbuf : Bytes) (n : ℕ)
    → 8 ≤ length rcvbuf
    → Partial rcvbuf
    → read_length rcvbuf ≡ some n
    → (length rcvbuf < message_length rcvbuf)
      × (n ≡ asked_of (message_length rcvbuf) (length rcvbuf))
unfolding read_length bad_header asked_of
good_header rcvbuf n h p e = (ground arith, ground arith)

pub asked_positive : (rcvbuf : Bytes) (n : ℕ) → Partial rcvbuf → read_length rcvbuf ≡ some n → 0 < n
asked_positive rcvbuf n p e = elim (dec_lt (length rcvbuf) 8) [
  | yes h ↦ omega (arith, eq_of_some (sym e ∙ asked_short rcvbuf h))
  | no h ↦
      let (inside, same) = good_header rcvbuf n (omega arith) p e in unfold asked_of in ground arith
]

pub not_whole : (rcvbuf : Bytes) → length rcvbuf < 8 → whole rcvbuf ≡ false
unfolding whole
not_whole rcvbuf h = ground arith

pub not_whole_long : (rcvbuf : Bytes) → length rcvbuf < message_length rcvbuf → whole rcvbuf ≡ false
unfolding whole
not_whole_long rcvbuf h = ground arith

asked_next :
    (len have n : ℕ)
    → suc (suc n) ≤ asked_of len have
    → (suc have < len) × (suc n ≤ asked_of len (suc have))
unfolding asked_of
asked_next len have n h = (ground arith, ground arith)

-- Bytes within the length that was asked for do not complete a packet before the last.
pub record Room (rcvbuf : Bytes) (len : ℕ) : Type 0 where
  pub partial : Partial rcvbuf
  pub room : ℕ
  pub asked : read_length rcvbuf ≡ some room
  pub enough : len ≤ room

pub length-snoc : (l : Bytes) (b : ℕ) → length (l ++ b ∷ []) ≡ suc (length l)
length-snoc l b = omega (arith, length-append l (b ∷ []))

Room-next :
    (rcvbuf : Bytes) (b len : ℕ)
    → Room rcvbuf (suc (suc len))
    → (whole (rcvbuf ++ b ∷ []) ≡ false) × Room (rcvbuf ++ b ∷ []) (suc len)
Room-next rcvbuf b len r = elim (dec_lt (length rcvbuf) 8) [
  | yes h ↦
      let n : r.room ≡ 8 - length rcvbuf = eq_of_some (sym r.asked ∙ asked_short rcvbuf h) in
      let short : length (rcvbuf ++ b ∷ []) < 8 =
        omega (arith, length-snoc rcvbuf b, n, r.enough) in
      (
        not_whole _ short,
        record {
          partial = ground arith;
          room = 8 - length (rcvbuf ++ b ∷ []);
          asked = asked_short _ short;
          enough = omega (arith, length-snoc rcvbuf b, n, r.enough);
        },
      )
  | no h ↦
      let (inside, n) = good_header rcvbuf r.room (omega arith) r.partial r.asked in
      let same = message_length-append rcvbuf (b ∷ []) (omega arith) in
      let (below, enough) =
        asked_next (message_length rcvbuf) (length rcvbuf) len (omega (arith, n, r.enough)) in
      let long : length (rcvbuf ++ b ∷ []) < message_length (rcvbuf ++ b ∷ []) =
        omega (arith, length-snoc rcvbuf b, same, below) in
      (
        not_whole_long _ long,
        record {
          partial = ground arith;
          room = asked_of (message_length (rcvbuf ++ b ∷ [])) (length (rcvbuf ++ b ∷ []));
          asked = asked_long _ (omega (arith, length-snoc rcvbuf b)) long;
          enough = rw (same, length-snoc rcvbuf b) enough;
        },
      )
]

asked_within : (len have : ℕ) → asked_of len have ≤ len - have
unfolding asked_of
asked_within len have = ground arith

whole_or_below :
    (rcvbuf : Bytes) → length rcvbuf ≤ message_length rcvbuf → whole rcvbuf ≡ false → Partial rcvbuf
unfolding whole
whole_or_below rcvbuf h part = ground arith

still-Partial :
    (rcvbuf bytes : Bytes)
    → Room rcvbuf (length bytes)
    → whole (rcvbuf ++ bytes) ≡ false
    → Partial (rcvbuf ++ bytes)
still-Partial rcvbuf bytes r part = elim (dec_lt (length rcvbuf) 8) [
  | yes h ↦
      let n : r.room ≡ 8 - length rcvbuf = eq_of_some (sym r.asked ∙ asked_short rcvbuf h) in
      let short : length (rcvbuf ++ bytes) ≤ 8 =
        omega (arith, length-append rcvbuf bytes, n, r.enough) in
      ground arith
  | no h ↦
      let (inside, n) = good_header rcvbuf r.room (omega arith) r.partial r.asked in
      let same = message_length-append rcvbuf bytes (omega arith) in
      let below = asked_within (message_length rcvbuf) (length rcvbuf) in
      let most : length (rcvbuf ++ bytes) ≤ message_length (rcvbuf ++ bytes) =
        omega (arith, length-append rcvbuf bytes, same, below, n, r.enough, inside) in
      whole_or_below (rcvbuf ++ bytes) most part
]

module _ {S : Type 0} (process : Bytes → S → Option S) where
  -- A byte after the other.
  unfoldable pub fed : ℕ → Bytes → S → Option ℕ → Reading S
  fed b rcvbuf s none = closed s
  fed b rcvbuf s (some n) = received process (rcvbuf ++ b ∷ []) s

  unfoldable pub feed : Reading S → ℕ → Reading S
  unfolding fed
  feed (reading rcvbuf s) b = fed b rcvbuf s (read_length rcvbuf)
  feed (closed s) b = closed s
  feed died b = died

  unfoldable pub feed_all : Reading S → Bytes → Reading S
  unfolding feed
  feed_all r [] = r
  feed_all r (b ∷ bytes) = feed_all (feed r b) bytes

  -- A state that the handler leaves.
  abbrev pub Between : Reading S → Type 0
  Between (reading rcvbuf s) = Partial rcvbuf
  Between (closed s) = Unit {0}
  Between died = Unit {0}

  pub feed_reading :
      (rcvbuf : Bytes) (s : S) (b n : ℕ)
      → read_length rcvbuf ≡ some n
      → feed (reading rcvbuf s) b ≡ received process (rcvbuf ++ b ∷ []) s
  unfolding feed fed
  feed_reading rcvbuf s b n e = rw e refl

  pub received_part :
      (rcvbuf : Bytes) (s : S) → whole rcvbuf ≡ false → received process rcvbuf s ≡ reading rcvbuf s
  unfolding received
  received_part rcvbuf s h = rw h refl

  -- A chunk within the length that was asked for, as one read takes it, is its bytes one after the
  -- other.
  pub feed_all_chunk :
      (bytes rcvbuf : Bytes) (b : ℕ) (s : S)
      → Room rcvbuf (suc (length bytes))
      → feed_all (reading rcvbuf s) (b ∷ bytes) ≡ received process (rcvbuf ++ b ∷ bytes) s
  unfolding feed_all
  feed_all_chunk [] rcvbuf b s r = feed_reading rcvbuf s b r.room r.asked
  feed_all_chunk (c ∷ bytes) rcvbuf b s r =
      let (part, next) = Room-next rcvbuf b (length bytes) r in
      ap (λ q. feed_all q (c ∷ bytes))
        (feed_reading rcvbuf s b r.room r.asked ∙ received_part (rcvbuf ++ b ∷ []) s part)
      ∙ feed_all_chunk bytes (rcvbuf ++ b ∷ []) c s next
      ∙ ap (λ q. received process q s) (append_assoc rcvbuf (b ∷ []) (c ∷ bytes))

  pub feed_all-append :
      (r : Reading S) (xs ys : Bytes) → feed_all r (xs ++ ys) ≡ feed_all (feed_all r xs) ys
  unfolding feed_all
  feed_all-append r [] ys = refl
  feed_all-append r (x ∷ xs) ys = feed_all-append (feed r x) xs ys

  -- What a read leaves in the buffer is partial again.
  processed-Between : (o : Option S) → Between (processed process o)
  unfolding processed
  processed-Between none = tt
  processed-Between (some s) = refl

  pub received-Between :
      (rcvbuf : Bytes) (bytes : Bytes) (s : S)
      → Room rcvbuf (length bytes)
      → Between (received process (rcvbuf ++ bytes) s)
  unfolding received
  received-Between rcvbuf bytes s r = elim (Bool-cases (whole (rcvbuf ++ bytes))) [
    | inl complete ↦ rw complete (processed-Between (process (rcvbuf ++ bytes) s))
    | inr part ↦ rw part (still-Partial rcvbuf bytes r part)
  ]
