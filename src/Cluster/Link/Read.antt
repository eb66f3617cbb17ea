-- ===== src/Cluster/Link/Read.antt =====
-- src/cluster.c: clusterReadHandler: how the bytes of a link become packets.
pub mod Frames
pub mod Deliver
pub mod Drain
mod Tests
use Prim.Native.Nat.{min}
use prez.Prelude.{
  ℕ, zero, suc, ◌+◌, ◌-◌, ◌*◌, ◌^◌, ◌≤◌, ◌<◌, ◌≡◌, ◌⊎◌, inl, inr, refl, sym, ap, ◌∙◌, Bool, true,
  false, ◌&&◌, ◌||◌, not, List, [], ◌∷◌, ◌++◌, Option, none, some, if◌then◌else◌, arith, Bool-cases,
  ltb, leb, ◌==◌, length, length-append, take, drop, take-append-drop, get_or, append_assoc,
  append-nil, length-take,
}
use prez.Prelude.Text.{Bytes, bytes_eq, codes}
use prez.Cluster.Message.{header_size, append_entries_size}

-- ntohl of the four bytes behind the signature.
unfoldable pub message_length : Bytes → ℕ
message_length hdr =
    get_or hdr 4 0 * 2 ^ 24 + get_or hdr 5 0 * 2 ^ 16 + get_or hdr 6 0 * 2 ^ 8 + get_or hdr 7 0

-- sizeof(clusterMsg).
abbrev pub buffer_size : ℕ
buffer_size = header_size + append_entries_size

unfoldable pub bad_header : Bytes → Bool
bad_header hdr = not (bytes_eq (take 4 hdr) (codes "RCmb")) || ltb (message_length hdr) header_size

-- How many bytes the next read(2) may take; none is a header that is refused. A difference that is
-- negative as an `int` is above sizeof(buf) where it is compared as a `size_t`.
unfoldable pub read_length : Bytes → Option ℕ
read_length rcvbuf =
    if ltb (length rcvbuf) 8
    then some (8 - length rcvbuf)
    else if length rcvbuf == 8 && bad_header rcvbuf
    then none
    else some (
        if ltb (message_length rcvbuf) (length rcvbuf)
          || ltb buffer_size (message_length rcvbuf - length rcvbuf)
        then buffer_size
        else message_length rcvbuf - length rcvbuf)

-- A link that stays open, with its receive buffer; one that is freed; and a process that died.
pub data Reading (S : Type 0) : Type 0 where
  reading : Bytes → S → Reading S
  closed : S → Reading S
  died : Reading S

unfoldable pub whole : Bytes → Bool
whole rcvbuf = leb 8 (length rcvbuf) && length rcvbuf == message_length rcvbuf

module _ {S : Type 0} (process : Bytes → S → Option S) where
  -- clusterProcessPacket always returns 1.
  unfoldable pub processed : Option S → Reading S
  processed none = died
  processed (some s) = reading [] s

  unfoldable pub received : Bytes → S → Reading S
  unfolding processed
  received rcvbuf s = if whole rcvbuf then processed (process rcvbuf s) else reading rcvbuf s

  -- One read(2) of `input`, which the system hands over as far as it is ready: the number is what it is
  -- ready for, none an error or the end of the connection. Nothing handed over is EAGAIN.
  unfoldable pub after_read : Option ℕ → Bytes → Bytes → S → Option ℕ → Reading S × Bytes
  unfolding received
  after_read ready input rcvbuf s none = (closed s, input)
  after_read none input rcvbuf s (some readlen) = (closed s, input)
  after_read (some n) input rcvbuf s (some readlen) =
      let nread = min n (min readlen (length input)) in
      if nread == 0
      then (reading rcvbuf s, input)
      else (received (rcvbuf ++ take nread input) s, drop nread input)

  unfoldable pub read_once : Option ℕ → Reading S → Bytes → Reading S × Bytes
  unfolding after_read
  read_once ready (reading rcvbuf s) input = after_read ready input rcvbuf s (read_length rcvbuf)
  read_once ready (closed s) input = (closed s, input)
  read_once ready died input = (died, input)

  -- The test of the header comes before the read that finds nothing.
  unfoldable pub settled : Reading S → Reading S
  settled (reading rcvbuf s) = elim (read_length rcvbuf) [
    | none ↦ closed s
    | some n ↦ reading rcvbuf s
  ]
  settled (closed s) = closed s
  settled died = died

  -- The loop of the handler, over one call or several; what it leaves of the input is in the socket.
  unfoldable pub cluster_read_handler : List (Option ℕ) → Reading S → Bytes → Reading S × Bytes
  unfolding read_once settled
  cluster_read_handler [] r input = (settled r, input)
  cluster_read_handler (ready ∷ more) r input =
      let once = read_once ready r input in cluster_read_handler more once.0 once.1
