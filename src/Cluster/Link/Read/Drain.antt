-- ===== src/Cluster/Link/Read/Drain.antt =====
-- src/cluster.c: clusterReadHandler called until the socket is empty.
use Prim.Native.Nat.{min}
use prez.Prelude.{
  ℕ, suc, ◌-◌, ◌≤◌, ◌<◌, ◌≡◌, ◌≢◌, inl, inr, refl, sym, ap, ◌∙◌, false, List, [], ◌∷◌, ◌++◌, Option,
  none, some, map, All, arith, Option-cases, ◌==◌, length, length-take, length-drop, take, drop,
  take-append-drop,
}
use prez.Prelude.Text.{Bytes}
use prez.Cluster.Link.Read.{
  read_length, Reading, reading, closed, died, received, processed, after_read, read_once, settled,
  cluster_read_handler,
}
use prez.Cluster.Link.Read.Frames.{
  Partial, Room, Between, feed, fed, feed_all, feed_all_chunk, feed_all-append, received-Between,
  asked_positive,
}
use prez.Cluster.Link.Read.Deliver.{
  Packet, deliver, stream, feed_all-stream, feed_all_died, feed_all_closed,
}

-- The system has at least one byte ready whenever it is asked.
abbrev pub Ready : List ℕ → Type 0
Ready = All (λ n. 0 < n)

min_le_left : (m n : ℕ) → min m n ≤ m
min_le_left m n = omega arith

-- What one read takes.
abbrev share : ℕ → ℕ → ℕ → ℕ
share m n size = min m (min n size)

share-bounds :
    (m n size : ℕ)
    → 0 < m
    → 0 < n
    → (share m n (suc size) ≡ suc (share (m - 1) (n - 1) size))
      × (share (m - 1) (n - 1) size < n)
      × (share (m - 1) (n - 1) size ≤ size)
share-bounds m n size hm hn = (omega arith, omega arith, omega arith)

some_left : (k : ℕ) → (suc k == 0) ≡ false
some_left k = ground arith

module _ {S : Type 0} (process : Bytes → S → Option S) where
  idle_once :
      (m n : ℕ) (q : Bytes) (t : S)
      → read_length q ≡ some n
      → read_once process (some m) (reading q t) [] ≡ (reading q t, [])
  unfolding read_once after_read
  idle_once m n q t e = rw e (ground arith)

  settled-asking :
      (q : Bytes) (t : S) (n : ℕ)
      → read_length q ≡ some n
      → settled process (reading q t) ≡ reading q t
  unfolding settled
  settled-asking q t n e = rw (settled, e) refl

  idle :
      (ready : List ℕ) (q : Bytes) (t : S) (n : ℕ)
      → read_length q ≡ some n
      → cluster_read_handler process (map some ready) (reading q t) [] ≡ (reading q t, [])
  unfolding cluster_read_handler
  idle [] q t n e = ap (λ r. (r, [])) (settled-asking q t n e)
  idle (m ∷ ready) q t n e =
      ap (λ once. cluster_read_handler process (map some ready) once.0 once.1) (idle_once m n q t e)
      ∙ idle ready q t n e

  -- One read takes the next bytes of the input.
  took :
      (k m n b : ℕ) (rcvbuf more : Bytes) (s : S)
      → read_length rcvbuf ≡ some n
      → share m n (suc (length more)) ≡ suc k
      → read_once process (some m) (reading rcvbuf s) (b ∷ more)
        ≡ (received process (rcvbuf ++ b ∷ take k more) s, drop k more)
  unfolding read_once after_read
  took k m n b rcvbuf more s e h = rw (e, h, some_left k) refl

  -- A read that asks for something takes something, and the state is the bytes' one after the other.
  progress :
      (m n b : ℕ) (rcvbuf more : Bytes) (s : S)
      → 0 < m
      → Partial rcvbuf
      → read_length rcvbuf ≡ some n
      → (k : ℕ) × (k ≤ length more)
        × (read_once process (some m) (reading rcvbuf s) (b ∷ more)
            ≡ (feed_all process (reading rcvbuf s) (b ∷ take k more), drop k more))
        × Between process (feed_all process (reading rcvbuf s) (b ∷ take k more))
  progress m n b rcvbuf more s hm p e =
      let (same, below, within) = share-bounds m n (length more) hm (asked_positive rcvbuf n p e) in
      let k = share (m - 1) (n - 1) (length more) in
      let room : Room rcvbuf (suc (length (take k more))) = record {
        partial = p;
        room = n;
        asked = e;
        enough = omega (arith, below, length-take k more);
      } in
      let all = feed_all_chunk process (take k more) rcvbuf b s room in
      (
        k,
        within,
        took k m n b rcvbuf more s e same ∙ ap (λ r. (r, drop k more)) (sym all),
        rw all (received-Between process rcvbuf (b ∷ take k more) s room),
      )

  not_closed : (bytes q : Bytes) (s t : S) → feed_all process (closed s) bytes ≢ reading q t
  not_closed bytes q s t h = cc (feed_all_closed process bytes s, h)

  not_died : (bytes q : Bytes) (t : S) → feed_all process died bytes ≢ reading q t
  not_died bytes q t h = cc (feed_all_died process bytes, h)

  refused :
      (rcvbuf more q : Bytes) (b : ℕ) (s t : S)
      → read_length rcvbuf ≡ none
      → feed_all process (reading rcvbuf s) (b ∷ more) ≢ reading q t
  unfolding feed_all feed
  refused rcvbuf more q b s t h f =
      not_closed more q s t (ap (λ o. feed_all process (fed process b rcvbuf s o) more) (sym h) ∙ f)

  pub drained :
      (ready : List ℕ) (r : Reading S) (input q : Bytes) (t : S) (n : ℕ)
      → Ready ready
      → length input ≤ length ready
      → Between process r
      → feed_all process r input ≡ reading q t
      → read_length q ≡ some n
      → cluster_read_handler process (map some ready) r input ≡ (reading q t, [])
  unfolding cluster_read_handler
  drained ready (closed s) input q t n hr hl p f e = absurd (not_closed input q s t f)
  drained ready died input q t n hr hl p f e = absurd (not_died input q t f)
  drained ready (reading rcvbuf s) [] q t n hr hl p f e =
      let f' : reading rcvbuf s ≡ reading q t = unfold feed_all in f in
      ap (λ r. cluster_read_handler process (map some ready) r []) f' ∙ idle ready q t n e
  drained [] (reading rcvbuf s) (b ∷ more) q t n hr hl p f e = absurd (omega arith)
  drained (m ∷ ready) (reading rcvbuf s) (b ∷ more) q t n hr hl p f e =
      elim (Option-cases (read_length rcvbuf)) [
        | inl no_more ↦ absurd (refused rcvbuf more q b s t no_more f)
        | inr (j, asking) ↦
            let (k, within, once, between) = progress m j b rcvbuf more s hr.0 p asking in
            let next = feed_all process (reading rcvbuf s) (b ∷ take k more) in
            let split =
              ap (λ l. feed_all process (reading rcvbuf s) (b ∷ l)) (take-append-drop k more) in
            let later =
              sym (feed_all-append process (reading rcvbuf s) (b ∷ take k more) (drop k more))
              ∙ split
              ∙ f in
            ap (λ once. cluster_read_handler process (map some ready) once.0 once.1) once
            ∙ drained ready next (drop k more) q t n hr.1 (omega (arith, length-drop k more))
                between later e
      ]

  -- Packets that come over a link reach the handler once each, whole and in order, however the
  -- bytes are divided over the reads, and nothing is left over: the process delivers them all
  -- without a failure, and the system has at least one byte ready as often as there are bytes.
  pub cluster_read_handler-packets :
      (ready : List ℕ) (ps : List Bytes) (s t : S)
      → Ready ready
      → length (stream ps) ≤ length ready
      → All Packet ps
      → deliver process ps s ≡ some t
      → cluster_read_handler process (map some ready) (reading [] s) (stream ps)
        ≡ (reading [] t, [])
  unfolding processed
  cluster_read_handler-packets ready ps s t hr hl good done =
      let all = feed_all-stream process ps s good ∙ ap (processed process) done in
      drained ready (reading [] s) (stream ps) [] t 8 hr hl refl all (unfold read_length in refl)
