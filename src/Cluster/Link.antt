-- ===== src/Cluster/Link.antt =====
-- src/cluster.c: clusterWriteHandler: how a link's send buffer is written out.
pub mod Read
use prez.Prelude.{
  ℕ, ◌-◌, ◌≤◌, ◌<◌, ◌≡◌, refl, sym, ◌∙◌, List, [], ◌∷◌, ◌++◌, Option, none, some, if◌then◌else◌,
  arith, length, length-drop, take, drop, take-append-drop, append_assoc,
}
use prez.Prelude.Int.{ℤ, pos, negsuc, leb_ℤ}
use prez.Prelude.Text.{Bytes}
use prez.Log.{◌>>=◌}
use prez.Sds.Buffer.{Sds, sdsrange, sdsrange-drop}

-- One call, by what write(2) returns: `none` is a link that is freed because of an error.
unfoldable pub cluster_write_handler : ℤ → Sds → Option Sds
cluster_write_handler nwritten sndbuf =
    if leb_ℤ nwritten (pos 0) then none else some (sdsrange sndbuf nwritten (negsuc 0))

-- The calls one after the other, with the bytes that write(2) took at each.
unfoldable pub write_out : List ℕ → Sds → Option (Bytes × Sds)
write_out [] sndbuf = some ([], sndbuf)
write_out (n ∷ ns) sndbuf = do
  rest ← cluster_write_handler (pos n) sndbuf
  others ← write_out ns rest
  some (take n sndbuf.buf ++ others.0, others.1)

-- write(2) takes at least one byte, and no more than it is given.
abbrev pub Taken : List ℕ → ℕ → Type 0
Taken [] size = Unit {0}
Taken (n ∷ ns) size = (0 < n) × (n ≤ size) × Taken ns (size - n)

cluster_write_handler_lem :
    (n : ℕ) (sndbuf : Sds)
    → 0 < n
    → cluster_write_handler (pos n) sndbuf ≡ some (sdsrange sndbuf (pos n) (negsuc 0))
unfolding cluster_write_handler
cluster_write_handler_lem n sndbuf h = ground arith

-- Nothing is lost, doubled or reordered on the way out. However write(2) divides the bytes over the
-- calls of clusterWriteHandler, the bytes written so far, followed by the send buffer, are what the
-- send buffer was.
pub write_out-append :
    (ns : List ℕ) (sndbuf : Sds)
    → Taken ns (length sndbuf.buf)
    → (sent : Bytes) × (rest : Sds) × (write_out ns sndbuf ≡ some (sent, rest))
      × (sent ++ rest.buf ≡ sndbuf.buf)
unfolding write_out
write_out-append [] sndbuf t = ([], sndbuf, refl, refl)
write_out-append (n ∷ ns) sndbuf t =
    let next = sdsrange sndbuf (pos n) (negsuc 0) in
    let left : next.buf ≡ drop n sndbuf.buf = (sdsrange-drop sndbuf n t.1).0 in
    let size : length sndbuf.buf - n ≡ length next.buf = rw left (sym (length-drop n sndbuf.buf)) in
    let t' = t.2 in
    let (sent, rest, done, content) = write_out-append ns next (rw size at t') in
    (
      take n sndbuf.buf ++ sent,
      rest,
      rw (cluster_write_handler_lem n sndbuf t.0, done) refl,
      append_assoc (take n sndbuf.buf) sent rest.buf
          ∙ rw (content, left) (take-append-drop n sndbuf.buf),
    )
