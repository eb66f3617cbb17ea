-- ===== src/Cluster/Link/Read/Deliver.antt =====
-- src/cluster.c: clusterReadHandler delivers every packet once and in order.
use prez.Prelude.{
  ℕ, ◌-◌, ◌≤◌, ◌≡◌, refl, sym, ap, ◌∙◌, true, false, List, [], ◌∷◌, ◌++◌, Option, none, some, All,
  arith, dec_lt, length, length-append, take, append_assoc, take-append,
}
use prez.Prelude.Text.{Bytes, codes, bytes_eq_iff}
use prez.Log.{◌>>=◌}
use prez.Cluster.Message.{header_size}
use prez.Cluster.Link.Read.{
  message_length, bad_header, read_length, whole, reading, closed, died, received, processed,
}
use prez.Cluster.Link.Read.Frames.{
  feed, feed_all, feed_reading, feed_all-append, received_part, message_length-append, asked_short,
  asked_long, asked_of, not_whole, not_whole_long,
}

-- A packet: the signature, and a length field that says its length, the header's at least.
pub record Packet (p : Bytes) : Type 0 where
  pub signature : take 4 p ≡ codes "RCmb"
  pub sized : length p ≡ message_length p
  pub long : header_size ≤ length p

good : (q : Bytes) → take 4 q ≡ codes "RCmb" → header_size ≤ message_length q → bad_header q ≡ false
unfolding bad_header
good q s l = ground (arith, (bytes_eq_iff (take 4 q) (codes "RCmb")).1 s)

eight :
    (q : Bytes)
    → length q ≡ 8
    → take 4 q ≡ codes "RCmb"
    → header_size ≤ message_length q
    → (n : ℕ) × (read_length q ≡ some n)
unfolding read_length asked_of
eight q h s l = (asked_of (message_length q) (length q), asked q h (good q s l) l)
  where
    asked :
        (q : Bytes)
        → length q ≡ 8
        → bad_header q ≡ false
        → header_size ≤ message_length q
        → read_length q ≡ some (asked_of (message_length q) (length q))
    asked q h g l = ground arith

-- A part of a packet asks for more.
asks : (q more : Bytes) (b : ℕ) → Packet (q ++ b ∷ more) → (n : ℕ) × (read_length q ≡ some n)
asks q more b p = elim (dec_lt (length q) 8) [
  | yes h ↦ (8 - length q, asked_short q h)
  | no h ↦ elim (dec_lt 8 (length q)) [
    | yes long ↦
        let same = message_length-append q (b ∷ more) (omega arith) in
        (
          asked_of (message_length q) (length q),
          asked_long q long (omega (arith, p.sized, same, length-append q (b ∷ more))),
        )
    | no exact ↦
        eight q (omega arith) (sym (take-append 4 q (b ∷ more) (omega arith)) ∙ p.signature)
          (omega (arith, p.sized, p.long, message_length-append q (b ∷ more) (omega arith)))
  ]
]

-- It is not whole before its last byte.
part_of : (q more : Bytes) (b : ℕ) → Packet (q ++ b ∷ more) → whole q ≡ false
part_of q more b p = elim (dec_lt (length q) 8) [
  | yes h ↦ not_whole q h
  | no h ↦ not_whole_long q (
      omega (
        arith,
        p.sized,
        message_length-append q (b ∷ more) (omega arith),
        length-append q (b ∷ more),
      ))
]

whole_of : (p : Bytes) → Packet p → whole p ≡ true
unfolding whole
whole_of p k = ground (arith, k.sized, k.long)

-- The packets given to the process one after the other.
unfoldable pub deliver : {S : Type 0} → (Bytes → S → Option S) → List Bytes → S → Option S
deliver process [] s = some s
deliver process (p ∷ ps) s = do t ← process p s; deliver process ps t

unfoldable pub stream : List Bytes → Bytes
stream [] = []
stream (p ∷ ps) = p ++ stream ps

module _ {S : Type 0} (process : Bytes → S → Option S) where
  complete :
      (p : Bytes) (s : S) → whole p ≡ true → received process p s ≡ processed process (process p s)
  unfolding received
  complete p s h = rw h refl

  feed_all-Packet :
      (more q : Bytes) (b : ℕ) (s : S)
      → Packet (q ++ b ∷ more)
      → feed_all process (reading q s) (b ∷ more) ≡ processed process (process (q ++ b ∷ more) s)
  unfolding feed_all
  feed_all-Packet [] q b s k =
      let (n, e) = asks q [] b k in
      feed_reading process q s b n e ∙ complete (q ++ b ∷ []) s (whole_of (q ++ b ∷ []) k)
  feed_all-Packet (c ∷ more) q b s k =
      let (n, e) = asks q (c ∷ more) b k in
      let regroup = append_assoc q (b ∷ []) (c ∷ more) in
      let k' : Packet ((q ++ b ∷ []) ++ c ∷ more) = rw regroup k in
      ap (λ r. feed_all process r (c ∷ more))
        (feed_reading process q s b n e
          ∙ received_part process (q ++ b ∷ []) s (part_of (q ++ b ∷ []) more c k'))
      ∙ feed_all-Packet more (q ++ b ∷ []) c s k'
      ∙ rw regroup refl

  pub feed_all_died : (bytes : Bytes) → feed_all process died bytes ≡ died
  unfolding feed_all feed
  feed_all_died [] = refl
  feed_all_died (b ∷ bytes) = feed_all_died bytes

  pub feed_all_closed : (bytes : Bytes) (s : S) → feed_all process (closed s) bytes ≡ closed s
  unfolding feed_all feed
  feed_all_closed [] s = refl
  feed_all_closed (b ∷ bytes) s = feed_all_closed bytes s

  from_Packet :
      (p : Bytes) (s : S)
      → Packet p
      → feed_all process (reading [] s) p ≡ processed process (process p s)
  from_Packet [] s k = absurd (omega (arith, k.long))
  from_Packet (b ∷ p) s k = feed_all-Packet p [] b s k

  feed_all_rest :
      (o : Option S) (more : Bytes) (next : S → Option S)
      → ((t : S) → feed_all process (reading [] t) more ≡ processed process (next t))
      → feed_all process (processed process o) more ≡ processed process (o >>= next)
  unfolding processed
  feed_all_rest none more next h = feed_all_died more
  feed_all_rest (some t) more next h = h t

  pub feed_all-stream :
      (ps : List Bytes) (s : S)
      → All Packet ps
      → feed_all process (reading [] s) (stream ps) ≡ processed process (deliver process ps s)
  unfolding stream deliver processed
  feed_all-stream [] s a = unfold feed_all in refl
  feed_all-stream (p ∷ ps) s a =
      feed_all-append process (reading [] s) p (stream ps)
      ∙ ap (λ r. feed_all process r (stream ps)) (from_Packet p s a.0)
      ∙ feed_all_rest (process p s) (stream ps) (deliver process ps) (λ t. feed_all-stream ps t a.1)
