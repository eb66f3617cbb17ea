-- ===== src/Cluster/Link/Read/Tests.antt =====
-- src/cluster.c: clusterReadHandler on two small packets.
use prez.Prelude.{
  ◌-◌, ◌≡◌, ◌≤◌, refl, List, [], ◌∷◌, ◌++◌, Option, some, map, arith, length, replicate, ℕ, All,
}
use prez.Prelude.Text.{Bytes, codes}
use prez.Cluster.Link.Read.{reading, cluster_read_handler, message_length}
use prez.Cluster.Link.Read.Deliver.{Packet, deliver, stream}
use prez.Cluster.Link.Read.Drain.{Ready, cluster_read_handler-packets}

abbrev packet : ℕ → Bytes
packet size = codes "RCmb" ++ 0 ∷ 0 ∷ 0 ∷ size ∷ replicate (size - 8) 7

abbrev two_packets : List Bytes
two_packets = packet 96 ∷ packet 100 ∷ []

-- A process that keeps the packets that it is given.
abbrev keep : Bytes → List Bytes → Option (List Bytes)
keep p seen = some (seen ++ p ∷ [])

-- The system has as many bytes ready as its number says, or fewer.
abbrev chunks : List ℕ
chunks = 3 ∷ replicate 195 50

chunks-Ready : Ready chunks
chunks-Ready = ground arith

enough_chunks : length (stream two_packets) ≤ length chunks
unfolding stream
enough_chunks = omega arith

two_packets-Packet : All Packet two_packets
unfolding message_length
two_packets-Packet = (
  record { signature = refl; sized = refl; long = omega arith },
  (record { signature = refl; sized = refl; long = omega arith }, tt),
)

both_kept : deliver keep two_packets [] ≡ some two_packets
unfolding deliver
both_kept = refl

cluster_read_handler-packets_example :
    cluster_read_handler keep (map some chunks) (reading [] []) (stream two_packets)
    ≡ (reading [] two_packets, [])
cluster_read_handler-packets_example =
    cluster_read_handler-packets keep chunks two_packets [] two_packets chunks-Ready enough_chunks
      two_packets-Packet both_kept
