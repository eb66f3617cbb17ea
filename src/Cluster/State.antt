-- ===== src/Cluster/State.antt =====
-- src/cluster.h: clusterNode and clusterState, and the lookups and updates that handlers make.
use Prim.Native.Nat.{bit_and}
use prez.Prelude.{
  ℕ, ◌+◌, ◌/◌, Bool, false, not, List, [], ◌∷◌, Option, none, some, ◌==◌, if◌then◌else◌, length,
}
use prez.Prelude.Int.{ℤ}
use prez.Prelude.Text.{Bytes, bytes_eq}
use prez.Log.{Log, LogEntryNode}
use prez.Cluster.Message.{ClusterMsg}

-- PREZ_FOLLOWER, PREZ_CANDIDATE, PREZ_LEADER.
pub data Role : Type 0 where
  follower candidate leading : Role

-- A link is a number; `last_sent_entry` is a copy of the entry that the pointer shows.
pub record ClusterNode : Type 0 where
  pub name : Bytes
  pub flags : ℕ
  pub last_activity_time : ℤ
  pub last_sent_entry : Option LogEntryNode
  pub next_index : ℤ
  pub match_index : ℤ
  pub ip : Bytes
  pub port : ℕ
  pub link : Option ℕ

-- A command runs for the client that waits for it, or from the log.
pub data Executed : Type 0 where
  by_client : ℕ → Executed
  by_log : List Bytes → Executed

-- clusterState, with the server's name and port. `outbox` is all that was ever put into the send
-- buffers, with the link of each message, oldest first; `executed` is all that was handed to the
-- commands. Clients are numbers. `voted_for_len` is what sdslen reads in front of voted_for: its
-- length, except behind zstrdup, which puts no sds header there.
pub record ClusterState : Type 0 where
  pub myself_name : Bytes
  pub server_name : Bytes
  pub server_port : ℕ
  pub nodes : List ClusterNode
  pub state : Role
  pub leader : Bytes
  pub voted_for : Bytes
  pub voted_for_len : ℕ
  pub votes_granted : ℕ
  pub election_timeout : ℤ
  pub heartbeat_interval : ℤ
  pub last_activity_time : ℤ
  pub current_term : ℤ
  pub log : Log
  pub commit_index : ℤ
  pub last_applied : ℤ
  pub proc_clients : List (ℤ × ℕ)
  pub executed : List Executed
  pub outbox : List (ℕ × ClusterMsg)
  pub stats_bus_messages_sent : ℕ
  pub stats_bus_messages_received : ℕ

-- PREZ_NODE_MYSELF and PREZ_NODE_NOADDR.
abbrev pub node_myself : ℕ
node_myself = 16

abbrev pub node_noaddr : ℕ
node_noaddr = 64

unfoldable pub has_flag : ℕ → ClusterNode → Bool
has_flag mask node = not (bit_and node.flags mask == 0)

-- `link->node`: the node that has this link; NULL for an accepted connection.
unfoldable pub node_of_link : ℕ → List ClusterNode → Option ClusterNode
node_of_link id [] = none
node_of_link id (n ∷ ns) = if linked n.link then some n else node_of_link id ns
  where
    linked : Option ℕ → Bool
    linked none = false
    linked (some l) = l == id

-- A write through a node pointer: the node of that name changes.
unfoldable pub update_node :
    Bytes → (ClusterNode → ClusterNode) → List ClusterNode → List ClusterNode
update_node name f [] = []
update_node name f (n ∷ ns) = if bytes_eq n.name name then f n ∷ ns else n ∷ update_node name f ns

-- quorumSize.
unfoldable pub quorum_size : ClusterState → ℕ
quorum_size s = length s.nodes / 2 + 1

abbrev pub sdsempty : Bytes
sdsempty = []
