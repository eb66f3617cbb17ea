-- ===== src/Cluster/Init.antt =====
-- src/cluster.c: initClusterConfig and clusterInit: the state after a start.
use prez.Prelude.{ℕ, ◌≡◌, refl, Bool, true, List, [], ◌∷◌, Option, none, some, All}
use prez.Prelude.Int.{ℤ, pos}
use prez.Prelude.Text.{Bytes}
use prez.Log.{Log, LogEntry, log_current_term}
use prez.Log.Image.{FileMatches}
use prez.Log.Load.{Loaded, done, ◌>>=◌, load_log_file}
use prez.Log.Load.Record.{Storable}
use prez.Log.Load.Restore.{load_log_file-restores}
use prez.Cluster.State.{ClusterNode, ClusterState, follower, sdsempty, update_node}

-- What the start takes from outside: the server's name and port, the two times that the configuration
-- can change, the clock, the nodes of the configuration file with the name of this one, if there is
-- such a file, and the node that createClusterNode makes if not.
pub record Start : Type 0 where
  pub name : Bytes
  pub port : ℕ
  pub election_timeout : ℤ
  pub heartbeat_interval : ℤ
  pub now : ℤ
  pub configured : Option (Bytes × List ClusterNode)
  pub created : ClusterNode

unfoldable pub myself_of : Start → Option (Bytes × List ClusterNode) → Bytes × List ClusterNode
myself_of start none = (start.created.name, start.created ∷ [])
myself_of start (some config) = config

-- The state around a log; the port of this node becomes the server's.
unfoldable pub started : Start → Log → ClusterState
unfolding myself_of
started start log =
    let myself = myself_of start start.configured in
    record {
      myself_name = myself.0;
      server_name = start.name;
      server_port = start.port;
      nodes = update_node myself.0 (λ n. record n { port = start.port }) myself.1;
      state = follower;
      leader = sdsempty;
      voted_for = sdsempty;
      voted_for_len = 0;
      votes_granted = 0;
      election_timeout = start.election_timeout;
      heartbeat_interval = start.heartbeat_interval;
      last_activity_time = start.now;
      current_term = log_current_term log;
      log = log;
      commit_index = pos 0;
      last_applied = pos 0;
      proc_clients = [];
      executed = [];
      outbox = [];
      stats_bus_messages_sent = 0;
      stats_bus_messages_received = 0;
    }

-- A log that cannot be opened for appending is only reported.
unfoldable pub cluster_init : Start → Bool → Bool → LogEntry → Bytes → Loaded ClusterState
unfolding started
cluster_init start appendable readable fresh file = do
  loaded ← load_log_file appendable readable fresh file
  done (started start loaded.0)

-- What a restart keeps. Let a node have a log that is in its file, with numbers that fit and texts
-- that fit. A start from that file gives a follower with that log, whose term is that of the last
-- entry and whose vote is free.
pub cluster_init-restores :
    (start : Start) (fresh : LogEntry) (log : Log)
    → FileMatches log
    → All (λ n. Storable n.log_entry) log.log_entries
    → (s : ClusterState) × (cluster_init start true true fresh log.file ≡ done s)
      × (s.log ≡ log)
      × (s.state ≡ follower)
      × (s.current_term ≡ log_current_term log)
      × (s.voted_for ≡ [])
unfolding cluster_init
cluster_init-restores start fresh log f st =
    (started start log, rw (load_log_file-restores fresh log f st) refl, refl, refl, refl, refl)
