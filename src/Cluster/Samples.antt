-- ===== src/Cluster/Samples.antt =====
-- src/cluster.c: small nodes for the tests.
use prez.Prelude.{ℕ, List, [], ◌∷◌, ◌+◌, none, if◌then◌else◌}
use prez.Prelude.Int.{ℤ, pos, leb_ℤ}
use prez.Prelude.Text.{Bytes, codes}
use prez.Log.{Log}
use prez.Log.Samples.{two_log}
use prez.Cluster.Message.{RequestVote}
use prez.Cluster.State.{ClusterNode, ClusterState, Role, follower}
use prez.Cluster.Cron.{Env}

abbrev pub peer : Bytes → ℕ → ℕ → ClusterNode
peer name flags match = record {
  name = name;
  flags = flags;
  last_activity_time = pos 0;
  last_sent_entry = none;
  next_index = pos (match + 1);
  match_index = pos match;
  ip = codes "10.0.0.1";
  port = 7981;
  link = none;
}

-- A node that has applied one entry.
abbrev pub node_with : Role → ℕ → Log → List ClusterNode → ClusterState
node_with role term log nodes = record {
  myself_name = codes "n1";
  server_name = codes "n1";
  server_port = 7981;
  nodes = nodes;
  state = role;
  leader = [];
  voted_for = [];
  voted_for_len = 0;
  votes_granted = 0;
  election_timeout = pos 150;
  heartbeat_interval = pos 50;
  last_activity_time = pos 1000;
  current_term = pos term;
  log = log;
  commit_index = pos 1;
  last_applied = pos 1;
  proc_clients = [];
  executed = [];
  outbox = [];
  stats_bus_messages_sent = 0;
  stats_bus_messages_received = 0;
}

abbrev pub voter : ClusterState
voter = node_with follower 1 two_log []

abbrev pub plea : RequestVote
plea = record {
  term = pos 2;
  candidateid = codes "n2";
  last_log_index = pos 2;
  last_log_term = pos 1;
}

-- Insertion sort, for qsort(3).
abbrev insert : (ℤ → ℤ → ℤ) → ℤ → List ℤ → List ℤ
insert compare x [] = x ∷ []
insert compare x (y ∷ l) =
    let rest = insert compare x l in if leb_ℤ (compare x y) (pos 0) then x ∷ y ∷ l else y ∷ rest

abbrev pub sort : (ℤ → ℤ → ℤ) → List ℤ → List ℤ
sort compare [] = []
sort compare (x ∷ l) = insert compare x (sort compare l)

abbrev pub quiet : Env
quiet = record {
  now = pos 1010;
  election_now = pos 1010;
  own_vote_len = 0;
  connect_now = λ n. pos 1010;
  heartbeat_now = λ n. pos 1010;
  heartbeat_set = λ n. pos 1010;
  random = 7;
  connect = λ ip port. none;
  qsort = sort;
}
