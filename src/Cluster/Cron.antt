-- ===== src/Cluster/Cron.antt =====
-- src/cluster.c: clusterCron.
use prez.Prelude.{
  ℕ, zero, suc, ◌+◌, ◌%◌, Bool, true, false, ◌&&◌, not, List, [], ◌∷◌, Option, none, some, leb,
  if◌then◌else◌, map,
}
use prez.Prelude.Int.{ℤ, pos, negsuc, ◌+ℤ◌, ◌-ℤ◌, ltb_ℤ, pos_part}
use prez.Prelude.Text.{Bytes}
use prez.Log.{log_current_index, ◌>>=◌}
use prez.Cluster.State.{
  ClusterState, ClusterNode, Role, candidate, leading, has_flag, node_myself, node_noaddr,
  update_node, quorum_size, sdsempty,
}
use prez.Cluster.Send.{cluster_send_request_vote, cluster_send_append_entries}
use prez.Cluster.Apply.{log_apply}
use prez.Cluster.Commit.{cluster_update_commit_index}

-- What a run of the job takes from its environment: the readings of the clock (the first, that at
-- an election, and by node those at a connection, at the heartbeat's test and after it), random(3), and
-- the link of a new connection to a node, none where that fails.
pub record Env : Type 0 where
  pub now : ℤ
  pub election_now : ℤ
  pub own_vote_len : ℕ
  pub connect_now : Bytes → ℤ
  pub heartbeat_now : Bytes → ℤ
  pub heartbeat_set : Bytes → ℤ
  pub random : ℕ
  pub connect : Bytes → ℕ → Option ℕ
  pub qsort : (ℤ → ℤ → ℤ) → List ℤ → List ℤ

abbrev pub port_incr : ℕ
port_incr = 10000

unfoldable pub skipped : ClusterNode → Bool
skipped node = has_flag (node_myself + node_noaddr) node

unfoldable pub connected : Env → ClusterNode → Option ℕ → ClusterNode
connected env n none = n
connected env n (some link) = record n {
  link = some link;
  last_activity_time = env.connect_now n.name;
}

unfoldable pub reconnect_node : Env → ClusterNode → ClusterNode
reconnect_node env n = elim n.link [
  | some link ↦ n
  | none ↦ if skipped n then n else connected env n (env.connect n.ip (n.port + port_incr))
]

unfoldable pub reconnect : Env → ClusterState → ClusterState
unfolding reconnect_node connected skipped
reconnect env s = record s { nodes = map (reconnect_node env) s.nodes }

-- `while (commit_index > last_applied)`: logApply changes neither, so the difference is the rounds.
unfoldable pub apply_rounds : ℕ → ClusterState → Option ClusterState
apply_rounds zero s = some s
apply_rounds (suc rounds) s = elim (ltb_ℤ s.last_applied s.commit_index) [
  | false ↦ some s
  | true ↦ do
    s' ← log_apply (s.last_applied +ℤ pos 1) (record s { last_applied = s.last_applied +ℤ pos 1 })
    apply_rounds rounds s'
]

unfoldable pub apply_committed : ClusterState → Option ClusterState
apply_committed s = apply_rounds (pos_part (s.commit_index -ℤ s.last_applied)) s

-- `random() % election_timeout`; none is a division by zero.
unfoldable pub random_delay : ℕ → ℤ → Option ℤ
random_delay r (pos zero) = none
random_delay r (pos (suc t)) = some (pos (r % suc t))
random_delay r (negsuc t) = some (pos (r % suc t))

unfoldable pub is_leading : Role → Bool
is_leading leading = true
is_leading r = false

unfoldable pub is_candidate : Role → Bool
is_candidate candidate = true
is_candidate r = false

-- The node becomes a candidate, votes for itself, and asks for votes in a new term. `len` is what
-- sdslen reads in front of the copy that zstrdup makes of the name.
unfoldable pub start_election : ℤ → ℕ → ClusterState → ClusterState
start_election now len s = cluster_send_request_vote (record s {
  last_activity_time = now;
  state = candidate;
  leader = sdsempty;
  voted_for = s.server_name;
  voted_for_len = len;
  votes_granted = 1;
})

unfoldable pub check_election : Env → ℤ → ClusterState → ClusterState
unfolding is_leading
check_election env timeout s =
    if not (is_leading s.state) && ltb_ℤ timeout (env.now -ℤ s.last_activity_time)
    then start_election env.election_now env.own_vote_len s
    else s

unfoldable pub reset_progress : ℤ → ClusterNode → ClusterNode
reset_progress last_log_index n =
    if skipped n then n else record n { next_index = last_log_index +ℤ pos 1; match_index = pos 0 }

unfoldable pub become_leader : ClusterState → ClusterState
unfolding reset_progress skipped
become_leader s = record s {
  state = leading;
  leader = s.server_name;
  nodes = map (reset_progress (log_current_index s.log)) s.nodes;
}

unfoldable pub check_votes : ClusterState → ClusterState
unfolding is_candidate
check_votes s =
    if is_candidate s.state && leb (quorum_size s) s.votes_granted then become_leader s else s

unfoldable pub beat : Env → ClusterNode → ℕ → ClusterState → Option ClusterState
beat env n link s =
    if ltb_ℤ s.heartbeat_interval (env.heartbeat_now n.name -ℤ n.last_activity_time)
    then cluster_send_append_entries link (record s {
      nodes =
          update_node n.name (λ m. record m { last_activity_time = env.heartbeat_set n.name })
            s.nodes;
    })
    else some s

unfoldable pub beat_linked : Env → ClusterNode → Option ℕ → ClusterState → Option ClusterState
beat_linked env n none s = some s
beat_linked env n (some link) s = if skipped n then some s else beat env n link s

unfoldable pub send_heartbeats : Env → List ClusterNode → ClusterState → Option ClusterState
send_heartbeats env [] s = some s
send_heartbeats env (n ∷ ns) s = do s' ← beat_linked env n n.link s; send_heartbeats env ns s'

unfoldable pub lead_round : Env → ClusterState → Option ClusterState
lead_round env s = do s' ← cluster_update_commit_index env.qsort s; send_heartbeats env s'.nodes s'

unfoldable pub lead : Env → ClusterState → Option ClusterState
unfolding lead_round send_heartbeats beat_linked beat skipped is_leading
lead env s = if is_leading s.state then lead_round env s else some s

unfoldable pub cluster_cron : Env → ClusterState → Option ClusterState
unfolding random_delay
cluster_cron env s = do
  applied ← apply_committed (reconnect env s)
  delay ← random_delay env.random applied.election_timeout
  lead env (check_votes (check_election env (applied.election_timeout +ℤ delay) applied))
