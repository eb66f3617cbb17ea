-- ===== src/Cluster/CronEvolve.antt =====
-- src/cluster.c: clusterCron keeps terms and votes as the handlers do.
use prez.Prelude.{
  ℕ, zero, suc, ◌≡◌, inl, inr, refl, ◌∙◌, List, [], ◌∷◌, Option, none, some, ◌==◌, length,
  Bool-cases, Option-cases, eq_of_some, none≢some,
}
use prez.Prelude.Int.{ℤ, pos, ◌+ℤ◌, ◌-ℤ◌, ltb_ℤ}
use prez.Prelude.Text.{Bytes}
use prez.Log.{LogEntry, LogEntryNode, get_log_entry, bind-eq-some}
use prez.Cluster.Message.{ClusterMsg}
use prez.Cluster.State.{ClusterState, ClusterNode, has_flag, node_myself, node_of_link}
use prez.Cluster.Send.{
  broadcast_to, cluster_send_message, cluster_send_append_entries, send_append_entries_to,
}
use prez.Cluster.Apply.{
  log_apply, apply_found, apply_entry, run_logged, run_command, lookup_command, wrong_arity,
  any_empty, reads_client, waiting_client, execute,
}
use prez.Sds.SplitArgs.{sdssplitargs}
use prez.Cluster.Cron.{Env, apply_rounds, send_heartbeats, beat, beat_linked, skipped}
use prez.Cluster.Packets.{map-eq-some}

-- The two members that votes depend on are the same.
pub record SameVote (s t : ClusterState) : Type 0 where
  pub same_term : t.current_term ≡ s.current_term
  pub same_vote : t.voted_for ≡ s.voted_for
  pub same_len : t.voted_for_len ≡ s.voted_for_len

pub SameVote-refl : (s : ClusterState) → SameVote s s
SameVote-refl s = record { same_term = refl; same_vote = refl; same_len = refl }

pub SameVote-trans : {s t u : ClusterState} → SameVote s t → SameVote t u → SameVote s u
SameVote-trans a b = record {
  same_term = b.same_term ∙ a.same_term;
  same_vote = b.same_vote ∙ a.same_vote;
  same_len = b.same_len ∙ a.same_len;
}

run_command-SameVote :
    (s t : ClusterState) (argv : List Bytes) (o : Option ℤ)
    → run_command s argv o ≡ some t
    → SameVote s t
unfolding run_command execute
run_command-SameVote s t argv none h = rw (← eq_of_some h) (SameVote-refl s)
run_command-SameVote s t argv (some arity) h = elim (Bool-cases (wrong_arity arity (length argv))) [
  | inl wrong ↦ rw (← eq_of_some (rw wrong at h)) (SameVote-refl s)
  | inr fits ↦ elim (Bool-cases (any_empty argv)) [
    | inl bad ↦ absurd (none≢some (rw (fits, bad) at h))
    | inr fine ↦ elim (Bool-cases (reads_client argv)) [
      | inl blind ↦ absurd (none≢some (rw (fits, fine, blind) at h))
      | inr sees ↦
          rw (← eq_of_some (rw (fits, fine, sees) at h))
            (record { same_term = refl; same_vote = refl; same_len = refl })
    ]
  ]
]

run_logged-SameVote :
    (s t : ClusterState) (o : Option (List Bytes)) → run_logged s o ≡ some t → SameVote s t
unfolding run_logged
run_logged-SameVote s t none h = rw (← eq_of_some h) (SameVote-refl s)
run_logged-SameVote s t (some []) h = absurd (none≢some h)
run_logged-SameVote s t (some (name ∷ argv)) h = elim (Bool-cases (length name == 0)) [
  | inl bad ↦ absurd (none≢some (rw bad at h))
  | inr fine ↦ run_command-SameVote s t (name ∷ argv) (lookup_command name) (rw fine at h)
]

apply_entry-SameVote :
    (s t : ClusterState) (index : ℤ) (e : LogEntry) (o : Option ℕ)
    → apply_entry s index e o ≡ some t
    → SameVote s t
unfolding apply_entry execute
apply_entry-SameVote s t index e (some c) h =
    rw (← eq_of_some h) (record { same_term = refl; same_vote = refl; same_len = refl })
apply_entry-SameVote s t index e none h = run_logged-SameVote s t (sdssplitargs e.command) h

apply_found-SameVote :
    (s t : ClusterState) (index : ℤ) (o : Option LogEntryNode)
    → apply_found s index o ≡ some t
    → SameVote s t
unfolding apply_found
apply_found-SameVote s t index none h = rw (← eq_of_some h) (SameVote-refl s)
apply_found-SameVote s t index (some en) h =
    apply_entry-SameVote s t index en.log_entry (waiting_client s index) h

log_apply-SameVote : (index : ℤ) (s t : ClusterState) → log_apply index s ≡ some t → SameVote s t
unfolding log_apply
log_apply-SameVote index s t h = apply_found-SameVote s t index (get_log_entry s.log index) h

pub apply_rounds-SameVote :
    (rounds : ℕ) (s t : ClusterState) → apply_rounds rounds s ≡ some t → SameVote s t
unfolding apply_rounds
apply_rounds-SameVote zero s t h = rw (← eq_of_some h) (SameVote-refl s)
apply_rounds-SameVote (suc rounds) s t h = elim (Bool-cases (ltb_ℤ s.last_applied s.commit_index)) [
  | inr caught_up ↦ rw (← eq_of_some (rw (caught_up, apply_rounds) at h)) (SameVote-refl s)
  | inl behind ↦
      let s1 : ClusterState = record s { last_applied = s.last_applied +ℤ pos 1 } in
      let (u, first, others) =
        bind-eq-some (log_apply (s.last_applied +ℤ pos 1) s1) (apply_rounds rounds)
          (rw (behind, apply_rounds) at h) in
      SameVote-trans
        (SameVote-trans (record { same_term = refl; same_vote = refl; same_len = refl })
          (log_apply-SameVote (s.last_applied +ℤ pos 1) s1 u first))
        (apply_rounds-SameVote rounds u t others)
]

send-SameVote :
    (link : ℕ) (msg : ClusterMsg) (s : ClusterState) → SameVote s (cluster_send_message link msg s)
unfolding cluster_send_message
send-SameVote link msg s = record { same_term = refl; same_vote = refl; same_len = refl }

pub broadcast-SameVote :
    (ns : List ClusterNode) (msg : ClusterMsg) (s : ClusterState)
    → SameVote s (broadcast_to ns msg s)
unfolding broadcast_to
broadcast-SameVote [] msg s = SameVote-refl s
broadcast-SameVote (n ∷ ns) msg s = elim (Option-cases n.link) [
  | inl unlinked ↦ rw unlinked (broadcast-SameVote ns msg s)
  | inr (link, linked) ↦ elim (Bool-cases (has_flag node_myself n)) [
    | inl this ↦ rw (linked, this) (broadcast-SameVote ns msg s)
    | inr other ↦
        rw (linked, other)
          (SameVote-trans (send-SameVote link msg s)
            (broadcast-SameVote ns msg (cluster_send_message link msg s)))
  ]
]

send_append_entries-SameVote :
    (link : ℕ) (s t : ClusterState) → cluster_send_append_entries link s ≡ some t → SameVote s t
unfolding cluster_send_append_entries send_append_entries_to cluster_send_message
send_append_entries-SameVote link s t h =
    let (node, _, e) =
      map-eq-some (λ node. send_append_entries_to link node s) (node_of_link link s.nodes) h in
    rw (← e) (record { same_term = refl; same_vote = refl; same_len = refl })

beat-SameVote :
    (env : Env) (n : ClusterNode) (link : ℕ) (s t : ClusterState)
    → beat env n link s ≡ some t
    → SameVote s t
unfolding beat
beat-SameVote env n link s t h =
    elim (Bool-cases
      (ltb_ℤ s.heartbeat_interval (env.heartbeat_now n.name -ℤ n.last_activity_time))) [
        | inr early ↦ rw (← eq_of_some (rw early at h)) (SameVote-refl s)
        | inl due ↦
            SameVote-trans (record { same_term = refl; same_vote = refl; same_len = refl })
              (send_append_entries-SameVote link _ t (rw due at h))
      ]

beat_linked-SameVote :
    (env : Env) (n : ClusterNode) (o : Option ℕ) (s t : ClusterState)
    → beat_linked env n o s ≡ some t
    → SameVote s t
unfolding beat_linked
beat_linked-SameVote env n none s t h = rw (← eq_of_some h) (SameVote-refl s)
beat_linked-SameVote env n (some link) s t h = elim (Bool-cases (skipped n)) [
  | inl skip ↦ rw (← eq_of_some (rw skip at h)) (SameVote-refl s)
  | inr go ↦ beat-SameVote env n link s t (rw go at h)
]

pub send_heartbeats-SameVote :
    (env : Env) (ns : List ClusterNode) (s t : ClusterState)
    → send_heartbeats env ns s ≡ some t
    → SameVote s t
unfolding send_heartbeats
send_heartbeats-SameVote env [] s t h = rw (← eq_of_some h) (SameVote-refl s)
send_heartbeats-SameVote env (n ∷ ns) s t h =
    let (u, first, others) = bind-eq-some (beat_linked env n n.link s) (send_heartbeats env ns) h in
    SameVote-trans (beat_linked-SameVote env n n.link s u first)
      (send_heartbeats-SameVote env ns u t others)
