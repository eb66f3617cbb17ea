-- ===== src/Cluster/Client.antt =====
-- src/prez.c and src/cluster.c: processCommand and clusterProcessCommand, the way of a client's command
-- into the log. `none` is a use of memory that C leaves undefined.
use mathlib.Core.Bool.{true≢false}
use native.Mathlib.Nat.{le_refl}
use prez.Prelude.{
  ℕ, suc, ◌≤◌, ◌≡◌, inl, inr, refl, ◌∙◌, Bool, false, List, [], ◌∷◌, ◌++◌, Option, none, some,
  if◌then◌else◌, arith, Bool-cases, length, map, ltb, ◌==◌,
}
use prez.Prelude.Int.{ℤ, pos, ◌+ℤ◌}
use prez.Prelude.Text.{Bytes, bytes_eq, codes}
use prez.Log.{
  Log, LogEntry, Os, ◌>>=◌, log_length, log_write_entry, log_current_index, append_entry,
}
use prez.Log.Load.{c_string}
use prez.Log.Index.{max_length, Contiguous, log_current_index_lem}
use prez.Log.Takeover.{entries_of}
use prez.Log.Write.{log_write_entry_next}
use prez.Log.Append.{entries-append_entry, append_entry-Contiguous}
use prez.Sds.Buffer.{Sds, sdsnewlen, sdscatlen}
use prez.Cluster.State.{ClusterState, Role, follower, candidate, leading, by_client}
use prez.Cluster.Handle.{log_commit_index}
use prez.Cluster.Apply.{lookup_command, wrong_arity, to_lower, execute, fetch_client, is_leading}

-- What vsnprintf makes of a format without conversions. One conversion would read the length that is
-- passed as something else, two would read what is not passed.
unfoldable pub formatted : Bytes → Option Bytes
formatted [] = some []
formatted (c ∷ []) = if c == b'%' then none else some (c ∷ [])
formatted (c ∷ d ∷ s) =
    let rest = formatted s in
    let more = formatted (d ∷ s) in
    if c == b'%'
    then (if d == b'%' then (rest >>= λ t. some (c ∷ t)) else none)
    else (more >>= λ t. some (c ∷ t))

-- The loop over the arguments: each is a format, and a space stands between two.
unfoldable pub print_args : Sds → List Bytes → Option Sds
unfolding formatted
print_args repr [] = some repr
print_args repr (arg ∷ []) = do text ← formatted (c_string arg); some (sdscatlen repr text)
print_args repr (arg ∷ next ∷ argv) = do
  text ← formatted (c_string arg)
  print_args (sdscatlen (sdscatlen repr text) (b' ' ∷ [])) (next ∷ argv)

-- `sdscatlen(cmdrepr,"\n",1)` without its result: where the string must move, the old one is used.
unfoldable pub newline_in_place : Sds → Option Sds
newline_in_place repr = if repr.avail == 0 then none else some (sdscatlen repr (b'\n' ∷ []))

-- memcpy into a char array of 40 bytes that is all zeros; 40 bytes leave no terminator.
unfoldable pub in_array : Bytes → Option Bytes
in_array text = if ltb (length text) 40 then some text else none

-- The text that the entry holds.
unfoldable pub command_text : List Bytes → Option Bytes
unfolding print_args newline_in_place in_array
command_text argv = do
  repr ← print_args (sdsnewlen []) argv
  line ← newline_in_place repr
  in_array line.buf

unfoldable pub add_client : ℤ → ℕ → List (ℤ × ℕ) → List (ℤ × ℕ)
add_client index c clients = elim (fetch_client index clients) [
  | some other ↦ clients
  | none ↦ clients ++ (index, c) ∷ []
]

-- A cluster of one node commits at once, else the client waits.
unfoldable pub commit_or_wait : ℕ → LogEntry → ClusterState → ClusterState
commit_or_wait c entry s =
    if length s.nodes == 1
    then log_commit_index (log_current_index s.log) s
    else record s { proc_clients = add_client entry.index c s.proc_clients }

unfoldable pub new_entry : ClusterState → Bytes → Bytes → LogEntry
new_entry s name text = record {
  index = log_current_index s.log +ℤ pos 1;
  term = s.current_term;
  command_name = name;
  command = text;
}

-- The result of logSync is not looked at.
unfoldable pub cluster_process_command :
    Os → ℕ → Bytes → List Bytes → ClusterState → Option ClusterState
unfolding new_entry commit_or_wait
cluster_process_command os c name argv s = do
  text ← command_text argv
  let entry = new_entry s name text
  log' ← log_write_entry os s.log entry
  some (commit_or_wait c entry (record s { log = log' }))

-- What the client gets at once; nothing where the command is in the log.
pub data Reply : Type 0 where
  unknown_command wrong_number clusterdown called waiting : Reply
  ask : Bytes → Reply

-- PREZ_CMD_WRITE: `set` alone.
unfoldable pub writes : Bytes → Bool
writes name = bytes_eq name (codes "set")

unfoldable pub submit :
    Os → ℕ → Bytes → List Bytes → Role → ClusterState → Option (Reply × ClusterState)
submit os c name argv candidate s = some (clusterdown, s)
submit os c name argv follower s = some (ask s.leader, s)
submit os c name argv leading s = do t ← cluster_process_command os c name argv s; some (waiting, t)

unfoldable pub run_or_submit :
    Os → ℕ → Bytes → List Bytes → Option ℤ → ClusterState → Option (Reply × ClusterState)
unfolding submit writes
run_or_submit os c name argv none s = some (unknown_command, s)
run_or_submit os c name argv (some arity) s =
    let submitted = submit os c name argv s.state s in
    if wrong_arity arity (length argv)
    then some (wrong_number, s)
    else if writes name
    then submitted
    else some (called, execute s (by_client c))

unfoldable pub process_command : Os → ℕ → List Bytes → ClusterState → Option (Reply × ClusterState)
unfolding run_or_submit
process_command os c [] s = none
process_command os c (name ∷ argv) s =
    run_or_submit os c (map to_lower name) (name ∷ argv) (lookup_command name) s

after : (n : ℕ) → pos n +ℤ pos 1 ≡ pos (suc n)
unfolding ◌+ℤ◌
after n = ground arith

-- A client's command is put behind the log. Let the log have the indices 1, 2, 3, … and 2^62
-- entries at most, and let the arguments have a text that C defines and the entry has room for.
-- Then clusterProcessCommand returns, the log has one entry more, of the next index and the current
-- term with that text, and either the commit index is raised, in a cluster of one node, or the
-- client waits for the index.
pub cluster_process_command-appends :
    (os : Os) (c : ℕ) (name : Bytes) (argv : List Bytes) (s : ClusterState) (text : Bytes)
    → Contiguous 0 s.log.log_entries
    → log_length s.log ≤ max_length
    → command_text argv ≡ some text
    → (log' : Log) × (cluster_process_command os c name argv s
        ≡ some (commit_or_wait c (new_entry s name text) (record s { log = log' })))
      × Contiguous 0 log'.log_entries
      × (entries_of log'
          ≡ entries_of s.log
            ++ record {
              index = pos (suc (log_length s.log));
              term = s.current_term;
              command_name = name;
              command = text;
            }
              ∷ [])
unfolding cluster_process_command new_entry
cluster_process_command-appends os c name argv s text cg b defined =
    let e = new_entry s name text in
    let next : e.index ≡ pos (suc (log_length s.log)) =
      rw (log_current_index_lem s.log cg) (after (log_length s.log)) in
    let wrote =
      log_write_entry_next os s.log e b (log_length s.log) cg (le_refl _) (omega arith) next in
    (
      append_entry os s.log e,
      rw (defined, wrote) refl,
      append_entry-Contiguous os s.log e cg next,
      entries-append_entry os s.log e ∙ rw next refl,
    )

waits_or_called :
    (os : Os) (c : ℕ) (name : Bytes) (argv : List Bytes) (role : Role) (s : ClusterState)
    → is_leading role ≡ false
    → (r : Reply) × (submit os c name argv role s ≡ some (r, s))
unfolding submit is_leading
waits_or_called os c name argv candidate s h = (clusterdown, refl)
waits_or_called os c name argv follower s h = (ask s.leader, refl)
waits_or_called os c name argv leading s h = absurd (true≢false h)

run_or_submit-log :
    (os : Os) (c : ℕ) (name : Bytes) (argv : List Bytes) (o : Option ℤ) (s : ClusterState)
    → is_leading s.state ≡ false
    → (r : Reply) × (t : ClusterState) × (run_or_submit os c name argv o s ≡ some (r, t))
      × (t.log ≡ s.log)
      × (t.commit_index ≡ s.commit_index)
      × (t.proc_clients ≡ s.proc_clients)
unfolding run_or_submit execute
run_or_submit-log os c name argv none s h = (unknown_command, s, refl, refl, refl, refl)
run_or_submit-log os c name argv (some arity) s h =
    elim (Bool-cases (wrong_arity arity (length argv))) [
      | inl wrong ↦ (wrong_number, s, rw wrong refl, refl, refl, refl)
      | inr fits ↦ elim (Bool-cases (writes name)) [
        | inl write ↦
            let (r, e) = waits_or_called os c name argv s.state s h in
            (r, s, rw (fits, write) e, refl, refl, refl)
        | inr read ↦ (called, execute s (by_client c), rw (fits, read) refl, refl, refl, refl)
      ]
    ]

-- Only a leader's log takes commands. On a node that does not lead, processCommand returns for every
-- command, whatever its name and arguments are, and leaves the log, the commit index and the waiting
-- clients as they are.
pub process_command-only_leader :
    (os : Os) (c : ℕ) (name : Bytes) (argv : List Bytes) (s : ClusterState)
    → is_leading s.state ≡ false
    → (r : Reply) × (t : ClusterState) × (process_command os c (name ∷ argv) s ≡ some (r, t))
      × (t.log ≡ s.log)
      × (t.commit_index ≡ s.commit_index)
      × (t.proc_clients ≡ s.proc_clients)
unfolding process_command
process_command-only_leader os c name argv s h =
    run_or_submit-log os c (map to_lower name) (name ∷ argv) (lookup_command name) s h
