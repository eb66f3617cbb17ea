-- ===== src/Networking/Input/Server.antt =====
-- src/networking.c and src/prez.c: processInputBuffer with the commands of the server.
use prez.Prelude.{
  ℕ, suc, ◌≤◌, ◌<◌, ◌≡◌, refl, ap, ◌∙◌, Bool, true, false, List, [], ◌∷◌, ◌++◌, Option, none, some,
  length, arith, map,
}
use prez.Prelude.Int.{pos, negsuc, ◌-ℤ◌}
use prez.Prelude.Text.{Bytes, codes, bytes_eq}
use prez.Log.{Os, Log, ◌>>=◌, log_length}
use prez.Log.Index.{max_length, Contiguous}
use prez.Log.Takeover.{entries_of}
use prez.Cluster.State.{ClusterState, leading}
use prez.Cluster.Apply.{lookup_command, wrong_arity, to_lower}
use prez.Cluster.Client.{
  Reply, waiting, process_command, run_or_submit, submit, writes, command_text,
  cluster_process_command, cluster_process_command-appends, commit_or_wait, new_entry,
}
use prez.Networking.{Client, multibulk, ok, aborted}
use prez.Networking.Multibulk.RoundTrip.{request}
use prez.Networking.Input.{process_request, run_request, process_input_buffer}
use prez.Networking.Input.Rounds.{typed}
use prez.Networking.Input.Pipeline.{
  Acceptable, ready, has_read, reads, run_later, not_reset, process_input_buffer-unreset,
}

-- What processCommand returns: `Fake ERR so that the client doesn't get reset` for a write that is
-- in the log.
unfoldable pub returns_ok : Reply → Bool
returns_ok waiting = false
returns_ok r = true

unfoldable pub server_command : Os → ℕ → List Bytes → ClusterState → Option (Bool × ClusterState)
unfolding returns_ok
server_command os c argv s = do r ← process_command os c argv s; some (returns_ok r.0, r.1)

set_known : lookup_command (codes "set") ≡ some (negsuc 2)
unfolding lookup_command bytes_eq
set_known = refl

set_lower : map to_lower (codes "set") ≡ codes "set"
unfolding to_lower
set_lower = refl

set_writes : writes (codes "set") ≡ true
unfolding writes bytes_eq
set_writes = refl

set_fits : (n : ℕ) → 3 ≤ n → wrong_arity (negsuc 2) n ≡ false
unfolding wrong_arity ◌-ℤ◌
set_fits n h = ground arith

submitted :
    (os : Os) (c : ℕ) (name : Bytes) (argv : List Bytes) (s t : ClusterState)
    → s.state ≡ leading
    → cluster_process_command os c name argv s ≡ some t
    → submit os c name argv s.state s ≡ some (waiting, t)
submitted os c name argv s t leads done =
    let now : submit os c name argv leading s ≡ some (waiting, t) = unfold submit in rw done refl in
    ap (λ role. submit os c name argv role s) leads ∙ now

-- The state when a write is put in the log: the log has one entry more, of the current term and the
-- given name and text, and either the commit index is raised, in a cluster of one node, or the
-- client waits.
abbrev pub Written : ℕ → Bytes → Bytes → ClusterState → ClusterState → Type 0
Written id name text s t =
    (log' : Log) × (t ≡ commit_or_wait id (new_entry s name text) (record s { log = log' }))
    × Contiguous 0 log'.log_entries
    × (entries_of log'
        ≡ entries_of s.log
          ++ record {
            index = pos (suc (log_length s.log));
            term = s.current_term;
            command_name = name;
            command = text;
          }
            ∷ [])

-- A write is accepted for later.
set_waits :
    (os : Os) (c : ℕ) (argv : List Bytes) (s : ClusterState) (text : Bytes)
    → s.state ≡ leading
    → 2 ≤ length argv
    → Contiguous 0 s.log.log_entries
    → log_length s.log ≤ max_length
    → command_text (codes "set" ∷ argv) ≡ some text
    → (t : ClusterState) × (server_command os c (codes "set" ∷ argv) s ≡ some (false, t))
      × Written c (codes "set") text s t
unfolding server_command process_command run_or_submit
set_waits os c argv s text leads enough cg b defined =
    let (log', done, more, same) =
      cluster_process_command-appends os c (codes "set") (codes "set" ∷ argv) s text cg b defined in
    let t = commit_or_wait c (new_entry s (codes "set") text) (record s { log = log' }) in
    let later = submitted os c (codes "set") (codes "set" ∷ argv) s t leads done in
    (
      t,
      rw (set_lower, set_known, set_fits (suc (length argv)) (omega arith), set_writes, later) refl,
      (log', refl, more, same),
    )

-- The rounds in which a write is read and put in the log, and the next round finds that the client
-- still has arguments.
pub record Stopped (os : Os) (id : ℕ) (c : Client) (argv : List Bytes) (rest text : Bytes)
    (s : ClusterState) : Type 0 where
  pub reading :
      let first = typed (ready c (request argv rest)) in
      process_request first.reqtype first ≡ ok (has_read c argv rest)
  pub after : ClusterState
  pub accepted :
      run_request (server_command os id) (has_read c argv rest) s
      ≡ some (has_read c argv rest, after)
  pub written : Written id (codes "set") text s after
  pub failing : process_request multibulk (has_read c argv rest) ≡ aborted
  pub stopping : process_input_buffer (server_command os id) (ready c (request argv rest)) s ≡ none

-- A leader does not survive a second command behind a write. Let a leader have a log of the indices
-- 1, 2, 3, … with 2^62 entries at most, and let a client send a `set` that the log has room for
-- and, before the reply, anything else. Then processInputBuffer reads the `set`, which puts an entry
-- of the next index, the current term and the command's text behind the log and leaves the client's
-- arguments in place, and in the next round the assertion of processMultibulkBuffer fails.
pub process_input_buffer_write :
    (os : Os) (id : ℕ) (c : Client) (argv : List Bytes) (rest : Bytes) (s : ClusterState)
    (text : Bytes)
    → s.state ≡ leading
    → Acceptable (codes "set" ∷ argv)
    → 2 ≤ length argv
    → 0 < length rest
    → Contiguous 0 s.log.log_entries
    → log_length s.log ≤ max_length
    → command_text (codes "set" ∷ argv) ≡ some text
    → Stopped os id c (codes "set" ∷ argv) rest text s
process_input_buffer_write os id c argv rest s text leads a enough more cg b defined =
    let (t, later, written) = set_waits os id argv s text leads enough cg b defined in
    record {
      reading = reads c (codes "set" ∷ argv) rest a;
      after = t;
      accepted = run_later (server_command os id) c (codes "set" ∷ argv) rest s t a.some_args later;
      written = written;
      failing = not_reset c (codes "set" ∷ argv) rest a.some_args;
      stopping =
          process_input_buffer-unreset (server_command os id) c (codes "set" ∷ argv) rest s t a
            later more;
    }
