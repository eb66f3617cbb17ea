-- ===== src/Cluster/Apply.antt =====
-- src/log.c: logApply, with the command table of src/prez.c that it looks into.
use prez.Prelude.{
  ℕ, ◌+◌, Bool, true, false, ◌&&◌, ◌||◌, not, List, [], ◌∷◌, ◌++◌, Option, none, some, leb, ◌==◌,
  if◌then◌else◌, length, map,
}
use prez.Prelude.Int.{ℤ, pos, negsuc, ◌-ℤ◌, ltb_ℤ, ◌==ℤ◌}
use prez.Prelude.Text.{Bytes, bytes_eq, codes}
use prez.Log.{LogEntry, LogEntryNode, get_log_entry}
use prez.Sds.SplitArgs.{sdssplitargs}
use prez.Cluster.State.{ClusterState, Role, leading, Executed, by_client, by_log}

-- prezCommandTable: names and arities.
abbrev pub command_table : List (Bytes × ℤ)
command_table = (codes "get", pos 2) ∷ (codes "set", negsuc 2) ∷ (codes "config", negsuc 1) ∷ []

unfoldable pub to_lower : ℕ → ℕ
to_lower c = if leb b'A' c && leb c b'Z' then c + 32 else c

find_command : List (Bytes × ℤ) → Bytes → Option ℤ
find_command [] name = none
find_command ((known, arity) ∷ table) name =
    if bytes_eq known name then some arity else find_command table name

-- lookupCommand: the dictionary of commands compares without regard to case.
unfoldable pub lookup_command : Bytes → Option ℤ
unfolding find_command to_lower
lookup_command name = find_command command_table (map to_lower name)

-- `(arity > 0 && arity != argc) || (argc < -arity)`.
unfoldable pub wrong_arity : ℤ → ℕ → Bool
wrong_arity arity argc =
    (ltb_ℤ (pos 0) arity && not (arity ==ℤ pos argc)) || ltb_ℤ (pos argc) (pos 0 -ℤ arity)

unfoldable pub any_empty : List Bytes → Bool
any_empty [] = false
any_empty (arg ∷ argv) = length arg == 0 || any_empty argv

unfoldable pub execute : ClusterState → Executed → ClusterState
execute s x = record s { executed = s.executed ++ x ∷ [] }

-- getCommand and configCommand look at the arguments of the client that they are called for.
unfoldable pub reads_client : List Bytes → Bool
unfolding to_lower
reads_client [] = false
reads_client (name ∷ argv) =
    bytes_eq (map to_lower name) (codes "get") || bytes_eq (map to_lower name) (codes "config")

-- No object is made for an empty argument: its place in oargv is not initialised, and neither is
-- oargv[0] where there is no argument. `none` is a use of such a place,
-- and the call of a command that looks at its client: `cmd->proc(NULL,oargv,argc)` gives it none.
unfoldable pub run_command : ClusterState → List Bytes → Option ℤ → Option ClusterState
run_command s argv none = some s
run_command s argv (some arity) =
    if wrong_arity arity (length argv)
    then some s
    else if any_empty argv
    then none
    else if reads_client argv
    then none
    else some (execute s (by_log argv))

unfoldable pub run_logged : ClusterState → Option (List Bytes) → Option ClusterState
run_logged s none = some s
run_logged s (some []) = none
run_logged s (some (name ∷ argv)) =
    if length name == 0 then none else run_command s (name ∷ argv) (lookup_command name)

unfoldable pub fetch_client : ℤ → List (ℤ × ℕ) → Option ℕ
fetch_client index [] = none
fetch_client index ((i, c) ∷ clients) = if i ==ℤ index then some c else fetch_client index clients

unfoldable pub delete_client : ℤ → List (ℤ × ℕ) → List (ℤ × ℕ)
delete_client index [] = []
delete_client index ((i, c) ∷ clients) =
    if i ==ℤ index then clients else (i, c) ∷ delete_client index clients

unfoldable pub is_leading : Role → Bool
is_leading leading = true
is_leading r = false

unfoldable pub waiting_client : ClusterState → ℤ → Option ℕ
unfolding is_leading
waiting_client s index = if is_leading s.state then fetch_client index s.proc_clients else none

unfoldable pub apply_entry : ClusterState → ℤ → LogEntry → Option ℕ → Option ClusterState
apply_entry s index e (some c) =
    some (execute (record s { proc_clients = delete_client index s.proc_clients }) (by_client c))
apply_entry s index e none = run_logged s (sdssplitargs e.command)

unfoldable pub apply_found : ClusterState → ℤ → Option LogEntryNode → Option ClusterState
apply_found s index none = some s
apply_found s index (some en) = apply_entry s index en.log_entry (waiting_client s index)

unfoldable pub log_apply : ℤ → ClusterState → Option ClusterState
unfolding apply_found apply_entry waiting_client run_logged run_command any_empty reads_client
    execute
log_apply index s = apply_found s index (get_log_entry s.log index)
