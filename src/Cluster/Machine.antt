-- ===== src/Cluster/Machine.antt =====
-- src/cluster.c and src/log.c: a follower executes the committed commands of its log, in order.
use prez.Prelude.{
  ◌≡◌, Bool, true, false, List, [], ◌∷◌, ◌++◌, Option, none, some, if◌then◌else◌, ◌||◌, not, length,
}
use prez.Prelude.Int.{ℤ}
use prez.Prelude.Text.{Bytes}
use prez.Log.{Log, LogEntry}
use prez.Sds.SplitArgs.{sdssplitargs}
use prez.Cluster.State.{Executed, by_log}
use prez.Cluster.Apply.{lookup_command, wrong_arity, any_empty, reads_client}

-- A command that is known and has the right number of arguments is executed.
executed_as : List Bytes → Option ℤ → List Executed
executed_as argv none = []
executed_as argv (some arity) = if wrong_arity arity (length argv) then [] else by_log argv ∷ []

pub executed_for : Option (List Bytes) → List Executed
executed_for none = []
executed_for (some []) = []
executed_for (some (name ∷ argv)) = executed_as (name ∷ argv) (lookup_command name)

-- What the entries of a log make a node execute.
unfoldable pub commands_of : List LogEntry → List Executed
unfolding executed_for executed_as
commands_of [] = []
commands_of (e ∷ es) = executed_for (sdssplitargs e.command) ++ commands_of es

-- The command would not be called, or it does not look at its client.
unfoldable pub without_client : List Bytes → Option ℤ → Bool
without_client argv none = true
without_client argv (some arity) = wrong_arity arity (length argv) || not (reads_client argv)

-- A command whose quotes are not balanced, or that has arguments of which none is empty and is no
-- `get` and no `config` that would be called.
pub data Runnable (e : LogEntry) : Type 0 where
  unbalanced : sdssplitargs e.command ≡ none → Runnable e
  arguments :
      (name : Bytes) (argv : List Bytes)
      → sdssplitargs e.command ≡ some (name ∷ argv)
      → any_empty (name ∷ argv) ≡ false
      → without_client (name ∷ argv) (lookup_command name) ≡ true
      → Runnable e
