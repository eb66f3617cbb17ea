-- ===== src/Db/Commands.antt =====
-- src/prez.c: the commands get and set.
pub mod Replay
pub mod Follower
use prez.Prelude.{
  ℕ, suc, ◌≡◌, Bool, true, false, List, [], ◌∷◌, ◌++◌, Option, none, some, map, length, ◌==◌,
  if◌then◌else◌,
}
use prez.Prelude.Text.{Bytes, bytes_eq, codes}
use prez.Log.{◌>>=◌}
use prez.Cluster.Apply.{to_lower}
use prez.Cluster.State.{Executed, by_client, by_log}
use prez.Db.{Robj, prez_string, FiniteMap, Keyspace, lookup_key_read, set_key}

-- The replies: the shared objects by their names, and a value.
pub data Answer : Type 0 where
  answer_ok nullbulk wrongtypeerr syntaxerr : Answer
  bulk : Bytes → Answer

-- createObject(PREZ_STRING,…) of each argument.
unfoldable pub string_objects : List Bytes → List Robj
string_objects argv = map (λ arg. record { kind = prez_string; ptr = arg }) argv

unfoldable pub answer_of : Option Robj → List Answer
answer_of none = nullbulk ∷ []
answer_of (some o) = if o.kind == prez_string then bulk o.ptr ∷ [] else wrongtypeerr ∷ []

module _ {D : Type 0} (dict : FiniteMap D) where
  unfoldable pub set_generic_command : Keyspace D → Bytes → Robj → Option (List Answer × Keyspace D)
  unfolding set_key
  set_generic_command s key val = do
    db ← set_key dict s.dict key val
    some (answer_ok ∷ [], record s { dict = db })

  -- With another number of arguments than three the error is replied, and then the key is set all
  -- the same.
  unfoldable pub set_command : Keyspace D → List Robj → Option (List Answer × Keyspace D)
  unfolding set_generic_command
  set_command s (name ∷ key ∷ val ∷ more) = set_generic_command s key.ptr val >>= λ r.
      some (if length more == 0 then r.0 else syntaxerr ∷ r.0, r.1)
  set_command s argv = none

  -- lookupKeyReadOrReply and getGenericCommand.
  unfoldable pub get_generic_command : Keyspace D → Bytes → List Answer × Keyspace D
  unfolding lookup_key_read answer_of
  get_generic_command s key = let found = lookup_key_read dict s key in (answer_of found.0, found.1)

  -- The arguments are those of the client.
  unfoldable pub get_command : Keyspace D → List Robj → Option (List Answer × Keyspace D)
  unfolding get_generic_command
  get_command s (name ∷ key ∷ more) = some (get_generic_command s key.ptr)
  get_command s argv = none

  -- `cmd->proc(NULL,oargv,argc)`: there is no client, which of the three commands getCommand and
  -- configCommand do not survive.
  unfoldable pub call_logged : Bytes → List Robj → Keyspace D → Option (Keyspace D)
  unfolding set_command
  call_logged name argv s =
      let stored = set_command s argv in
      if bytes_eq name (codes "set") then (stored >>= λ r. some r.1) else none

  -- The commands that a node has executed from its log, on the keys.
  unfoldable pub replay : List Executed → Keyspace D → Option (Keyspace D)
  unfolding call_logged string_objects to_lower
  replay [] s = some s
  replay (by_client c ∷ more) s = none
  replay (by_log [] ∷ more) s = none
  replay (by_log (name ∷ argv) ∷ more) s = do
    t ← call_logged (map to_lower name) (string_objects (name ∷ argv)) s
    replay more t
