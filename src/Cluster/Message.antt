-- ===== src/Cluster/Message.antt =====
-- src/cluster.h: the messages of the cluster bus, and their sizes (LP64).
use prez.Prelude.{ℕ, ◌+◌, ◌-◌, ◌*◌, List, Option}
use prez.Prelude.Int.{ℤ}
use prez.Prelude.Text.{Bytes}
use prez.Log.{LogEntry}

pub record RequestVote : Type 0 where
  pub term : ℤ
  pub candidateid : Bytes
  pub last_log_index : ℤ
  pub last_log_term : ℤ

pub record ResponseVote : Type 0 where
  pub term : ℤ
  pub vote_granted : ℕ

-- `log_entries` is what stands in the array of 50 entries, the first log_entries_count in use.
pub record AppendEntries : Type 0 where
  pub term : ℤ
  pub leaderid : Bytes
  pub prev_log_index : ℤ
  pub prev_log_term : ℤ
  pub leader_commit_index : ℤ
  pub log_entries_count : ℕ
  pub log_entries : List LogEntry

-- `ok` is PREZ_OK, 0, or PREZ_ERR, -1.
pub record ResponseAppendEntries : Type 0 where
  pub term : ℤ
  pub index : ℤ
  pub commit_index : ℤ
  pub ok : ℤ

-- The message type with the member of the union that it selects.
pub data Body : Type 0 where
  vote_request : RequestVote → Body
  vote_request_resp : ResponseVote → Body
  append_entries : AppendEntries → Body
  append_entries_resp : ResponseAppendEntries → Body
  other_type : ℕ → Body

-- The header in host byte order, with the body.
pub record ClusterMsg : Type 0 where
  pub sig : Bytes
  pub totlen : ℕ
  pub ver : ℕ
  pub sender : Bytes
  pub port : ℕ
  pub body : Body

abbrev pub log_max_entries_per_request : ℕ
log_max_entries_per_request = 50

-- sizeof of logEntry, of the four members of the union, and of clusterMsg without the union.
abbrev pub log_entry_size : ℕ
log_entry_size = 96

abbrev pub request_vote_size : ℕ
request_vote_size = 64

abbrev pub response_vote_size : ℕ
response_vote_size = 16

abbrev pub append_entries_size : ℕ
append_entries_size = 4880

abbrev pub response_append_entries_size : ℕ
response_append_entries_size = 32

abbrev pub header_size : ℕ
header_size = 96

-- The length that clusterProcessPacket expects; none for a type that it does not know.
unfoldable pub expected_length : Body → Option ℕ
expected_length (vote_request m) = Option.some (header_size + request_vote_size)
expected_length (append_entries m) = Option.some (
    header_size
    + (append_entries_size
        - log_entry_size * log_max_entries_per_request
        + m.log_entries_count * log_entry_size))
expected_length (vote_request_resp m) = Option.some (header_size + response_vote_size)
expected_length (append_entries_resp m) = Option.some (header_size + response_append_entries_size)
expected_length (other_type t) = Option.none

-- What clusterBuildMessageHdr computes; AppendEntries is left to the caller.
unfoldable pub built_length : Body → ℕ
built_length (vote_request m) = header_size + request_vote_size
built_length (vote_request_resp m) = header_size + response_vote_size
built_length (append_entries_resp m) = header_size + response_append_entries_size
built_length (append_entries m) = 0
built_length (other_type t) = 0
