-- ===== src/Networking/Tests.antt =====
-- src/networking.c: small requests.
use prez.Prelude.{
  ◌≡◌, ◌<◌, inl, refl, Bool, true, false, List, [], ◌∷◌, ◌++◌, Option, none, some, All, arith,
  length,
}
use prez.Prelude.Text.{Bytes, codes}
use prez.Log.Samples.{machine, three_log, three_log-Contiguous}
use prez.Log.Load.{c_string}
use prez.Sds.Buffer.{sdscatlen, sds_make_room_for, sdsnewlen, sdsrange}
use prez.Util.Decimal.{string2ll}
use prez.Sds.SplitArgs.{sdssplitargs}
use prez.Cluster.State.{ClusterState, leading}
use prez.Cluster.Samples.{node_with}
use prez.Cluster.Client.{command_text}
use prez.Networking.{Client, unknown, ok, err}
use prez.Networking.Inline.{process_inline_buffer, nonempty_args}
use prez.Networking.Inline.Line.{InLine, process_inline_buffer-sdssplitargs}
use prez.Networking.Multibulk.{process_multibulk_buffer, multibulk_rounds}
use prez.Networking.Multibulk.Reference.{read_strings, skip}
use prez.Networking.Multibulk.Refine.{multibulk_rounds-read_strings}
use prez.Networking.Multibulk.RoundTrip.{request, process_multibulk_buffer-request}
use prez.Networking.Multibulk.Resume.{extend}
use prez.Networking.Multibulk.Chunks.{process_multibulk_buffer-extend}
use prez.Networking.Input.{process_input_buffer}
use prez.Networking.Input.Rounds.{Runs, process_input_buffer-Runs}
use prez.Networking.Input.Pipeline.{
  Acceptable, pipeline, ready, executed, process_input_buffer-pipeline,
}
use prez.Networking.Input.Server.{Stopped, process_input_buffer_write}

abbrev idle : Client
idle = record {
  querybuf = [];
  reqtype = unknown;
  argv = [];
  multibulklen = 0;
  bulklen = none;
  errors = [];
  blocked = false;
  close_after_reply = false;
}

abbrev get_a : List Bytes
get_a = codes "get" ∷ codes "a" ∷ []

abbrev set_a : List Bytes
set_a = codes "set" ∷ codes "a" ∷ codes "1" ∷ []

process_multibulk_buffer-request_example :
    process_multibulk_buffer (record idle { querybuf = request get_a (codes "*1") })
    ≡ ok (record idle { querybuf = codes "*1"; argv = get_a })
process_multibulk_buffer-request_example =
    process_multibulk_buffer-request get_a (codes "*1") idle (omega arith) (omega arith)
      (omega arith, (omega arith, tt))

-- Two strings are to be read, and one has come.
abbrev halfway : Client
halfway = record idle { multibulklen = 2; querybuf = codes "$3\r\nget\r\n" }

multibulk_rounds-read_strings_example :
    multibulk_rounds 2 0 halfway ≡ read_strings 2 (skip 0 halfway)
multibulk_rounds-read_strings_example =
    multibulk_rounds-read_strings 2 0 halfway refl (omega arith) (inl (omega arith))

abbrev one_read : Client
one_read = record idle { multibulklen = 1; argv = codes "get" ∷ [] }

stopped : process_multibulk_buffer halfway ≡ err one_read
unfolding process_multibulk_buffer multibulk_rounds string2ll sdsrange sdsnewlen
stopped = refl

process_multibulk_buffer-extend_example :
    process_multibulk_buffer (extend halfway (codes "$1\r\na\r\n"))
    ≡ process_multibulk_buffer (extend one_read (codes "$1\r\na\r\n"))
process_multibulk_buffer-extend_example =
    process_multibulk_buffer-extend halfway one_read (codes "$1\r\na\r\n") (omega arith) stopped
      refl

-- A command that keeps the arguments that it is given.
abbrev keep : List Bytes → List (List Bytes) → Option (Bool × List (List Bytes))
keep argv seen = some (true, seen ++ argv ∷ [])

process_input_buffer-Runs_example :
    Runs keep
      (ready idle (request get_a (codes "*0")))
      []
      (process_input_buffer keep (ready idle (request get_a (codes "*0"))) [])
process_input_buffer-Runs_example =
    process_input_buffer-Runs keep (ready idle (request get_a (codes "*0"))) []

get_a-Acceptable : Acceptable get_a
get_a-Acceptable = record {
  some_args = omega arith;
  few = omega arith;
  short = (omega arith, (omega arith, tt));
}

set_a-Acceptable : Acceptable set_a
set_a-Acceptable = record {
  some_args = omega arith;
  few = omega arith;
  short = (omega arith, (omega arith, (omega arith, tt)));
}

both_kept : executed keep (get_a ∷ set_a ∷ []) [] ≡ some (get_a ∷ set_a ∷ [])
unfolding executed
both_kept = refl

process_input_buffer-pipeline_example :
    process_input_buffer keep (ready idle (pipeline (get_a ∷ set_a ∷ []))) []
    ≡ some (ready idle [], get_a ∷ set_a ∷ [])
process_input_buffer-pipeline_example =
    process_input_buffer-pipeline keep idle (get_a ∷ set_a ∷ []) [] (get_a ∷ set_a ∷ [])
      (get_a-Acceptable, (set_a-Acceptable, tt)) both_kept

abbrev leader : ClusterState
leader = node_with leading 1 three_log []

set_a_text : command_text set_a ≡ some (codes "set a 1\n")
unfolding command_text c_string sdscatlen sds_make_room_for sdsnewlen
set_a_text = refl

more_comes : 0 < length (request get_a [])
unfolding request
more_comes = omega arith

process_input_buffer_write_example :
    Stopped machine 7 idle set_a (request get_a []) (codes "set a 1\n") leader
process_input_buffer_write_example =
    process_input_buffer_write machine 7 idle (codes "a" ∷ codes "1" ∷ []) (request get_a []) leader
      (codes "set a 1\n") refl set_a-Acceptable (omega arith) more_comes three_log-Contiguous
      (omega arith) set_a_text

in_line : All InLine (codes "get a")
in_line = ground arith

two_words : sdssplitargs (codes "get a") ≡ some get_a
unfolding sdssplitargs
two_words = refl

process_inline_buffer-sdssplitargs_example :
    process_inline_buffer (record idle { querybuf = codes "get a" ++ b'\r' ∷ b'\n' ∷ codes "set" })
    ≡ ok (record idle { querybuf = codes "set"; argv = nonempty_args get_a })
process_inline_buffer-sdssplitargs_example =
    process_inline_buffer-sdssplitargs idle (codes "get a") (codes "set") get_a in_line two_words
