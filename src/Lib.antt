-- ===== src/Lib.antt =====
-- Prez is a replicated key-value server: the server core of Redis with the Raft protocol between
-- the servers. This library models its replication: the log (src/log.c), the node of the cluster
-- (src/cluster.c, src/cluster.h), the requests of clients (src/networking.c), their way into the
-- log (src/prez.c), the keys (src/db.c) in their hash table (src/dict.c), and the parts of the core
-- that these stand on (src/adlist.c, src/sds.c, src/util.c).
--
-- processInputBuffer takes the requests of a client off its buffer, as lines or in the format with
-- lengths, and hands each to processCommand; on a leader clusterProcessCommand makes it an entry of
-- the log. clusterCron sends the entries to the other nodes, starts elections, raises the commit
-- index and hands committed entries to logApply. A packet from another node reaches
-- clusterReadHandler, which puts it together and hands it to clusterProcessPacket, and from there
-- to one of four handlers. A command that is applied reads or writes the keys. The log is kept in
-- memory and in a file, from which loadLogFile restores it.
--
-- Prelude: names passed on from the libraries, Boolean tests, lists, the C integers, byte
--   strings.
-- Util/Decimal: digits10, ll2string and string2ll of src/util.c. Under it Scan, Length, Digits
--   and RoundTrip have the lemmas.
-- Adlist: the list of src/adlist.c as the sequence of its values, a node being its position.
--   Index says which node listIndex finds.
-- Sds/Buffer: the buffers of src/sds.c, by their bytes and free room. Sds/SplitArgs:
--   sdssplitargs, with sdscatrepr in Repr.
-- Log: getLogNode to logAppendEntries of src/log.c. A log is its entries, log_current_size and
--   the bytes of the file. Log/Index, Log/Verify: which entry an index finds. Log/Write,
--   Log/Append, Log/Takeover and Log/Replicate: writing entries against the rule of the protocol.
--   Log/Image and Log/Durable: the file. Log/Conflict: the conflict at the last entry. Log/Load:
--   loadLogFile, with Lines, Record, Restore and Ends.
-- Cluster/Message and Cluster/State: the structures of src/cluster.h. Cluster/Send:
--   clusterBuildMessageHdr to clusterSendAppendEntries. Cluster/Handle: clusterProcessPacket, its
--   four handlers and logCommitIndex. Cluster/Apply: logApply. Cluster/Commit:
--   clusterUpdateCommitIndex. Cluster/Cron: clusterCron. Cluster/Client: processCommand and
--   clusterProcessCommand. Cluster/Init: initClusterConfig and clusterInit. Cluster/Nodes:
--   createClusterNode to clusterRenameNode and freeClusterLink. Cluster/Link: clusterWriteHandler.
--   Cluster/Link/Read: clusterReadHandler; under it Frames, Deliver and Drain feed it byte by byte,
--   packet by packet, and until the socket is empty.
-- Cluster/CatchUp: rounds of replication until a node has caught up, in Behind.
-- Cluster/Evolve, Packets, CronEvolve, Job, Vote and Elections: terms and votes, up to any
--   sequence of packets and runs of the job. Cluster/Follow, Replication, Machine, Interop and
--   Commit/Quorum: what a follower takes over, a round between two nodes, the commands it executes,
--   the messages, and the majority.
-- Networking: the client, resetClient and setProtocolError of src/networking.c.
--   Networking/Inline: processInlineBuffer, with Line. Networking/Multibulk:
--   processMultibulkBuffer; Reference is the same without positions, Agree and Refine compare the
--   two, RoundTrip has the text of a request, Lines, Resume and Chunks a request in pieces, Shrink
--   what is taken off the buffer. Networking/Input: processInputBuffer over any commands; Rounds,
--   Pipeline, and Server, which puts processCommand in.
-- Dict: the tables of src/dict.c, their growth and the move between them; Dict/Operations:
--   dictFind, dictAdd, dictReplace and dictDelete; Dict/Hash: the hash functions and the types of
--   src/prez.c. Chains, Tables and Updates have one table as a finite map, Valid the invariant of a
--   dictionary, Sizes and Expand the growth, Rehash, Bucket and Progress the move, Change, Laws and
--   Store the operations, Run sequences of calls. Dict/Iterator: dictGetIterator, dictNext and
--   dictReleaseIterator; under it Visits, Walk and Complete say which entries they return.
-- Db: the operations of src/db.c on keys, over any finite map. Db/Commands: getCommand and
--   setCommand of src/prez.c; Replay has the commands of a log, Follower the node that executes
--   them. Db/Hashed: the hash table as the finite map under the keys.
-- Samples hold small logs and nodes; the modules named Tests and LogTests run the definitions and
--   apply the theorems to them.
--
-- Every function of the source that changes state is a function from the state to the new state, in
-- an Option where C may read memory that it must not (NULL, behind an array, not initialised):
-- `none`. A `long long` is an integer without bounds; where C converts to `unsigned long`, `long`
-- or `int` the conversion is written out. Structures have the sizes of a 64-bit machine. The send
-- buffers are one list of messages, oldest first, and what is handed to a command is one list of
-- events.
--
-- Loops over lists are structural. delete_from has as many rounds as the list has nodes, digits10
-- as many as a 64-bit number has groups of digits, sdssplitargs as many as the line has bytes,
-- apply_rounds as many as commit_index is above last_applied, load_entries as many as the file has
-- bytes, and input_rounds as many as the buffer has bytes: each round uses up one at least.
-- multibulk_rounds has as many rounds as there are strings to read, and cluster_read_handler one
-- for each call of read(2). dict_next_power doubles at most 61 times, which takes 4 above LONG_MAX,
-- the search for the next bucket is over the rest of the table, and dict_next has as many rounds as
-- the two tables have buckets, and three more.
--
-- The operating system is a parameter: how many bytes write(2) takes, how many read(2) has ready,
-- whether fsync(2) succeeds, the clock, random(3), whether a connection can be made, and what stands in front of a text that
-- zstrdup made. qsort(3)
-- is a parameter of which its documented behaviour is a hypothesis. Db takes the map under the keys
-- as a parameter with its laws, and Db/Hashed fills it with the hash table; there the step of a
-- move that dictFind does on the side, and that of a call that fails, is left out of the new state:
-- it changes nothing of what the table holds. Allocation does not fail, and the counts of entries
-- do not wrap, since the entries are in memory.
--
-- Not modelled: sockets, the event loop, byte order, the making of links and clients, the buffers
-- of replies, reference counts and encodings of objects, random keys, scans and fingerprints of the
-- dictionary (the tables of the cluster are association lists), the command config and the
-- configuration, and log messages. A packet is a text of bytes in Cluster/Link and a structure in
-- Cluster/Handle. Most of src/db.c is not compiled. voted_for and leader are texts; what
-- sdslen reads in front of voted_for is a number beside it, which the environment gives where
-- zstrdup made the text. A copy of a structure or an array may take bytes past the end of what it
-- is copied from, where these bytes are not looked at afterwards.
pub mod Prelude
pub mod Util
pub mod Adlist
pub mod Sds
pub mod Log
pub mod Cluster
pub mod Networking
pub mod Dict
pub mod Db
