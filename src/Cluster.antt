-- ===== src/Cluster.antt =====
-- src/cluster.h and src/cluster.c: the Raft node over the cluster bus.
pub mod Message
pub mod State
pub mod Send
pub mod Handle
pub mod Evolve
pub mod Packets
pub mod CronEvolve
pub mod Apply
pub mod Commit
pub mod Cron
pub mod Job
pub mod Vote
pub mod Elections
pub mod Follow
pub mod Replication
pub mod CatchUp
pub mod Machine
pub mod Client
pub mod Interop
pub mod Samples
mod Tests
mod LogTests
pub mod Init
pub mod Link
pub mod Nodes
