-- ===== src/Replica.antt =====
-- vmbackupd/replica_v2.py and the replica queue of repository_v2.py: sending the restore points to the
-- SSH destinations of their job, and deleting them there.
pub mod Queue
pub mod Claim
pub mod Updates
pub mod Executor
pub mod Sending
pub mod Progress
pub mod Receipts
pub mod Settled
pub mod Deletes
pub mod Due
pub mod Attempts
pub mod Tombstones
pub mod Keys
pub mod Tries
pub mod Cap
