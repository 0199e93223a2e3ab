-- ===== src/Lib.antt =====
-- vmbackupd backs up virtual machines into chains of a full backup and its increments, keeps them
-- by a retention policy, and frees space when a backup does not fit. This library models the parts
-- that decide what is deleted and how a run goes on, and proves what they promise.
--
-- The parts, the files of the repository they are in, and the modules that model them:
--   * src/vmbackupd/models.py: the enumerations, the records, and the checks of RetentionPolicy
--     (Models).
--   * src/vmbackupd/retention.py: `CapacityReclaimPlanner.plan` (Retention/CapacityPlanner, with its
--     loop in Selection, its guarantees in Guarantees and Outcome) and `RetentionPlanner.plan`
--     (Retention/Planner, with Members, Closure and Links below it, and the guarantees in Guarantees
--     and Safety).
--   * src/vmbackupd/capacity.py: `FullChainCapacityCollector.collect` and
--     `CapacityPlanningService.plan_job` (Capacity, with Collection, Report and Job), which join the
--     stored chains, their measured bytes and the capacity planner.
--   * src/vmbackupd/repository_v2.py over the tables of schema_v2.py: the queries and updates of the
--     services below (Repository, Runs, Points and Tasks). A table is the list of its rows.
--   * src/vmbackupd/purge_adapter_v2.py and physical_delete_adapter_v2.py: the deletion of one
--     restore point, `delete_restore_point` (Purge: Plan and Delete; Safety, Effects, Catalogue,
--     Survivors and Queue).
--   * src/vmbackupd/reclaim_executor_v2.py and capacity_adapter_v2.py: the reclaim workflow
--     START, SELECTING, PLAN_READY, PURGING, VERIFY, one checkpoint for each call of `execute`
--     (Reclaim: Phases, Deletion, Progress and Stall).
--   * src/vmbackupd/recovery_policy_v2.py, recovery_queue_v2.py and recovery_executor_v2.py: what to do
--     about a failure, the queue of recovery tasks, the executor of each type (Recovery).
--   * src/vmbackupd/runtime_v2.py: `process_recovery_tasks`, `recover_runs` and `advance_run`
--     (Runtime: Tasks and Runs). It calls the recovery executors, which call the reclaim workflow,
--     which calls the purge adapter; all of them share one database and one host.
--   * src/vmbackupd/state_machine.py and state_machine_v2.py: the rules for the state of a run
--     (States: Legacy and V2).
--   * src/vmbackupd/chain_schedule_v2.py: the next full and incremental slot after an instant, and
--     `advance_cursor` (Schedule, with Slots).
--   * src/vmbackupd/replica_v2.py with the replica queue of repository_v2.py, over the rows of the
--     compact schema with their JSON documents (Compact: Points and Records). `claim_next_replica_v2`
--     and the updates (Replica: Queue, Claim, Updates), `CompactReplicaExecutor.run_once` (Executor,
--     with Sending, Receipts, Settled and Progress), the tombstones of remote replicas and
--     `CompactReplicaDeleteExecutor.run_once` (Deletes, with Due, Attempts, Tombstones, Keys and Cap).
--   * src/vmbackupd/backup_catalog_v2.py and the retention of local_backup_v2.py: the deletion of a
--     local restore point with its bundle, which records the tombstones first, the lists of FULL
--     chains, `_delete_chain`, `_reclaim_for_space` and `_enforce_full_retention` (LocalBackup: Delete,
--     Chain and Retention, with Deletion, Effects, Deleted, Closed, Kept
--     and Floor).
-- Prelude has the lists, the texts, the stable sort and the results of code that may raise; Host is
-- the file system; Tests runs the model on concrete inputs.
--
-- How the code is rendered. A call that may raise returns a `Result` with the exception class and its
-- message. The services pass a `System` on, the database with the state of the host, and what was
-- done before an exception stays done. An aware datetime is the natural number of its instant, an id a
-- string. Integers that the code checks for a sign are ℤ, and naturals after the check. A float
-- percentage is the test of its range and the integer part of its share. Sets are lists of which
-- only membership is used; dictionaries of details are records with optional fields. A new uuid is an
-- argument. Of an event its data is kept, and its id and time are left out, as are the timestamps
-- that no modelled query reads. Rows with equal sort keys come in the order of insertion.
--
-- Every loop of the modelled code runs over a list, so that the functions are structural; the number
-- of calls of the reclaim workflow is an argument of `calls`, and `purging_ends` says how many are
-- enough. The searches and the advance of the schedule end after the days and the slots that the code
-- itself allows: 15, 3700 and 100000. The recursive query of a FULL's descendants runs for as many
-- rounds as there are rows, after which a round adds nothing.
--
-- Parameters: the file system and the free space of a volume (Host), the executor of runs that the
-- runtime is given (Runtime, `Executor`), the inspector of bundles and the queries of the first
-- repository (Capacity), the time zone database (Schedule, `Zone`), the client of a receiver with what
-- it calls back (Replica, `Client` and `DeleteClient`), the lexical operations of pathlib (`Paths`),
-- `resolve`, `rmtree` and the free space after a deletion (LocalBackup). A stamp is compared as an
-- instant, and the calls of one pass have the same stamp.
--
-- Not modelled: the libvirt and qemu calls, SSH, the receiver, the sender,
-- `retry_replica_chain_v2`, restoring, the validation of schedules, the SQL and migrations of the
-- first schema, the application's commands and the Cockpit pages.
pub mod Prelude
pub mod Models
pub mod Retention
pub mod Host
pub mod Repository
pub mod Purge
pub mod Reclaim
pub mod Recovery
pub mod Runtime
pub mod States
pub mod Capacity
pub mod Schedule
pub mod Compact
pub mod Replica
pub mod LocalBackup
mod Tests
