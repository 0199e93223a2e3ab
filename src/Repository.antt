-- ===== src/Repository.antt =====
-- vmbackupd/repository_v2.py: the tables behind the recovery and reclaim services, and the queries
-- and updates that those services make. A table is the list of its rows in the order of insertion;
-- timestamps that no modelled query reads, and the ids of events, are left out; a new row's uuid
-- is an argument.
pub mod Runs
pub mod Points
pub mod Tasks
use vmbackupd.Prelude.{ℕ, String, Bool, Option, List}

pub record JobRun : Type 0 where
  pub id : String
  pub storage_destination_id : String
  pub state : String
  pub created_at : ℕ
  -- The entries of `context_json` that the runtime reads or writes.
  pub execution_phase : Option String
  pub recovery_required : Bool
  pub recovery_reason : Option String
  pub error : Option String

pub record PointRow : Type 0 where
  pub id : String
  pub job_run_id : String
  pub status : String
  pub created_at : ℕ

-- A row of `backup_artifacts`, with the path of its metadata.
pub record ArtifactRow : Type 0 where
  pub id : String
  pub job_run_id : String
  pub kind : String
  pub path : Option String

pub data EventData : Type 0 where
  message : Option String → EventData
  state_changed : String → String → EventData
  -- class, component, message, retryable, decision and reason
  failure : String → String → String → Bool → String → String → EventData
  action : String → EventData

pub record RunEvent : Type 0 where
  pub job_run_id : String
  pub event_type : String
  pub content : EventData

-- An entry of `reclaim_plan.candidates`; `status` is a key that may be absent.
pub record Candidate : Type 0 where
  pub restore_point_id : String
  pub status : Option String

pub record ReclaimPlan : Type 0 where
  pub candidates : Option (List Candidate)
  pub selected_bytes : Option ℕ
  pub deleted : Option (List String)

pub record Verification : Type 0 where
  pub free_bytes : ℕ
  pub required_bytes : ℕ

-- `details_json` of a recovery task: an absent key is `none`.
pub record Details : Type 0 where
  pub phase : Option String
  pub storage_id : Option String
  pub required_bytes : Option ℕ
  pub reclaim_plan : Option ReclaimPlan
  pub verification : Option Verification

pub record RecoveryTask : Type 0 where
  pub id : String
  pub run_id : String
  pub task_type : String
  pub state : String
  pub details : Details
  pub error : Option String

-- A storage destination and the `backup_data_root` of its configuration.
pub record StorageRow : Type 0 where
  pub id : String
  pub backup_data_root : Option String

pub record Db : Type 0 where
  pub runs : List JobRun
  pub points : List PointRow
  pub artifacts : List ArtifactRow
  pub events : List RunEvent
  pub tasks : List RecoveryTask
  pub storages : List StorageRow
