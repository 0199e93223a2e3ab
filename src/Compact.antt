-- ===== src/Compact.antt =====
-- repository_v2.py over schema_v2.py: the rows of the compact schema with the parts of
-- `metadata_json` and `context_json` that the catalogue, the replica queue and the deletions use. A
-- key that may be absent is an option; the state of a replica is written in capitals, as the program
-- does, so that `.upper()` changes nothing. A transaction that raises is rolled back.
pub mod Points
pub mod Records
use vmbackupd.Prelude.{ℕ, String, Bool, Option, List}
use vmbackupd.Models.{BackupKind}

pub data StorageType : Type 0 where
  local ssh : StorageType

-- An entry of `metadata["replicas"]`.
pub record Replica : Type 0 where
  pub task_id : String
  pub state : String
  pub attempts : ℕ
  pub last_error : Option String
  pub remote_bundle_object_id : Option String
  pub updated_at : ℕ
  pub verified_at : Option ℕ
  pub bytes_processed : Option ℕ
  pub bytes_total : Option ℕ
  pub transport_mode : Option String
  pub seed_restore_point_id : Option String
  pub source_payload_bytes : Option ℕ

-- An entry of `context["replica_delete_tasks"]`.
pub record DeleteTask : Type 0 where
  pub restore_point_id : String
  pub destination_id : String
  pub remote_storage_id : String
  pub remote_bundle_object_id : String
  pub kind : BackupKind
  pub sequence : ℕ
  pub chain_id : Option String
  pub state : String
  pub attempts : ℕ
  pub max_attempts : ℕ
  pub last_error : Option String
  pub next_attempt_at : ℕ
  pub created_at : ℕ
  pub updated_at : ℕ

pub record Point : Type 0 where
  pub id : String
  pub job_run_id : String
  pub kind : BackupKind
  pub status : String
  pub created_at : ℕ
  pub chain_id : Option String
  pub sequence : Option ℕ
  pub parent_restore_point_id : Option String
  pub bundle_object_id : Option String
  pub replicas : List (String × Replica)

pub record Run : Type 0 where
  pub id : String
  pub job_id : String
  pub storage_destination_id : String
  pub state : String
  pub created_at : ℕ
  pub replica_delete_tasks : List (String × DeleteTask)
  pub replica_delete_enqueue_error : Option String

pub record Job : Type 0 where
  pub id : String
  pub vm_id : String

pub record Vm : Type 0 where
  pub id : String
  pub node_id : String

pub record Storage : Type 0 where
  pub id : String
  pub node_id : String
  pub storage_type : StorageType
  pub backup_data_root : String
  pub remote_storage_id : Option String

pub record Artifact : Type 0 where
  pub id : String
  pub job_run_id : String

pub record Catalog : Type 0 where
  pub points : List Point
  pub runs : List Run
  pub jobs : List Job
  pub vms : List Vm
  pub storages : List Storage
  pub artifacts : List Artifact
  -- The restore points that a restore operation refers to.
  pub restore_operations : List String
