-- ===== src/Purge/Delete.antt =====
-- purge_adapter_v2.py, `delete_restore_point`, over physical_delete_adapter_v2.py.
use vmbackupd.Prelude.{String, Bool, Option, none, some, List, if◌then◌else◌, Result, ok, err}
use vmbackupd.Host.{Host}
use vmbackupd.Repository.{ArtifactRow, Candidate, Db}
use vmbackupd.Repository.Points.{
  append_purge_event, delete_backup_artifact, mark_restore_point_deleted,
}
use vmbackupd.Purge.Plan.{PlanDelete, refused, allowed, plan_delete, validate_artifact_path}

-- What `delete_path` reports, with its message.
pub data DeleteStatus : Type 0 where
  success : DeleteStatus
  not_found : String → DeleteStatus
  failed : String → DeleteStatus

pub data PurgeResult : Type 0 where
  not_deleted : String → PurgeResult
  -- The restore point, the artifact and the physical outcome.
  deleted : String → String → DeleteStatus → PurgeResult

-- The purge event of each outcome, and the catalogue rows that a deletion removes.
unfoldable pub record_outcome : String → ArtifactRow → DeleteStatus → Db → PurgeResult × Db
record_outcome point_id artifact (failed text) db = (
  not_deleted "PHYSICAL_DELETE_FAILED",
  append_purge_event point_id "PURGE_FAILED" (some text) db,
)
record_outcome point_id artifact (not_found text) db = (
  deleted point_id artifact.id (not_found text),
  mark_restore_point_deleted point_id (
      delete_backup_artifact artifact.id
        (append_purge_event point_id "PURGE_FILE_MISSING" (some text) db)),
)
record_outcome point_id artifact success db = (
  deleted point_id artifact.id success,
  mark_restore_point_deleted point_id
      (delete_backup_artifact artifact.id (append_purge_event point_id "PURGE_COMPLETED" none db)),
)

abbrev removal_status : Option String → DeleteStatus
removal_status none = success
removal_status (some text) = failed text

module _ (h : Host) where
  -- The state that the services share: the database and the host.
  pub record System : Type 0 where
    pub db : Db
    pub world : h.World

  -- `PhysicalDeleteAdapter.delete_path` at a path that is not None.
  unfoldable pub delete_path : h.World → List String → h.World × DeleteStatus
  delete_path w target =
      if h.exists w target
      then (let (w', problem) =
            if h.is_dir w target then h.rmtree w target else h.unlink w target in
          (w', removal_status problem))
      else (w, not_found "target does not exist")

  -- From the validated path on.
  unfoldable pub delete_validated :
      String → ArtifactRow → Result (Option (List String)) → System → Result PurgeResult × System
  delete_validated point_id artifact (err e) s = (err e, s)
  delete_validated point_id artifact (ok none) s = (
    ok (not_deleted "INVALID_ARTIFACT_PATH"),
    record s {
      db = append_purge_event point_id "PURGE_FAILED" (some "artifact path validation failed") s.db;
    },
  )
  delete_validated point_id artifact (ok (some target)) s =
      let (world', status) = delete_path s.world target in
      let (result, db') = record_outcome point_id artifact status s.db in
      (ok result, record { db = db'; world = world' })

  unfoldable pub delete_planned : PlanDelete → System → Result PurgeResult × System
  delete_planned (refused reason) s = (ok (not_deleted reason), s)
  delete_planned (allowed point_id artifact) s =
      delete_validated point_id artifact
        (validate_artifact_path h s.world s.db point_id artifact.path) s

  -- `PurgeAdapter(repository).delete_restore_point(candidate)`; `has_repository` is false for an
  -- adapter made without one.
  unfoldable pub delete_restore_point : Bool → Candidate → System → Result PurgeResult × System
  delete_restore_point has_repository c s =
      delete_planned (plan_delete (if has_repository then some s.db else none) c) s
