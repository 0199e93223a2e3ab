-- ===== src/Purge.antt =====
-- vmbackupd/purge_adapter_v2.py and physical_delete_adapter_v2.py: deleting the bundle of one
-- restore point. The adapter's repository is the database, as bootstrap.py wires it, or absent.
-- A call returns its result with the database and the world that it leaves; an uncaught
-- exception is an error with the same.
mod Plan
mod Delete
pub mod Safety
pub mod Effects
pub mod Catalogue
pub mod Survivors
pub mod Queue
pub use Plan.{PlanDelete, refused, allowed}
unfoldable pub use Plan.{
  find_bundle, resolve_artifact, can_delete, plan_delete, is_inside, validate_artifact_path,
}
pub use Delete.{DeleteStatus, success, not_found, failed, PurgeResult, not_deleted, deleted, System}
unfoldable pub use Delete.{
  delete_path, record_outcome, delete_validated, delete_planned, delete_restore_point,
}
