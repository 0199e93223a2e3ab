-- ===== src/Tests/Purge.antt =====
-- `PurgeAdapter.delete_restore_point` on the first of two successful restore points.
use vmbackupd.Prelude.{
  ◌≡◌, ◌↔◌, ◌<◌, refl, arith, true, some, String, ◌≢◌, eq_iff, ok, length, filter,
}
use mathlib.Core.Bool.{false≢true}
use vmbackupd.Repository.{ArtifactRow}
use vmbackupd.Repository.Points.{
  list_successful_restore_points, find_point, get_restore_point, list_backup_artifacts,
  get_storage_root, find_storage,
}
use vmbackupd.Repository.Runs.{find_run}
use vmbackupd.Purge.{
  allowed, plan_delete, can_delete, resolve_artifact, find_bundle, deleted, success,
  delete_restore_point, delete_planned, delete_validated, validate_artifact_path, is_inside,
  delete_path, record_outcome,
}
use vmbackupd.Purge.Safety.{plan_delete-allowed_iff}
use vmbackupd.Purge.Effects.{IsContained, delete_restore_point-IsContained}
use vmbackupd.Purge.Catalogue.{AgreesWith, delete_restore_point-AgreesWith}
use vmbackupd.Purge.Survivors.{delete_restore_point-survivor}
use vmbackupd.Tests.Fixture.{host, db, system, first}

purge_deletes : (delete_restore_point host true first system).0 ≡ ok (deleted "p" "a" success)
unfolding delete_restore_point delete_planned delete_validated plan_delete resolve_artifact
    find_bundle validate_artifact_path is_inside delete_path record_outcome get_restore_point
    list_backup_artifacts find_point find_run get_storage_root find_storage
    list_successful_restore_points filter
purge_deletes = refl

plan_delete-allowed_iff_example :
    ((i : String) × (a : ArtifactRow) × (plan_delete (some db) first ≡ allowed i a)) ↔ (
      (can_delete (some db) first ≡ true)
      × (a : ArtifactRow) × (resolve_artifact (some db) first ≡ some a))
plan_delete-allowed_iff_example = plan_delete-allowed_iff (some db) first

delete_restore_point-IsContained_example :
    IsContained host system "p" (delete_restore_point host true first system).1.world
delete_restore_point-IsContained_example = delete_restore_point-IsContained host true first system

delete_restore_point-AgreesWith_example :
    AgreesWith "p"
      (delete_restore_point host true first system).0
      db
      (delete_restore_point host true first system).1.db
delete_restore_point-AgreesWith_example = delete_restore_point-AgreesWith host true first system

p-ne_q : ◌≢◌ {A = String} "p" "q"
p-ne_q e = false≢true ((eq_iff "p" "q").1 e)

some_success : 0 < length (list_successful_restore_points db)
unfolding list_successful_restore_points filter
some_success = omega arith

delete_restore_point-survivor_example :
    0 < length (list_successful_restore_points (delete_restore_point host true first system).1.db)
delete_restore_point-survivor_example =
    delete_restore_point-survivor host true first system ((p-ne_q, tt), (tt, tt)) some_success
