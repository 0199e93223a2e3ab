-- ===== src/Tests/Reclaim.antt =====
-- `ReclaimRecoveryExecutor.execute` on a plan with a pending candidate, and on a new task.
use vmbackupd.Prelude.{◌≡◌, ◌⊎◌, ◌≤◌, refl, arith, none, some, [], ◌∷◌, ok, filter}
use vmbackupd.Repository.{Details}
use vmbackupd.Reclaim
use vmbackupd.Reclaim.{
  checkpoint_saved, TaskStatus, candidates_of, phase_of, start_step, purge_first, purge_candidate,
  purging_step, after_purge, purged_plan,
}
use vmbackupd.Reclaim.Phases.{Progress, execute-Progress}
use vmbackupd.Reclaim.Deletion.{PurgesOne, execute-PurgesOne}
use vmbackupd.Reclaim.Progress.{
  IsPurged, execute-IsPurged, calls, EndsWithin, purging_ends, pending_count,
}
use vmbackupd.Reclaim.Stall.{reclaim-deletes_nothing}
use vmbackupd.Repository.Points.{
  list_successful_restore_points, find_point, get_restore_point, list_backup_artifacts,
  get_storage_root, find_storage,
}
use vmbackupd.Repository.Runs.{find_run}
use vmbackupd.Purge.{
  plan_delete, resolve_artifact, find_bundle, delete_restore_point, delete_planned,
  delete_validated, validate_artifact_path, is_inside, delete_path, record_outcome,
}
use vmbackupd.Tests.Fixture.{host, system, adapters, pending_details, new_details}

start_returns : (Reclaim.execute host adapters new_details system).0 ≡ ok (start_step new_details)
unfolding Reclaim.execute
start_returns = refl

execute-Progress_example : Progress host adapters new_details system (start_step new_details)
execute-Progress_example =
    execute-Progress host adapters new_details system (start_step new_details) start_returns

execute-PurgesOne_example :
    ((Reclaim.execute host adapters pending_details system).1 ≡ system)
    ⊎ ((phase_of pending_details ≡ "PURGING")
        × PurgesOne host adapters
            (candidates_of pending_details)
            system
            (Reclaim.execute host adapters pending_details system).1)
execute-PurgesOne_example = execute-PurgesOne host adapters pending_details system

reclaim-deletes_nothing_example : (calls host adapters 7 new_details system).1 ≡ system
reclaim-deletes_nothing_example = reclaim-deletes_nothing host adapters 7 new_details system refl

one_pending : pending_count (candidates_of pending_details) ≤ 1
unfolding filter
one_pending = omega arith

purging_ends_example : EndsWithin host adapters 1 pending_details system
purging_ends_example = purging_ends host adapters 0 pending_details system refl one_pending

abbrev purged : TaskStatus × Details
purged = after_purge pending_details (
  record { restore_point_id = "p"; status = some "DONE" }
      ∷ record { restore_point_id = "q"; status = none }
      ∷ [],
  "p" ∷ [],
)

purging_returns : (Reclaim.execute host adapters pending_details system).0 ≡ ok purged
unfolding Reclaim.execute purging_step purge_first purge_candidate delete_restore_point
    delete_planned delete_validated plan_delete resolve_artifact find_bundle validate_artifact_path
    is_inside delete_path record_outcome get_restore_point list_backup_artifacts find_point find_run
    get_storage_root find_storage list_successful_restore_points filter
purging_returns = refl

execute-IsPurged_example : IsPurged (pending_count (candidates_of pending_details)) purged.1
execute-IsPurged_example =
    execute-IsPurged host adapters pending_details system purged refl purging_returns
