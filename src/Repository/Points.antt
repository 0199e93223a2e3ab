-- ===== src/Repository/Points.antt =====
-- repository_v2.py: restore points, artifacts and storages, as the reclaim services use them.
use vmbackupd.Prelude.{
  String, Bool, false, not, ◌&&◌, Option, none, some, List, [], ◌∷◌, map, str_eq, leb,
  if◌then◌else◌, filter,
}
use vmbackupd.Prelude.Sort.{sort}
use vmbackupd.Repository.{JobRun, PointRow, ArtifactRow, message, Candidate, StorageRow, Db}
use vmbackupd.Repository.Runs.{find_run, append_event}

unfoldable pub find_point : List PointRow → String → Option PointRow
find_point [] point_id = none
find_point (p ∷ ps) point_id =
    let rest = find_point ps point_id in if str_eq p.id point_id then some p else rest

-- The row that `get_restore_point` joins from the point and its run.
pub record RestorePointView : Type 0 where
  pub id : String
  pub job_run_id : String
  pub status : String
  pub storage_destination_id : String

abbrev join_run : List JobRun → PointRow → Option RestorePointView
join_run runs p = elim (find_run runs p.job_run_id) [
  | none ↦ none
  | some r ↦ some (record {
    id = p.id;
    job_run_id = p.job_run_id;
    status = p.status;
    storage_destination_id = r.storage_destination_id;
  })
]

unfoldable pub get_restore_point : String → Db → Option RestorePointView
get_restore_point point_id db = elim (find_point db.points point_id) [
  | none ↦ none
  | some p ↦ join_run db.runs p
]

unfoldable pub list_successful_restore_points : Db → List String
list_successful_restore_points db =
    map (λ p. p.id) (filter (λ p. str_eq p.status "SUCCESS") db.points)

unfoldable pub list_backup_artifacts : String → Db → List ArtifactRow
list_backup_artifacts run_id db = filter (λ a. str_eq a.job_run_id run_id) db.artifacts

unfoldable pub delete_backup_artifact : String → Db → Db
delete_backup_artifact artifact_id db = record db {
  artifacts = filter (λ a. not (str_eq a.id artifact_id)) db.artifacts;
}

unfoldable pub mark_restore_point_deleted : String → Db → Db
mark_restore_point_deleted point_id db = record db {
  points = map (λ p. if str_eq p.id point_id then record p { status = "DELETED" } else p) db.points;
}

abbrev pub purge_event_of : Option PointRow → String → Option String → Db → Db
purge_event_of none event_type text db = db
purge_event_of (some p) event_type text db = append_event p.job_run_id event_type (message text) db

-- The event goes to the run of the point; for an unknown point nothing is inserted.
unfoldable pub append_purge_event : String → String → Option String → Db → Db
append_purge_event point_id event_type text db =
    purge_event_of (find_point db.points point_id) event_type text db

unfoldable pub find_storage : List StorageRow → String → Option StorageRow
find_storage [] storage_id = none
find_storage (s ∷ ss) storage_id =
    let rest = find_storage ss storage_id in if str_eq s.id storage_id then some s else rest

-- `get_storage_config(storage_id).get("backup_data_root")`
unfoldable pub get_storage_root : String → Db → Option String
get_storage_root storage_id db = elim (find_storage db.storages storage_id) [
  | none ↦ none
  | some s ↦ s.backup_data_root
]

abbrev is_run_of : List JobRun → String → String → Bool
is_run_of runs storage_id run_id = elim (find_run runs run_id) [
  | none ↦ false
  | some r ↦ str_eq r.storage_destination_id storage_id
]

-- `rows[:-1]`, which also covers the early return for at most one row.
unfoldable pub but_last : List PointRow → List PointRow
but_last [] = []
but_last (p ∷ []) = []
but_last (p ∷ q ∷ rest) = p ∷ but_last (q ∷ rest)

-- The rows that `list_reclaim_candidates` selects, oldest first.
unfoldable pub completed_points : String → Db → List PointRow
completed_points storage_id db =
    sort (λ p q. leb p.created_at q.created_at)
      (filter (λ p. str_eq p.status "COMPLETED" && is_run_of db.runs storage_id p.job_run_id)
        db.points)

-- The candidate dictionaries have no key `status`.
unfoldable pub list_reclaim_candidates : Option String → Db → List Candidate
list_reclaim_candidates none db = []
list_reclaim_candidates (some storage_id) db =
    map (λ p. record { restore_point_id = p.id; status = none })
      (but_last (completed_points storage_id db))
