-- ===== src/Purge/Queue.antt =====
-- A purge, and so a reclaim, touches neither the runs nor the recovery tasks.
use vmbackupd.Prelude.{
  ◌≡◌, refl, Bool, Option, some, none, String, List, if◌then◌else◌, Result, ok, err,
}
use vmbackupd.Host.{Host}
use vmbackupd.Repository.{PointRow, ArtifactRow, Candidate, Db}
use vmbackupd.Repository.Points.{
  purge_event_of, find_point, append_purge_event, delete_backup_artifact,
  mark_restore_point_deleted,
}
use vmbackupd.Repository.Runs.{append_event}
use vmbackupd.Purge.{
  PlanDelete, refused, allowed, plan_delete, validate_artifact_path, DeleteStatus, success,
  not_found, failed, System, delete_path, record_outcome, delete_validated, delete_planned,
  delete_restore_point,
}

abbrev pub SameQueue : Db → Db → Type 0
SameQueue d d' = (d'.runs ≡ d.runs) × (d'.tasks ≡ d.tasks)

purge_event-SameQueue :
    (o : Option PointRow) (event_type : String) (text : Option String) (db : Db)
    → SameQueue db (purge_event_of o event_type text db)
unfolding append_event
purge_event-SameQueue none event_type text db = (refl, refl)
purge_event-SameQueue (some p) event_type text db = (refl, refl)

append_purge_event-SameQueue :
    (i event_type : String) (text : Option String) (db : Db)
    → SameQueue db (append_purge_event i event_type text db)
unfolding append_purge_event
append_purge_event-SameQueue i event_type text db =
    purge_event-SameQueue (find_point db.points i) event_type text db

record_outcome-SameQueue :
    (i : String) (a : ArtifactRow) (status : DeleteStatus) (db : Db)
    → SameQueue db (record_outcome i a status db).1
unfolding record_outcome mark_restore_point_deleted delete_backup_artifact
record_outcome-SameQueue i a success db = append_purge_event-SameQueue i _ _ db
record_outcome-SameQueue i a (not_found text) db = append_purge_event-SameQueue i _ _ db
record_outcome-SameQueue i a (failed text) db = append_purge_event-SameQueue i _ _ db

module _ (h : Host) where
  delete_validated-SameQueue :
      (i : String) (a : ArtifactRow) (v : Result (Option (List String))) (s : System h)
      → SameQueue s.db (delete_validated h i a v s).1.db
  unfolding delete_validated
  delete_validated-SameQueue i a (err e) s = (refl, refl)
  delete_validated-SameQueue i a (ok none) s = append_purge_event-SameQueue i _ _ s.db
  delete_validated-SameQueue i a (ok (some target)) s =
      record_outcome-SameQueue i a (delete_path h s.world target).1 s.db

  delete_planned-SameQueue :
      (plan : PlanDelete) (s : System h) → SameQueue s.db (delete_planned h plan s).1.db
  unfolding delete_planned
  delete_planned-SameQueue (refused reason) s = (refl, refl)
  delete_planned-SameQueue (allowed i a) s =
      delete_validated-SameQueue i a (validate_artifact_path h s.world s.db i a.path) s

  pub delete_restore_point-SameQueue :
      (has_repository : Bool) (c : Candidate) (s : System h)
      → SameQueue s.db (delete_restore_point h has_repository c s).1.db
  unfolding delete_restore_point
  delete_restore_point-SameQueue has_repository c s =
      delete_planned-SameQueue (plan_delete (if has_repository then some s.db else none) c) s
