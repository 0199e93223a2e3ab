-- ===== src/Purge/Plan.antt =====
-- purge_adapter_v2.py: whether a restore point may be deleted, and where its bundle is.
use vmbackupd.Prelude.{
  String, Bool, true, false, not, ◌&&◌, Option, none, some, List, [], ◌∷◌, leb, str_eq, length,
  if◌then◌else◌, Result, ok, err, type_error,
}
use vmbackupd.Host.{Host}
use vmbackupd.Repository.{ArtifactRow, Candidate, Db}
use vmbackupd.Repository.Points.{
  RestorePointView, get_restore_point, list_successful_restore_points, list_backup_artifacts,
  get_storage_root,
}

pub data PlanDelete : Type 0 where
  refused : String → PlanDelete
  allowed : String → ArtifactRow → PlanDelete

-- The loop of `resolve_artifact`: the first artifact of kind BUNDLE.
unfoldable pub find_bundle : List ArtifactRow → Option ArtifactRow
find_bundle [] = none
find_bundle (a ∷ as') =
    let rest = find_bundle as' in if str_eq a.kind "BUNDLE" then some a else rest

abbrev pub bundle_of_point : Option RestorePointView → Db → Option ArtifactRow
bundle_of_point none db = none
bundle_of_point (some p) db = find_bundle (list_backup_artifacts p.job_run_id db)

unfoldable pub resolve_artifact : Option Db → Candidate → Option ArtifactRow
resolve_artifact none c = none
resolve_artifact (some db) c = bundle_of_point (get_restore_point c.restore_point_id db) db

abbrev pub can_delete_point : Option RestorePointView → Db → Bool
can_delete_point none db = false
can_delete_point (some p) db =
    str_eq p.status "SUCCESS" && not (leb (length (list_successful_restore_points db)) 1)

unfoldable pub can_delete : Option Db → Candidate → Bool
can_delete none c = false
can_delete (some db) c = can_delete_point (get_restore_point c.restore_point_id db) db

abbrev pub plan_artifact : String → Option ArtifactRow → PlanDelete
plan_artifact point_id none = refused "BUNDLE_ARTIFACT_NOT_FOUND"
plan_artifact point_id (some a) = allowed point_id a

abbrev pub plan_point : Candidate → Option RestorePointView → Db → PlanDelete
plan_point c none db = refused "RESTORE_POINT_NOT_FOUND"
plan_point c (some p) db =
    if not (str_eq p.status "SUCCESS")
    then refused "RESTORE_POINT_NOT_SUCCESS"
    else if leb (length (list_successful_restore_points db)) 1
    then refused "LAST_SUCCESSFUL_RESTORE_POINT"
    else plan_artifact c.restore_point_id (resolve_artifact (some db) c)

unfoldable pub plan_delete : Option Db → Candidate → PlanDelete
plan_delete none c = refused "NO_REPOSITORY"
plan_delete (some db) c = plan_point c (get_restore_point c.restore_point_id db) db

-- `target != root and target.relative_to(root)` on the parts of resolved paths.
unfoldable pub is_inside : List String → List String → Bool
is_inside [] [] = false
is_inside [] (t ∷ ts) = true
is_inside (r ∷ rs) [] = false
is_inside (r ∷ rs) (t ∷ ts) = let rest = is_inside rs ts in str_eq r t && rest

abbrev pub non_empty : Option String → Option String
non_empty none = none
non_empty (some s) = if str_eq s "" then none else some s

module _ (h : Host) where
  -- `Path(None)` raises.
  abbrev pub validate_target :
      h.World → Option String → Option String → Result (Option (List String))
  validate_target w none path = ok none
  validate_target w (some root) none = err (type_error "path must be a string")
  validate_target w (some root) (some path) =
      ok (if is_inside (h.resolve w root) (h.resolve w path) then some (h.resolve w path) else none)

  abbrev pub validate_in_storage :
      h.World → Db → Option String → Option String → Result (Option (List String))
  validate_in_storage w db none path = ok none
  validate_in_storage w db (some storage_id) path =
      validate_target w (non_empty (get_storage_root storage_id db)) path

  abbrev pub validate_for_point :
      h.World → Db → Option RestorePointView → Option String → Result (Option (List String))
  validate_for_point w db none path = ok none
  validate_for_point w db (some p) path =
      validate_in_storage w db (non_empty (some p.storage_destination_id)) path

  unfoldable pub validate_artifact_path :
      h.World → Db → String → Option String → Result (Option (List String))
  validate_artifact_path w db point_id path =
      validate_for_point w db (get_restore_point point_id db) path
