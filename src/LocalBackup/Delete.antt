-- ===== src/LocalBackup/Delete.antt =====
-- backup_catalog_v2.py, `LocalBackupCatalogService`: the deletion of one local restore point with its
-- bundle. The file system is the list of its paths, each a directory or not; `rmtree`, `resolve` and
-- the lexical operations on paths are parameters.
use vmbackupd.Prelude.{
  ℕ, String, Bool, true, false, not, ◌||◌, Option, none, some, List, str_eq, if◌then◌else◌, filter,
  find_by, update_by, lookup, Result, ok, err, Error, domain_invariant_error, integrity_error, any,
  backup_catalog_error, described, raise_if, ◌>>=◌, ◌>>◌,
}
use Prim.Native.String.{◌++◌}
use vmbackupd.Compact.{Point, Run, Job, Vm, Storage, Catalog}
use vmbackupd.Compact.Points.{find_point, find_run, run_id_of, is_ssh}
use vmbackupd.Compact.Records.{get_storage_destination}
use vmbackupd.Replica.Executor.{Paths, is_below}
use vmbackupd.Replica.Deletes.{enqueue_replica_deletes_v2}

-- Each path that exists, and whether it is a directory.
abbrev pub Entries : Type 0
Entries = List (String × Bool)

pub record Host : Type 0 where
  pub db : Catalog
  pub entries : Entries

pub record DeleteCandidate : Type 0 where
  pub id : String
  pub job_run_id : String
  pub job_id : String
  pub storage_destination_id : String
  pub node_id : String
  pub status : String
  pub run_state : String
  pub bundle_object_id : Option String

abbrev candidate_of_vm : Point → Run → Option Vm → Option DeleteCandidate
candidate_of_vm p r none = none
candidate_of_vm p r (some vm) = some (record {
  id = p.id;
  job_run_id = p.job_run_id;
  job_id = r.job_id;
  storage_destination_id = r.storage_destination_id;
  node_id = vm.node_id;
  status = p.status;
  run_state = r.state;
  bundle_object_id = p.bundle_object_id;
})

abbrev candidate_of_job : Catalog → Point → Run → Option Job → Option DeleteCandidate
candidate_of_job db p r none = none
candidate_of_job db p r (some job) = candidate_of_vm p r (find_by (λ v. v.id) db.vms job.vm_id)

abbrev candidate_of_run : Catalog → Point → Option Run → Option DeleteCandidate
candidate_of_run db p none = none
candidate_of_run db p (some r) = candidate_of_job db p r (find_by (λ j. j.id) db.jobs r.job_id)

abbrev candidate_of_point : Catalog → Option Point → Option DeleteCandidate
candidate_of_point db none = none
candidate_of_point db (some p) = candidate_of_run db p (find_run db p.job_run_id)

unfoldable pub get_local_restore_point_delete_candidate : Catalog → String → Option DeleteCandidate
get_local_restore_point_delete_candidate db id = candidate_of_point db (find_point db id)

-- Both `DELETE` statements.
unfoldable pub delete_rows : String → String → Catalog → Catalog
delete_rows id run_id db = record db {
  artifacts = filter (λ a. not (str_eq a.job_run_id run_id)) db.artifacts;
  points = filter (λ p. not (str_eq p.id id)) db.points;
}

-- A restore point that a restore operation refers to keeps its row, and the artifacts theirs.
abbrev delete_found : String → Catalog → Option Point → Result Bool × Catalog
delete_found run_id db none = (ok false, db)
delete_found run_id db (some p) =
    if not (str_eq p.job_run_id run_id) || not (str_eq p.status "AVAILABLE")
    then (err (domain_invariant_error "RESTORE_POINT_NOT_RECLAIMABLE"), db)
    else if any (str_eq p.id) db.restore_operations
    then (err (integrity_error "FOREIGN KEY constraint failed"), db)
    else (ok true, delete_rows p.id run_id db)

unfoldable pub delete_local_restore_point_catalog :
    String → String → Catalog → Result Bool × Catalog
delete_local_restore_point_catalog id run_id db = delete_found run_id db (find_point db id)

abbrev pub set_enqueue_error : Error → Run → Run
set_enqueue_error e r = record r { replica_delete_enqueue_error = some (described e) }

-- The tombstones, or a note of why there are none; neither stops the deletion.
abbrev pub or_noted : String → Result ℕ × Catalog → Catalog
or_noted run_id (ok n, db) = db
or_noted run_id (err e, db) = record db {
  runs = update_by run_id_of (set_enqueue_error e) run_id db.runs;
}

module _ (paths : Paths) (resolve : String → String) where
  unfoldable pub validated_bundle_path : Storage → Option String → Result String
  validated_bundle_path destination none =
      err (backup_catalog_error "BACKUP_PATH_MISSING" "backup bundle path is missing")
  validated_bundle_path destination (some bundle) =
      let root = resolve destination.backup_data_root in
      let target = resolve bundle in
      if str_eq bundle ""
      then err (backup_catalog_error "BACKUP_PATH_MISSING" "backup bundle path is missing")
      else if str_eq target root || not (is_below (paths.parts root) (paths.parts target))
      then err (
          backup_catalog_error "BACKUP_PATH_OUTSIDE_DESTINATION"
            ("backup bundle is outside destination root: " ++ target))
      else ok target

  abbrev pub candidate_or_raise : Option DeleteCandidate → Result DeleteCandidate
  candidate_or_raise none =
      err (backup_catalog_error "RESTORE_POINT_NOT_FOUND" "backup restore point was not found")
  candidate_or_raise (some c) = ok c

  abbrev pub is_other_job : Option String → String → Bool
  is_other_job none job_id = false
  is_other_job (some expected) job_id = not (str_eq job_id expected)

  -- What is checked before anything is changed: the restore point, and its bundle's path.
  unfoldable pub deletable : String → Option String → Catalog → Result (DeleteCandidate × String)
  deletable id expected_job_id db = do
    candidate ← candidate_or_raise (get_local_restore_point_delete_candidate db id)
    raise_if (is_other_job expected_job_id candidate.job_id)
        (backup_catalog_error "RESTORE_POINT_JOB_MISMATCH" "backup does not belong to this job")
    raise_if (not (str_eq candidate.status "AVAILABLE"))
        (backup_catalog_error "RESTORE_POINT_NOT_AVAILABLE" "backup is not available for deletion")
    raise_if (not (str_eq candidate.run_state "SUCCESS"))
        (backup_catalog_error "BACKUP_RUN_NOT_SUCCESS" "backup run is not in SUCCESS state")
    destination ← get_storage_destination db candidate.node_id candidate.storage_destination_id
    raise_if (is_ssh destination.storage_type) (
        backup_catalog_error "BACKUP_DELETE_STORAGE_UNSUPPORTED"
          "manual physical deletion currently supports LOCAL backups only")
    target ← validated_bundle_path destination candidate.bundle_object_id
    ok (candidate, target)

  module _ (rmtree : String → Entries → Result (Unit {0}) × Entries) where
    abbrev pub remove_entry : String → Option Bool → Entries → Result (Unit {0}) × Entries
    remove_entry target none entries = (ok tt, entries)
    remove_entry target (some false) entries = (
      err (
          backup_catalog_error "BACKUP_BUNDLE_NOT_DIRECTORY"
            ("backup bundle is not a directory: " ++ target)),
      entries,
    )
    remove_entry target (some true) entries = rmtree target entries

    -- `if target.exists(): ...`
    unfoldable pub remove_bundle : String → Entries → Result (Unit {0}) × Entries
    remove_bundle target entries = remove_entry target (lookup entries target) entries

    abbrev pub deleted_row : String → Entries → Result Bool × Catalog → Result String × Host
    deleted_row target entries (err e, db) = (err e, record { db = db; entries = entries })
    deleted_row target entries (ok false, db) = (
      err (
          backup_catalog_error "RESTORE_POINT_DELETE_CONFLICT"
            "backup catalog changed during deletion"),
      record { db = db; entries = entries },
    )
    deleted_row target entries (ok true, db) = (ok target, record { db = db; entries = entries })

    abbrev pub after_remove :
        DeleteCandidate → String → Catalog → Result (Unit {0}) × Entries → Result String × Host
    after_remove c target db (err e, entries) = (err e, record { db = db; entries = entries })
    after_remove c target db (ok u, entries) =
        deleted_row target entries (delete_local_restore_point_catalog c.id c.job_run_id db)

    abbrev pub delete_checked : ℕ → Result (DeleteCandidate × String) → Host → Result String × Host
    delete_checked stamp (err e) host = (err e, host)
    delete_checked stamp (ok (c, target)) host =
        after_remove c target
          (or_noted c.job_run_id (enqueue_replica_deletes_v2 c.id stamp host.db))
          (remove_bundle target host.entries)

    -- The path of the deleted bundle, or what was raised, with what is left.
    unfoldable pub delete_restore_point : String → Option String → ℕ → Host → Result String × Host
    delete_restore_point id expected_job_id stamp host =
        delete_checked stamp (deletable id expected_job_id host.db) host
