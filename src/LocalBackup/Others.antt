-- ===== src/LocalBackup/Others.antt =====
-- backup_catalog_v2.py, `delete_restore_point`: the rows that do not belong to the restore point.
use vmbackupd.Prelude.{
  ℕ, zero, suc, String, Bool, true, false, not, ◌≡◌, ◌≢◌, refl, ◌∙◌, inl, inr, Option, none, some,
  Bool-cases, Option-cases, ◌∈◌, str_eq, eq_iff, mem-filter, mem-of_filter, find_by,
  find_by-update_by, update_by, change_if, Result, ok, err,
}
use vmbackupd.Compact.{Artifact, Point, Run, Catalog}
use vmbackupd.Compact.Points.{run_id_of, find_point, find_run}
use vmbackupd.Replica.Deletes.{
  Tasks, set_tasks, write_tasks, enqueue_items, store_created, enqueue_replica_deletes_v2,
}
use vmbackupd.LocalBackup.Delete.{
  delete_rows, delete_local_restore_point_catalog, set_enqueue_error, or_noted,
}
use vmbackupd.LocalBackup.Deletion.{catalog-cases}

-- What stays when rows of one run are deleted: the artifacts and the rows of all other runs, and the
-- jobs, the machines, the storages and the restore operations.
pub record IsLeft (run_id : String) (db db' : Catalog) : Type 0 where
  pub artifacts : (a : Artifact) → a ∈ db.artifacts → a.job_run_id ≢ run_id → a ∈ db'.artifacts
  pub no_new : (a : Artifact) → a ∈ db'.artifacts → a ∈ db.artifacts
  pub runs : (j : String) → str_eq j run_id ≡ false → find_run db' j ≡ find_run db j
  pub jobs : db'.jobs ≡ db.jobs
  pub vms : db'.vms ≡ db.vms
  pub storages : db'.storages ≡ db.storages
  pub operations : db'.restore_operations ≡ db.restore_operations

pub same-IsLeft : (run_id : String) (db : Catalog) → IsLeft run_id db db
same-IsLeft run_id db = record {
  artifacts = λ a m n. m;
  no_new = λ a m. m;
  runs = λ j n. refl;
  jobs = refl;
  vms = refl;
  storages = refl;
  operations = refl;
}

pub trans-IsLeft :
    (run_id : String) (a b c : Catalog) → IsLeft run_id a b → IsLeft run_id b c → IsLeft run_id a c
trans-IsLeft run_id a b c s t = record {
  artifacts = λ x m n. t.artifacts x (s.artifacts x m n) n;
  no_new = λ x m. s.no_new x (t.no_new x m);
  runs = λ j n. t.runs j n ∙ s.runs j n;
  jobs = t.jobs ∙ s.jobs;
  vms = t.vms ∙ s.vms;
  storages = t.storages ∙ s.storages;
  operations = t.operations ∙ s.operations;
}

other_run :
    (change : Run → Run) (j run_id : String) (db : Catalog)
    → ((r : Run) → (change r).id ≡ r.id)
    → str_eq j run_id ≡ false
    → find_by run_id_of (update_by run_id_of change run_id db.runs) j ≡ find_by run_id_of db.runs j
other_run change j run_id db keeps n =
    find_by-update_by run_id_of change keeps db.runs run_id j
    ∙ rw n (same (find_by run_id_of db.runs j))
  where
    same : (o : Option Run) → change_if change false o ≡ o
    same none = refl
    same (some r) = refl

tasks-IsLeft :
    (run_id : String) (tasks : Tasks) (db : Catalog)
    → IsLeft run_id db (write_tasks run_id tasks db)
unfolding write_tasks find_run
tasks-IsLeft run_id tasks db = record {
  artifacts = λ a m n. m;
  no_new = λ a m. m;
  runs = λ j n. other_run (set_tasks tasks) j run_id db (λ r. refl) n;
  jobs = refl;
  vms = refl;
  storages = refl;
  operations = refl;
}

pub enqueue-IsLeft :
    (id : String) (stamp : ℕ) (db : Catalog) (p : Point)
    → find_point db id ≡ some p
    → IsLeft p.job_run_id db (enqueue_replica_deletes_v2 id stamp db).1
unfolding enqueue_replica_deletes_v2
enqueue-IsLeft id stamp db p e = elim (Option-cases (find_run db p.job_run_id)) [
  | inl n ↦ rw (e, n) (same-IsLeft p.job_run_id db)
  | inr (r, q) ↦
      rw (e, q) (stored (enqueue_items db p stamp p.replicas (r.replica_delete_tasks, 0)))
]
  where
    stored : (s : Tasks × ℕ) → IsLeft p.job_run_id db (store_created p.job_run_id db s).1
    stored (tasks, zero) = same-IsLeft p.job_run_id db
    stored (tasks, suc n) = tasks-IsLeft p.job_run_id tasks db

pub or_noted-IsLeft :
    (run_id : String) (r : Result ℕ × Catalog) → IsLeft run_id r.1 (or_noted run_id r)
unfolding find_run
or_noted-IsLeft run_id (ok n, db) = same-IsLeft run_id db
or_noted-IsLeft run_id (err e, db) = record {
  artifacts = λ a m n. m;
  no_new = λ a m. m;
  runs = λ j n. other_run (set_enqueue_error e) j run_id db (λ r. refl) n;
  jobs = refl;
  vms = refl;
  storages = refl;
  operations = refl;
}

rows-IsLeft : (id run_id : String) (db : Catalog) → IsLeft run_id db (delete_rows id run_id db)
unfolding delete_rows find_run
rows-IsLeft id run_id db =
    let keep : Artifact → Bool = λ a. not (str_eq a.job_run_id run_id) in
    record {
      artifacts = λ a m n. mem-filter keep a db.artifacts m (kept a n);
      no_new = λ a m. (mem-of_filter keep a db.artifacts m).0;
      runs = λ j n. refl;
      jobs = refl;
      vms = refl;
      storages = refl;
      operations = refl;
    }
  where
    kept : (a : Artifact) → a.job_run_id ≢ run_id → not (str_eq a.job_run_id run_id) ≡ true
    kept a n = elim (Bool-cases (str_eq a.job_run_id run_id)) [
      | inl t ↦ absurd (n ((eq_iff a.job_run_id run_id).0 t))
      | inr f ↦ rw f
    ]

pub catalog-IsLeft :
    (id run_id : String) (db : Catalog)
    → IsLeft run_id db (delete_local_restore_point_catalog id run_id db).1
catalog-IsLeft id run_id db = elim (catalog-cases id run_id db) [
  | inl (e, _) ↦ rw e (same-IsLeft run_id db)
  | inr e ↦ rw e (rows-IsLeft id run_id db)
]
