-- ===== src/LocalBackup/Effects.antt =====
-- backup_catalog_v2.py, `delete_restore_point`: what it may touch, and what it leaves.
use vmbackupd.Prelude.{
  ℕ, String, Bool, true, false, ◌≡◌, refl, sym, ap, subst, ◌∙◌, ◌⊎◌, inl, inr, Option, none, some,
  List, [], ◌∷◌, Bool-cases, Option-cases, both, str_eq, eq_iff, lookup, Result, ok, err, OnOk,
}
use vmbackupd.Compact.{Point, Storage, Catalog}
use vmbackupd.Compact.Points.{is_ssh, find_point}
use vmbackupd.Compact.Records.{get_storage_destination}
use vmbackupd.Replica.Executor.{Paths, is_below}
use vmbackupd.Replica.Deletes.{enqueue_replica_deletes_v2}
use vmbackupd.LocalBackup.Delete.{
  Entries, Host, DeleteCandidate, delete_local_restore_point_catalog, or_noted, deletable,
  remove_bundle, deleted_row, after_remove, delete_checked, delete_restore_point,
}
use vmbackupd.LocalBackup.Others.{
  IsLeft, same-IsLeft, trans-IsLeft, enqueue-IsLeft, or_noted-IsLeft, catalog-IsLeft,
}
use vmbackupd.LocalBackup.Deletion.{
  enqueue-points, or_noted-points, IsSpared, same-IsSpared, catalog-IsSpared, trans-IsSpared,
  IsRowOf, IsChecked, deletable-IsChecked,
}

is_below_trans :
    (xs ys zs : List String) → is_below xs ys ≡ true → is_below ys zs ≡ true → is_below xs zs ≡ true
unfolding is_below
is_below_trans [] ys zs h k = refl
is_below_trans (x ∷ xs) [] zs h k = cc
is_below_trans (x ∷ xs) (y ∷ ys) [] h k = cc
is_below_trans (x ∷ xs) (y ∷ ys) (z ∷ zs) h k =
    let (a, b) = both (str_eq x y) (is_below xs ys) h in
    let (c, d) = both (str_eq y z) (is_below ys zs) k in
    rw ((eq_iff x y).0 a, c, is_below_trans xs ys zs b d)

-- What `shutil.rmtree` does, whether it succeeds or stops half-way.
pub record IsRmtree (paths : Paths) (rmtree : String → Entries → Result (Unit {0}) × Entries)
    : Type 0 where
  -- Nothing changes but the directory and what is below it.
  pub confined :
      (target path : String) (entries : Entries)
      → is_below (paths.parts target) (paths.parts path) ≡ false
      → lookup (rmtree target entries).1 path ≡ lookup entries path
  -- If it returns, the directory is gone.
  pub removed :
      (target : String) (entries : Entries)
      → (rmtree target entries).0 ≡ ok tt
      → lookup (rmtree target entries).1 target ≡ none

module _ (paths : Paths) (resolve : String → String)
    (rmtree : String → Entries → Result (Unit {0}) × Entries)
    (is_rmtree : IsRmtree paths rmtree) where
  remove-confined :
      (target path : String) (entries : Entries)
      → is_below (paths.parts target) (paths.parts path) ≡ false
      → lookup (remove_bundle paths resolve rmtree target entries).1 path ≡ lookup entries path
  unfolding remove_bundle
  remove-confined target path entries h = elim (Option-cases (lookup entries target)) [
    | inl e ↦ rw e
    | inr (false, e) ↦ rw e
    | inr (true, e) ↦ rw e (is_rmtree.confined target path entries h)
  ]

  pub remove-gone :
      (target : String) (entries : Entries)
      → (remove_bundle paths resolve rmtree target entries).0 ≡ ok tt
      → lookup (remove_bundle paths resolve rmtree target entries).1 target ≡ none
  unfolding remove_bundle
  remove-gone target entries h = elim (Option-cases (lookup entries target)) [
    | inl e ↦ rw e e
    | inr (false, e) ↦ let h' : err _ ≡ ok tt = rw e at h in cc
    | inr (true, e) ↦ rw e (is_rmtree.removed target entries (rw e at h))
  ]

  module _ (c : DeleteCandidate) (target : String) (db : Catalog) where
    row_entries :
        (entries : Entries) (s : Result Bool × Catalog)
        → (deleted_row paths resolve rmtree target entries s).1.entries ≡ entries
    row_entries entries (err e, d) = refl
    row_entries entries (ok false, d) = refl
    row_entries entries (ok true, d) = refl

    row_db :
        (entries : Entries) (s : Result Bool × Catalog)
        → (deleted_row paths resolve rmtree target entries s).1.db ≡ s.1
    row_db entries (err e, d) = refl
    row_db entries (ok false, d) = refl
    row_db entries (ok true, d) = refl

    remove_entries :
        (s : Result (Unit {0}) × Entries)
        → (after_remove paths resolve rmtree c target db s).1.entries ≡ s.1
    remove_entries (err e, entries) = refl
    remove_entries (ok u, entries) =
        row_entries entries (delete_local_restore_point_catalog c.id c.job_run_id db)

    remove-IsSpared :
        (s : Result (Unit {0}) × Entries)
        → IsSpared c.id db (after_remove paths resolve rmtree c target db s).1.db
    remove-IsSpared (err e, entries) = same-IsSpared c.id db db refl
    remove-IsSpared (ok u, entries) =
        subst (IsSpared c.id db)
          (sym (row_db entries (delete_local_restore_point_catalog c.id c.job_run_id db)))
          (catalog-IsSpared c.id c.job_run_id db)

  module _ (c : DeleteCandidate) (target : String) (db : Catalog) where
    remove-IsLeft :
        (s : Result (Unit {0}) × Entries)
        → IsLeft c.job_run_id db (after_remove paths resolve rmtree c target db s).1.db
    remove-IsLeft (err e, entries) = same-IsLeft c.job_run_id db
    remove-IsLeft (ok u, entries) =
        subst (IsLeft c.job_run_id db)
          (sym
            (row_db c target db entries (delete_local_restore_point_catalog c.id c.job_run_id db)))
          (catalog-IsLeft c.id c.job_run_id db)

  -- The path is below the root of the local storage that holds the restore point.
  abbrev pub IsInStorageOf : Catalog → String → String → Type 0
  IsInStorageOf db id path =
      (c : DeleteCandidate) × (s : Storage) × IsRowOf db id c
      × (get_storage_destination db c.node_id c.storage_destination_id ≡ ok s)
      × (is_ssh s.storage_type ≡ false)
      × (is_below (paths.parts (resolve s.backup_data_root)) (paths.parts path) ≡ true)

  module _ (id : String) (expected : Option String) (stamp : ℕ) (host : Host) where
    abbrev deletion : Result String × Host
    deletion = delete_restore_point paths resolve rmtree id expected stamp host

    checked-IsSpared :
        (r : Result (DeleteCandidate × String))
        → OnOk (IsChecked paths resolve host.db id) r
        → IsSpared id host.db (delete_checked paths resolve rmtree stamp r host).1.db
    checked-IsSpared (err e) k = same-IsSpared id host.db host.db refl
    checked-IsSpared (ok (c, target)) k =
        let db = or_noted c.job_run_id (enqueue_replica_deletes_v2 c.id stamp host.db) in
        let noted =
          or_noted-points c.job_run_id (enqueue_replica_deletes_v2 c.id stamp host.db)
          ∙ enqueue-points c.id stamp host.db in
        subst
          (λ z.
            IsSpared z host.db
              (delete_checked paths resolve rmtree stamp (ok (c, target)) host).1.db)
          (k.0).same_id
          (trans-IsSpared c.id host.db db _ (same-IsSpared c.id host.db db noted)
            (remove-IsSpared c target db (remove_bundle paths resolve rmtree target host.entries)))

    -- Nothing has changed, or what does not belong to the run of the restore point has not.
    abbrev pub IsOwn : Catalog → Type 0
    IsOwn db' =
        (db' ≡ host.db)
        ⊎ ((p : Point) × (find_point host.db id ≡ some p) × IsLeft p.job_run_id host.db db')

    checked-IsOwn :
        (r : Result (DeleteCandidate × String))
        → OnOk (IsChecked paths resolve host.db id) r
        → IsOwn (delete_checked paths resolve rmtree stamp r host).1.db
    checked-IsOwn (err e) k = inl refl
    checked-IsOwn (ok (c, target)) (rows, _, _, _, _, _, _) =
        let queued = enqueue_replica_deletes_v2 c.id stamp host.db in
        let db = or_noted c.job_run_id queued in
        let found : find_point host.db c.id ≡ some rows.point =
          subst (λ z. find_point host.db z ≡ some rows.point) (sym rows.same_id) rows.found in
        let before : IsLeft c.job_run_id host.db db =
          trans-IsLeft c.job_run_id host.db queued.1 db
            (subst (λ z. IsLeft z host.db queued.1) (sym rows.same_run)
              (enqueue-IsLeft c.id stamp host.db rows.point found))
            (or_noted-IsLeft c.job_run_id queued) in
        let whole =
          trans-IsLeft c.job_run_id host.db db _ before
            (remove-IsLeft c target db (remove_bundle paths resolve rmtree target host.entries)) in
        inr (rows.point, rows.found, subst (λ z. IsLeft z host.db _) rows.same_run whole)

    checked-IsConfined :
        (r : Result (DeleteCandidate × String)) (path : String)
        → OnOk (IsChecked paths resolve host.db id) r
        → (lookup (delete_checked paths resolve rmtree stamp r host).1.entries path
            ≡ lookup host.entries path)
          ⊎ IsInStorageOf host.db id path
    checked-IsConfined (err e) path k = inl refl
    checked-IsConfined (ok (c, target)) path (rows, _, _, s, storage, (local, inside, _), _) =
        let db = or_noted c.job_run_id (enqueue_replica_deletes_v2 c.id stamp host.db) in
        elim (Bool-cases (is_below (paths.parts target) (paths.parts path))) [
          | inl b ↦ inr (
            c,
            s,
            rows,
            storage,
            local,
            is_below_trans (paths.parts (resolve s.backup_data_root)) (paths.parts target)
                (paths.parts path) inside b,
          )
          | inr n ↦ inl (
              ap (λ l. lookup l path)
                (remove_entries c target db
                  (remove_bundle paths resolve rmtree target host.entries))
              ∙ remove-confined target path host.entries n)
        ]

    pub delete-IsSpared : IsSpared id host.db deletion.1.db
    unfolding delete_restore_point
    delete-IsSpared =
        checked-IsSpared (deletable paths resolve id expected host.db)
          (deletable-IsChecked paths resolve id expected host.db)

    -- Whatever the call does, raise or return, at any point of the way: no restore point is added,
    -- and every restore point but the one that is named is found as before. Either the database is
    -- as before, or the jobs, the machines, the storages and the restore operations are, with every
    -- run but the point's own, and no artifact but those of that run is gone, and none is added. A
    -- path that has changed is below the root of the local storage that holds the named restore
    -- point, given that `rmtree` changes nothing outside the directory that it is called for.
    pub delete_restore_point-IsConfined :
        (path : String)
        → IsSpared id host.db deletion.1.db
          × IsOwn deletion.1.db
          × ((lookup deletion.1.entries path ≡ lookup host.entries path)
              ⊎ IsInStorageOf host.db id path)
    unfolding delete_restore_point
    delete_restore_point-IsConfined path = (
      delete-IsSpared,
      checked-IsOwn (deletable paths resolve id expected host.db)
          (deletable-IsChecked paths resolve id expected host.db),
      checked-IsConfined (deletable paths resolve id expected host.db) path
          (deletable-IsChecked paths resolve id expected host.db),
    )
