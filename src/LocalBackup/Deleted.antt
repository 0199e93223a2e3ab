-- ===== src/LocalBackup/Deleted.antt =====
-- backup_catalog_v2.py, `delete_restore_point`, where it returns.
use vmbackupd.Prelude.{
  ℕ, zero, suc, String, Bool, true, false, ◌≡◌, refl, sym, ap, subst, ◌∙◌, inl, inr, Option, none,
  some, map, ◌∈◌, All, All-of_mem, AreDistinct, mem-of_find_by, lookup, Result, ok, err, OnOk,
}
use vmbackupd.Compact.{Replica, Point, Run, Storage, Catalog}
use vmbackupd.Compact.Points.{point_id, find_point, find_run}
use vmbackupd.Compact.Records.{get_storage_destination}
use vmbackupd.Replica.Executor.{Paths}
use vmbackupd.Replica.Deletes.{
  Tasks, run_tasks, published_at, tombstone, enqueue_items, store_created,
  enqueue_replica_deletes_v2,
}
use vmbackupd.Replica.Due.{task_at}
use vmbackupd.Replica.Tombstones.{kept_or, enqueue_replica_deletes_v2-IsQueued}
use vmbackupd.LocalBackup.Delete.{
  Entries, Host, DeleteCandidate, delete_rows, delete_local_restore_point_catalog, or_noted,
  deletable, remove_bundle, deleted_row, after_remove, delete_checked, delete_restore_point,
}
use vmbackupd.LocalBackup.Deletion.{
  rows-gone, catalog-cases, IsRowOf, IsBundleIn, IsAtBundle, IsChecked, deletable-IsChecked,
}
use vmbackupd.LocalBackup.Effects.{IsRmtree, remove-gone}

-- The tombstone of a replica, if it is published somewhere.
abbrev pub IsEntombed :
    Catalog → Catalog → Point → ℕ → String × Replica → Option (String × String) → Type 0
IsEntombed db db' p stamp item none = Unit
IsEntombed db db' p stamp item (some remote) =
    task_at db' p.job_run_id item.0
    ≡ kept_or (task_at db p.job_run_id item.0) (tombstone p stamp item.0 remote)

enqueue-ok :
    (db : Catalog) (id run_id : String) (stamp : ℕ) (p : Point) (r : Run)
    → find_point db id ≡ some p
    → find_run db p.job_run_id ≡ some r
    → or_noted run_id (enqueue_replica_deletes_v2 id stamp db)
      ≡ (enqueue_replica_deletes_v2 id stamp db).1
unfolding enqueue_replica_deletes_v2
enqueue-ok db id run_id stamp p r h k =
    rw (h, k) (stored (enqueue_items db p stamp p.replicas (r.replica_delete_tasks, 0)))
  where
    stored :
        (s : Tasks × ℕ)
        → or_noted run_id (store_created p.job_run_id db s) ≡ (store_created p.job_run_id db s).1
    stored (tasks, zero) = refl
    stored (tasks, suc n) = refl

task_at-delete_rows :
    (id run_id j e : String) (db : Catalog)
    → task_at (delete_rows id run_id db) j e ≡ task_at db j e
unfolding delete_rows run_tasks find_run
task_at-delete_rows id run_id j e db = refl

module _ (paths : Paths) (resolve : String → String)
    (rmtree : String → Entries → Result (Unit {0}) × Entries) (is_rmtree : IsRmtree paths rmtree)
    (stamp : ℕ) (host : Host) where
  -- What a deletion that returns has done.
  pub record IsDeleted (id target : String) (host' : Host) : Type 0 where
    pub candidate : DeleteCandidate
    pub rows : IsRowOf host.db id candidate
    pub available : (rows.point).status ≡ "AVAILABLE"
    pub succeeded : (rows.run).state ≡ "SUCCESS"
    pub storage : Storage
    pub of_storage :
        get_storage_destination host.db candidate.node_id candidate.storage_destination_id
        ≡ ok storage
    pub inside : IsBundleIn paths resolve storage target
    pub at_bundle : IsAtBundle paths resolve (rows.point).bundle_object_id target
    pub row_gone : find_point (host'.db) id ≡ none
    pub bundle_gone : lookup host'.entries target ≡ none
    pub entombed :
        All
          (λ item.
            IsEntombed host.db host'.db rows.point stamp item (published_at host.db item.0 item.1))
          (rows.point).replicas

  module _ (c : DeleteCandidate) (target : String) (db : Catalog) where
    -- What has been returned came from the deletion of both.
    of_after :
        (s : Result (Unit {0}) × Entries) (t : String)
        → (after_remove paths resolve rmtree c target db s).0 ≡ ok t
        → (s.0 ≡ ok tt)
          × (target ≡ t)
          × ((after_remove paths resolve rmtree c target db s).1
              ≡ record { db = delete_rows c.id c.job_run_id db; entries = s.1 })
    of_after (err e, entries) t h = cc
    of_after (ok tt, entries) t h = elim (catalog-cases c.id c.job_run_id db) [
      | inr e ↦
          let h' : ok target ≡ ok t = rw e at h in let same : target ≡ t = cc in (refl, same, rw e)
      | inl (_, n) ↦
          absurd (n (returned (delete_local_restore_point_catalog c.id c.job_run_id db) h))
    ]
      where
        returned :
            (s : Result Bool × Catalog)
            → (deleted_row paths resolve rmtree target entries s).0 ≡ ok t
            → s.0 ≡ ok true
        returned (err e, d) h = cc
        returned (ok false, d) h = cc
        returned (ok true, d) h = refl

  entombed :
      (id run_id : String) (p : Point) (r : Run) (item : String × Replica)
      (o : Option (String × String))
      → find_point host.db id ≡ some p
      → find_run host.db p.job_run_id ≡ some r
      → AreDistinct (map (λ i. i.0) p.replicas)
      → item ∈ p.replicas
      → published_at host.db item.0 item.1 ≡ o
      → IsEntombed host.db
          (delete_rows id run_id (or_noted run_id (enqueue_replica_deletes_v2 id stamp host.db)))
          p
          stamp
          item
          o
  entombed id run_id p r item none f k d m e = tt
  entombed id run_id p r item (some remote) f k d m e =
      task_at-delete_rows id run_id p.job_run_id item.0
        (or_noted run_id (enqueue_replica_deletes_v2 id stamp host.db))
      ∙ ap (λ z. task_at z p.job_run_id item.0) (enqueue-ok host.db id run_id stamp p r f k)
      ∙ enqueue_replica_deletes_v2-IsQueued host.db stamp id p r item remote f k d m e

  checked-IsDeleted :
      (id t : String) (r : Result (DeleteCandidate × String))
      → ((p : Point) → p ∈ (host.db).points → AreDistinct (map (λ i. i.0) p.replicas))
      → OnOk (IsChecked paths resolve host.db id) r
      → (delete_checked paths resolve rmtree stamp r host).0 ≡ ok t
      → IsDeleted id t (delete_checked paths resolve rmtree stamp r host).1
  checked-IsDeleted id t (err e) distinct k h = cc
  checked-IsDeleted id t (ok (c, target)) distinct (rows, a, b, s, storage, inside, at) h =
      let db = or_noted c.job_run_id (enqueue_replica_deletes_v2 c.id stamp host.db) in
      let removed = remove_bundle paths resolve rmtree target host.entries in
      let (returned, same, after) = of_after c target db removed t h in
      let found : find_point host.db c.id ≡ some rows.point =
        subst (λ z. find_point host.db z ≡ some rows.point) (sym rows.same_id) rows.found in
      let listed =
        (mem-of_find_by point_id (host.db).points id rows.point
          (unfold find_point in rows.found)).0 in
      subst (IsDeleted id t) (sym after) (record {
        candidate = c;
        rows = rows;
        available = sym rows.same_status ∙ a;
        succeeded = sym rows.same_state ∙ b;
        storage = s;
        of_storage = storage;
        inside = subst (IsBundleIn paths resolve s) same inside;
        at_bundle =
            subst (λ z. IsAtBundle paths resolve z t) rows.same_bundle
              (subst (IsAtBundle paths resolve c.bundle_object_id) same at);
        row_gone =
            subst (λ z. find_point (delete_rows z c.job_run_id db) id ≡ none) (sym rows.same_id)
              (rows-gone id c.job_run_id db);
        bundle_gone =
            subst (λ z. lookup removed.1 z ≡ none) same
              (remove-gone paths resolve rmtree is_rmtree target host.entries returned);
        entombed = All-of_mem _ (rows.point).replicas (λ item m.
            entombed c.id c.job_run_id rows.point rows.run item (published_at host.db item.0 item.1)
              found rows.found_run (distinct rows.point listed) m refl);
      })

  -- A deletion that returns was of an AVAILABLE restore point of a run that ended in SUCCESS, with its
  -- bundle, at the resolved path of its object, properly below the root of the run's storage, a local one. Its row is gone then, nothing
  -- is left at the path of the bundle, which is what the call returns, and every replica of it that
  -- is published at an SSH destination has its tombstone. `rmtree` leaves no directory if it returns,
  -- and no restore point has two replicas for one destination.
  pub delete_restore_point-IsDeleted :
      (id target : String) (expected : Option String)
      → ((p : Point) → p ∈ (host.db).points → AreDistinct (map (λ i. i.0) p.replicas))
      → (delete_restore_point paths resolve rmtree id expected stamp host).0 ≡ ok target
      → IsDeleted id target (delete_restore_point paths resolve rmtree id expected stamp host).1
  unfolding delete_restore_point
  delete_restore_point-IsDeleted id target expected distinct h =
      checked-IsDeleted id target (deletable paths resolve id expected host.db) distinct
        (deletable-IsChecked paths resolve id expected host.db) h
