-- ===== src/LocalBackup/Deletion.antt =====
-- backup_catalog_v2.py, `delete_restore_point`: what has been checked before anything is deleted, and
-- what is gone and what is left afterwards.
use vmbackupd.Prelude.{
  ℕ, zero, suc, String, Bool, true, false, not, ◌||◌, ◌≡◌, ◌≢◌, refl, sym, ap, subst, ◌∙◌, ◌⊎◌, inl,
  inr, Option, none, some, List, [], ◌∷◌, Bool-cases, Option-cases, of_not, neither, ◌∈◌, str_eq,
  eq_iff, any, filter, mem-of_filter, find_by, mem-of_find_by, Result, ok, err, Error, raise_if,
  bind-OnOk, OnOk,
}
use mathlib.Core.Bool.{false≢true}
use vmbackupd.Compact.{Point, Run, Vm, Storage, Catalog}
use vmbackupd.Compact.Points.{point_id, find_point, find_run, is_ssh}
use vmbackupd.Compact.Records.{get_storage_destination}
use vmbackupd.Replica.Executor.{Paths, is_below}
use vmbackupd.Replica.Deletes.{
  Tasks, write_tasks, enqueue_items, store_created, enqueue_replica_deletes_v2,
}
use vmbackupd.LocalBackup.Delete.{
  DeleteCandidate, get_local_restore_point_delete_candidate, delete_rows,
  delete_local_restore_point_catalog, or_noted, candidate_or_raise, is_other_job,
  validated_bundle_path, deletable,
}

-- Recording tombstones leaves the restore points alone.
pub enqueue-points :
    (id : String) (stamp : ℕ) (db : Catalog)
    → ((enqueue_replica_deletes_v2 id stamp db).1).points ≡ db.points
unfolding enqueue_replica_deletes_v2
enqueue-points id stamp db = elim (Option-cases (find_point db id)) [
  | inl e ↦ rw e
  | inr (p, e) ↦ elim (Option-cases (find_run db p.job_run_id)) [
    | inl n ↦ rw (e, n)
    | inr (r, q) ↦
        rw (e, q) (stored p (enqueue_items db p stamp p.replicas (r.replica_delete_tasks, 0)))
  ]
]
  where
    stored : (p : Point) (s : Tasks × ℕ) → ((store_created p.job_run_id db s).1).points ≡ db.points
    stored p (tasks, zero) = refl
    stored p (tasks, suc n) = unfold write_tasks in refl

pub or_noted-points :
    (run_id : String) (r : Result ℕ × Catalog) → (or_noted run_id r).points ≡ (r.1).points
or_noted-points run_id (ok n, db) = refl
or_noted-points run_id (err e, db) = refl

-- What a call for one restore point may do to the rows of all.
pub record IsSpared (id : String) (db db' : Catalog) : Type 0 where
  pub listed : (p : Point) → p ∈ db'.points → p ∈ db.points
  pub others : (j : String) → str_eq j id ≡ false → find_point db' j ≡ find_point db j

pub same-IsSpared : (id : String) (db db' : Catalog) → db'.points ≡ db.points → IsSpared id db db'
unfolding find_point
same-IsSpared id db db' e = record {
  listed = λ p m. subst (λ l. p ∈ l) e m;
  others = λ j n. ap (λ l. find_by point_id l j) e;
}

find-filter :
    (id j : String) (ps : List Point)
    → str_eq j id ≡ false
    → find_by point_id (filter (λ p. not (str_eq p.id id)) ps) j ≡ find_by point_id ps j
unfolding find_by filter
find-filter id j [] n = refl
find-filter id j (p ∷ ps) n = elim (Bool-cases (str_eq p.id id)) [
  | inr f ↦
      rw f
        (elim (Bool-cases (str_eq p.id j)) [ inl g ↦ rw g | inr g ↦ rw g (find-filter id j ps n) ])
  | inl t ↦
      let g : str_eq p.id j ≡ false = elim (Bool-cases (str_eq p.id j)) [
        | inr g ↦ g
        | inl g ↦
            absurd (false≢true (sym n ∙ subst (λ z. str_eq z id ≡ true) ((eq_iff p.id j).0 g) t))
      ] in
      rw (t, g) (find-filter id j ps n)
]

filter-gone :
    (id : String) (ps : List Point)
    → find_by point_id (filter (λ p. not (str_eq p.id id)) ps) id ≡ none
unfolding find_by filter
filter-gone id [] = refl
filter-gone id (p ∷ ps) = elim (Bool-cases (str_eq p.id id)) [
  | inr f ↦ rw (f, f) (filter-gone id ps)
  | inl t ↦ rw t (filter-gone id ps)
]

pub rows-IsSpared : (id run_id : String) (db : Catalog) → IsSpared id db (delete_rows id run_id db)
unfolding delete_rows find_point
rows-IsSpared id run_id db = record {
  listed = λ p m. (mem-of_filter (λ q. not (str_eq q.id id)) p db.points m).0;
  others = λ j n. find-filter id j db.points n;
}

pub rows-gone :
    (id run_id : String) (db : Catalog) → find_point (delete_rows id run_id db) id ≡ none
unfolding delete_rows find_point
rows-gone id run_id db = filter-gone id db.points

-- The deletion of the row either changes nothing, or it is done.
pub catalog-cases :
    (id run_id : String) (db : Catalog)
    → let r = delete_local_restore_point_catalog id run_id db in
      ((r.1 ≡ db) × (r.0 ≢ ok true)) ⊎ (r ≡ (ok true, delete_rows id run_id db))
unfolding delete_local_restore_point_catalog find_point
catalog-cases id run_id db = elim (Option-cases (find_by point_id db.points id)) [
  | inl e ↦ inl (rw e (refl, λ h. cc))
  | inr (p, e) ↦
      elim (Bool-cases (not (str_eq p.job_run_id run_id) || not (str_eq p.status "AVAILABLE"))) [
        | inl t ↦ inl (rw (e, t) (refl, λ h. cc))
        | inr f ↦ elim (Bool-cases (any (str_eq p.id) db.restore_operations)) [
          | inl o ↦ inl (rw (e, f, o) (refl, λ h. cc))
          | inr o ↦ inr (rw (e, f, o, (mem-of_find_by point_id db.points id p e).1))
        ]
      ]
]

pub catalog-IsSpared :
    (id run_id : String) (db : Catalog)
    → IsSpared id db (delete_local_restore_point_catalog id run_id db).1
catalog-IsSpared id run_id db = elim (catalog-cases id run_id db) [
  | inl (e, _) ↦ rw e (same-IsSpared id db db refl)
  | inr e ↦ rw e (rows-IsSpared id run_id db)
]

pub trans-IsSpared :
    (id : String) (a b c : Catalog) → IsSpared id a b → IsSpared id b c → IsSpared id a c
trans-IsSpared id a b c s t = record {
  listed = λ p m. s.listed p (t.listed p m);
  others = λ j n. t.others j n ∙ s.others j n;
}

-- The rows from which a candidate is made.
pub record IsRowOf (db : Catalog) (id : String) (c : DeleteCandidate) : Type 0 where
  pub point : Point
  pub run : Run
  pub found : find_point db id ≡ some point
  pub found_run : find_run db point.job_run_id ≡ some run
  pub same_id : c.id ≡ id
  pub same_run : c.job_run_id ≡ point.job_run_id
  pub same_storage : c.storage_destination_id ≡ run.storage_destination_id
  pub same_status : c.status ≡ point.status
  pub same_state : c.run_state ≡ run.state
  pub same_bundle : c.bundle_object_id ≡ point.bundle_object_id

IsRowOf-of_candidate :
    (db : Catalog) (id : String) (c : DeleteCandidate)
    → get_local_restore_point_delete_candidate db id ≡ some c
    → IsRowOf db id c
unfolding get_local_restore_point_delete_candidate find_point
IsRowOf-of_candidate db id c h = elim (Option-cases (find_by point_id db.points id)) [
  | inl e ↦ let h' : none ≡ some c = rw e at h in cc
  | inr (p, e) ↦ elim (Option-cases (find_run db p.job_run_id)) [
    | inl n ↦ let h' : none ≡ some c = rw (e, n) at h in cc
    | inr (r, q) ↦ elim (Option-cases (find_by (λ j. j.id) db.jobs r.job_id)) [
      | inl n ↦ let h' : none ≡ some c = rw (e, q, n) at h in cc
      | inr (j, w) ↦ elim (Option-cases (find_by (λ v. v.id) db.vms j.vm_id)) [
        | inl n ↦ let h' : none ≡ some c = rw (e, q, w, n) at h in cc
        | inr (v, u) ↦ of_rows p r v e q (rw (e, q, w, u) at h)
      ]
    ]
  ]
]
  where
    of_rows :
        (p : Point) (r : Run) (v : Vm)
        → find_by point_id db.points id ≡ some p
        → find_run db p.job_run_id ≡ some r
        → some (record {
          id = p.id;
          job_run_id = p.job_run_id;
          job_id = r.job_id;
          storage_destination_id = r.storage_destination_id;
          node_id = v.node_id;
          status = p.status;
          run_state = r.state;
          bundle_object_id = p.bundle_object_id;
        })
          ≡ some c
        → IsRowOf db id c
    of_rows p r v e q h =
        let made : DeleteCandidate = record {
          id = p.id;
          job_run_id = p.job_run_id;
          job_id = r.job_id;
          storage_destination_id = r.storage_destination_id;
          node_id = v.node_id;
          status = p.status;
          run_state = r.state;
          bundle_object_id = p.bundle_object_id;
        } in
        let same : made ≡ c = cc in
        subst (IsRowOf db id) same (record {
          point = p;
          run = r;
          found = e;
          found_run = q;
          same_id = (mem-of_find_by point_id db.points id p e).1;
          same_run = refl;
          same_storage = refl;
          same_status = refl;
          same_state = refl;
          same_bundle = refl;
        })

of_raise : (b : Bool) (e : Error) → raise_if b e ≡ ok tt → b ≡ false
of_raise false e h = refl
of_raise true e h = cc

module _ (paths : Paths) (resolve : String → String) where
  -- The bundle lies properly below the root of a storage.
  abbrev pub IsBundleIn : Storage → String → Type 0
  IsBundleIn s target =
      (is_ssh s.storage_type ≡ false)
      × (is_below (paths.parts (resolve s.backup_data_root)) (paths.parts target) ≡ true)
      × (target ≢ resolve s.backup_data_root)

  -- The path is the resolved one of the bundle.
  abbrev pub IsAtBundle : Option String → String → Type 0
  IsAtBundle o target = (bundle : String) × (o ≡ some bundle) × (target ≡ resolve bundle)

  -- What has been checked before anything is changed.
  abbrev pub IsChecked : Catalog → String → DeleteCandidate × String → Type 0
  IsChecked db id found =
      IsRowOf db id found.0
      × ((found.0).status ≡ "AVAILABLE")
      × ((found.0).run_state ≡ "SUCCESS")
      × (s : Storage) × (get_storage_destination db (found.0).node_id
            (found.0).storage_destination_id
          ≡ ok s)
      × IsBundleIn s found.1
      × IsAtBundle (found.0).bundle_object_id found.1

  of_candidate :
      (o : Option DeleteCandidate) (c : DeleteCandidate)
      → candidate_or_raise paths resolve o ≡ ok c
      → o ≡ some c
  of_candidate none c h = cc
  of_candidate (some d) c h = cc

  of_validated :
      (s : Storage) (o : Option String) (target : String)
      → is_ssh s.storage_type ≡ false
      → validated_bundle_path paths resolve s o ≡ ok target
      → IsBundleIn s target × IsAtBundle o target
  unfolding validated_bundle_path
  of_validated s none target local h = cc
  of_validated s (some b) target local h =
      let root = resolve s.backup_data_root in
      elim (Bool-cases (str_eq b "")) [
        | inl t ↦ let h' : err _ ≡ ok target = rw t at h in cc
        | inr f ↦
            elim (Bool-cases (
              str_eq (resolve b) root
              || not (is_below (paths.parts root) (paths.parts (resolve b))))) [
                | inl t ↦ let h' : err _ ≡ ok target = rw (f, t) at h in cc
                | inr g ↦
                    let h' : ok (resolve b) ≡ ok target = rw (f, g) at h in
                    let same : resolve b ≡ target = cc in
                    let (p, q) = neither (str_eq (resolve b) root) _ g in
                    (
                      subst (IsBundleIn s) same (
                        local,
                        of_not _ q,
                        λ e. false≢true (sym p ∙ (eq_iff (resolve b) root).1 e),
                      ),
                      (b, refl, sym same),
                    )
              ]
      ]

  pub deletable-IsChecked :
      (id : String) (expected : Option String) (db : Catalog)
      → OnOk (IsChecked db id) (deletable paths resolve id expected db)
  unfolding deletable
  deletable-IsChecked id expected db =
      let Holds : DeleteCandidate × String → Type 0 = IsChecked db id in
      bind-OnOk Holds
        (candidate_or_raise paths resolve (get_local_restore_point_delete_candidate db id)) _
        (λ c h.
          bind-OnOk Holds (raise_if (is_other_job paths resolve expected c.job_id) _) _ (λ _ _.
            bind-OnOk Holds (raise_if (not (str_eq c.status "AVAILABLE")) _) _ (λ _ available.
              bind-OnOk Holds (raise_if (not (str_eq c.run_state "SUCCESS")) _) _ (λ _ success.
                bind-OnOk Holds (get_storage_destination db c.node_id c.storage_destination_id) _
                  (λ s storage. bind-OnOk Holds (raise_if (is_ssh s.storage_type) _) _ (λ _ local.
                    bind-OnOk Holds (validated_bundle_path paths resolve s c.bundle_object_id) _
                      (λ target t. (
                        IsRowOf-of_candidate db id c (of_candidate _ c h),
                        (eq_iff c.status "AVAILABLE").0 (of_not _ (of_raise _ _ available)),
                        (eq_iff c.run_state "SUCCESS").0 (of_not _ (of_raise _ _ success)),
                        s,
                        storage,
                        (of_validated s c.bundle_object_id target (of_raise _ _ local) t).0,
                        (of_validated s c.bundle_object_id target (of_raise _ _ local) t).1,
                      ))))))))
