-- ===== src/Replica/Receipts.antt =====
-- replica_v2.py, `CompactReplicaExecutor`: what an accepted receipt and an accepted context say, and
-- what an update does to a replica that is there.
use vmbackupd.Prelude.{
  ℕ, ◌≡◌, refl, sym, ap, ◌∙◌, inl, inr, true, false, not, ◌&&◌, ◌||◌, Option, some, none, String,
  List, [], ◌∷◌, Bool-cases, Option-cases, of_not, neither, str_eq, eq_iff, is_some, lookup,
  mem-of_find_by, any, get_or, ok, err, Result-cases, raise_if, bind-OnOk, OnOk, both,
}
use mathlib.Core.Bool.{false≢true}
use vmbackupd.Compact.{Replica, Point, Storage, Catalog}
use vmbackupd.Compact.Points.{point_id, find_point, is_ssh}
use vmbackupd.Compact.Records.{
  get_run, get_job, get_vm, or_missing, find_storage, get_storage_destination,
}
use vmbackupd.Replica.Queue.{ReplicaWork}
use vmbackupd.Replica.Claim.{replica_at, replica_at-write_replica}
use vmbackupd.Replica.Updates.{
  change_replica, update_replica_v2, update_replica_transfer_plan_v2, update_replica_progress_v2,
}
use vmbackupd.Replica.Executor.{
  Paths, Receipt, Client, Context, is_empty, check_bundle, point_or_raise, differs, is_other,
  object_of, validate_publish_receipt, context,
}
use vmbackupd.Replica.Sending.{IsKept, publication}

module _ (id destination_id : String) where
  abbrev pub IsPresent : Catalog → Type 0
  IsPresent db = is_some (replica_at db id destination_id) ≡ true

  -- What an update of a replica that is there does.
  pub change_present :
      (change : Replica → Replica) (db : Catalog)
      → IsPresent db
      → (v : Replica) × ((change_replica id destination_id change db).0 ≡ ok (change v))
        × (replica_at (change_replica id destination_id change db).1 id destination_id
            ≡ some (change v))
  unfolding change_replica
  change_present change db h = elim (Option-cases (find_point db id)) [
    | inl e ↦ absurd (false≢true (rw e at h))
    | inr (p, e) ↦ elim (Option-cases (lookup p.replicas destination_id)) [
      | inl n ↦ absurd (false≢true (rw (e, n) at h))
      | inr (v, q) ↦ (
        v,
        rw (e, q),
        rw (e, q) (replica_at-write_replica id destination_id (change v) db (ap is_some e)),
      )
    ]
  ]

  change-IsPresent :
      (change : Replica → Replica) (db : Catalog)
      → IsPresent db
      → IsPresent (change_replica id destination_id change db).1
  change-IsPresent change db h = let (v, _, w) = change_present change db h in ap is_some w

  pub IsPresent-IsKept : (stamp : ℕ) → IsKept id destination_id stamp IsPresent
  unfolding update_replica_v2 update_replica_transfer_plan_v2 update_replica_progress_v2
  IsPresent-IsKept stamp = record {
    state = λ state last_error remote_object verified_at db h. change-IsPresent _ db h;
    plan = λ mode payload total seed db h. change-IsPresent _ db h;
    progress = λ processed total db le h. change-IsPresent _ db h;
  }

of_differs : (a : Option String) (b : Option String) → differs a b ≡ false → a ≡ b
of_differs none none h = refl
of_differs (some x) (some y) h = ap some ((eq_iff x y).0 (of_not (str_eq x y) h))
of_differs none (some y) h = cc
of_differs (some x) none h = cc

-- The receipt names the transfer, the storage and the restore point, and the published object.
abbrev pub IsReceipt : ReplicaWork → String → Storage → Receipt → Option String → Type 0
IsReceipt work restore_point_id destination receipt object_id =
    (receipt.status ≡ some "PUBLISHED")
    × (receipt.transfer_id ≡ some work.task_id)
    × (receipt.storage_id ≡ destination.remote_storage_id)
    × (receipt.restore_point_id ≡ some restore_point_id)
    × (receipt.bundle_object_id ≡ object_id)

module _ (paths : Paths) where
  object-of_valid :
      (o : Option String) (object_id : String)
      → object_of paths o ≡ ok object_id
      → o ≡ some object_id
  object-of_valid none object_id h = cc
  object-of_valid (some s) object_id h = elim (Bool-cases (str_eq s "" || paths.is_absolute s)) [
    | inl t ↦ let h' : err _ ≡ ok object_id = rw t at h in cc
    | inr f ↦ elim (Bool-cases (any (str_eq "..") (paths.parts s))) [
      | inl t ↦ let h' : err _ ≡ ok object_id = rw (f, t) at h in cc
      | inr g ↦ let h' : ok s ≡ ok object_id = rw (f, g) at h in cc
    ]
  ]

  module _ (work : ReplicaWork) (point : Point) (destination : Storage) where
    of_valid :
        (receipt : Receipt) (object_id : String)
        → validate_publish_receipt paths work point destination (some receipt) ≡ ok object_id
        → IsReceipt work point.id destination receipt (some object_id)
    unfolding validate_publish_receipt is_other
    of_valid r object_id h = elim (Bool-cases (differs r.status (some "PUBLISHED"))) [
      | inl t ↦ let h' : err _ ≡ ok object_id = rw t at h in cc
      | inr f ↦ elim (Bool-cases (is_other work point destination r)) [
        | inl t ↦ let h' : err _ ≡ ok object_id = rw (f, t) at h in cc
        | inr g ↦
            let (a, b) = neither _ _ g in
            let (c, d) = neither _ _ b in
            (
              of_differs r.status (some "PUBLISHED") f,
              of_differs r.transfer_id (some work.task_id) a,
              of_differs r.storage_id destination.remote_storage_id c,
              of_differs r.restore_point_id (some point.id) d,
              object-of_valid r.bundle_object_id object_id (rw (f, g) at h),
            )
      ]
    ]

    pub of_publication :
        (client : Client) (node : String) (stamp : ℕ) (object_id : String)
        → publication paths client node stamp work point destination ≡ ok object_id
        → (receipt : Receipt) × (client.publish work.task_id point.id destination
            ≡ ok (some receipt))
          × IsReceipt work point.id destination receipt (some object_id)
    unfolding validate_publish_receipt
    of_publication client node stamp object_id h =
        elim (Result-cases (client.publish work.task_id point.id destination)) [
          | inr (e, q) ↦ let h' : err e ≡ ok object_id = rw q at h in cc
          | inl (none, q) ↦ let h' : err _ ≡ ok object_id = rw q at h in cc
          | inl (some receipt, q) ↦ (receipt, q, of_valid receipt object_id (rw q at h))
        ]

  point-of_found : (o : Option Point) (p : Point) → point_or_raise paths o ≡ ok p → o ≡ some p
  point-of_found none p h = cc
  point-of_found (some q) p h = cc

  destination-of_found :
      (key id : String) (node : String) (ss : List Storage) (s : Storage)
      → or_missing key (find_storage node id ss) ≡ ok s
      → s.id ≡ id
  unfolding find_storage
  destination-of_found key id node [] s h = cc
  destination-of_found key id node (x ∷ xs) s h =
      elim (Bool-cases (str_eq x.node_id node && str_eq x.id id)) [
        | inl t ↦
            let h' : ok x ≡ ok s = rw t at h in
            let same : x ≡ s = cc in ap (λ z. z.id) (sym same) ∙ (eq_iff x.id id).0 (both _ _ t).1
        | inr f ↦ destination-of_found key id node xs s (rw f at h)
      ]

  -- The identities of what `_context` returns.
  abbrev pub IsOfWork : ReplicaWork → Context paths → Type 0
  IsOfWork work c = (c.point.id ≡ work.restore_point_id) × (c.destination.id ≡ work.destination_id)

  pub context-IsOfWork :
      (db : Catalog) (node : String) (work : ReplicaWork)
      → OnOk (IsOfWork work) (context paths db node work)
  unfolding context find_point get_storage_destination
  context-IsOfWork db node work =
      bind-OnOk (IsOfWork work) (point_or_raise paths (find_point db work.restore_point_id)) _
        (λ point p. bind-OnOk (IsOfWork work) (get_run db point.job_run_id) _ (λ run _.
          bind-OnOk (IsOfWork work) (get_job db run.job_id) _ (λ job _.
            bind-OnOk (IsOfWork work) (get_vm db job.vm_id) _ (λ vm _.
              bind-OnOk (IsOfWork work) (raise_if (not (str_eq vm.node_id node)) _) _ (λ _ _.
                bind-OnOk (IsOfWork work) (get_storage_destination db node work.destination_id) _
                  (λ destination d.
                    bind-OnOk (IsOfWork work) (raise_if (not (is_ssh destination.storage_type)) _) _
                      (λ _ _.
                        bind-OnOk (IsOfWork work)
                          (raise_if (is_empty destination.remote_storage_id) _) _
                          (λ _ _.
                            bind-OnOk (IsOfWork work)
                              (get_storage_destination db node run.storage_destination_id) _
                              (λ primary _.
                                bind-OnOk (IsOfWork work) (raise_if (is_ssh primary.storage_type) _)
                                  _
                                  (λ _ _.
                                    bind-OnOk (IsOfWork work)
                                      (check_bundle paths primary.backup_data_root
                                        (get_or point.bundle_object_id ""))
                                      _
                                      (λ _ _. (
                                        (mem-of_find_by point_id db.points work.restore_point_id
                                            point (point-of_found _ point p)).1,
                                        destination-of_found _ work.destination_id node db.storages
                                            destination d,
                                      ))))))))))))
