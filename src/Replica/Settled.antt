-- ===== src/Replica/Settled.antt =====
-- replica_v2.py, `CompactReplicaExecutor.run_once`: how a claimed replica is left.
use vmbackupd.Prelude.{
  ℕ, ◌≡◌, refl, sym, ap, subst, ◌∙◌, ◌⊎◌, inl, inr, true, Option, some, none, String, List, is_some,
  Result, ok, err, Error, described, OnOk,
}
use vmbackupd.Prelude.Int.{ℤ}
use vmbackupd.Compact.{Replica, Point, Storage, Catalog}
use vmbackupd.Replica.Queue.{ReplicaWork, claim_next_replica_v2}
use vmbackupd.Replica.Claim.{replica_at, claim_next_replica_v2-IsClaimed}
use vmbackupd.Replica.Updates.{or_else, update_replica_v2}
use vmbackupd.Replica.Executor.{
  Paths, Receipt, Client, Context, context, send, send_plan, send_context, or_failed, run_work,
  run_once,
}
use vmbackupd.Replica.Sending.{IsEnd, send-IsEnd}
use vmbackupd.Replica.Receipts.{
  IsPresent, change_present, IsPresent-IsKept, of_publication, IsOfWork, context-IsOfWork,
  IsReceipt,
}

module _ (paths : Paths) (client : Client) (node : String) (stamp : ℕ) (work : ReplicaWork) where
  -- FAILED, with the text of what was raised.
  abbrev IsFailed : Error → Replica → Type 0
  IsFailed e v = (v.state ≡ "FAILED") × (v.last_error ≡ some (described e))

  -- SUCCESS, by a receipt that the client's publication has returned.
  abbrev IsPublished : Replica → Type 0
  IsPublished v =
      (v.state ≡ "SUCCESS")
      × (v.last_error ≡ none)
      × (v.verified_at ≡ some stamp)
      × (destination : Storage) × (receipt : Receipt) × (client.publish work.task_id
            work.restore_point_id destination
          ≡ ok (some receipt))
      × (destination.id ≡ work.destination_id)
      × (is_some v.remote_bundle_object_id ≡ true)
      × IsReceipt work work.restore_point_id destination receipt v.remote_bundle_object_id

  abbrev row_after : Catalog → Option Replica
  row_after db = replica_at db work.restore_point_id work.destination_id

  -- The call returns the replica as it is stored, published or failed.
  abbrev pub IsSettled : Result Replica × Catalog → Result Replica × Catalog → Type 0
  IsSettled tried r =
      (v : Replica) × (r.0 ≡ ok v)
      × (row_after r.1 ≡ some v)
      × (IsPublished v ⊎ ((e : Error) × (tried.0 ≡ err e) × IsFailed e v))

  -- What the body of the `try` leaves.
  abbrev IsTried : Result Replica × Catalog → Type 0
  IsTried r =
      ((v : Replica) × (r.0 ≡ ok v) × (row_after r.1 ≡ some v) × IsPublished v)
      ⊎ ((e : Error) × (r.0 ≡ err e) × (is_some (row_after r.1) ≡ true))

  failed-IsSettled :
      (r : Result Replica × Catalog)
      → IsTried r
      → IsSettled r (or_failed paths client node stamp work r)
  unfolding update_replica_v2
  failed-IsSettled (ok value, db) (inl (v, e, row, p)) = (v, e, row, inl p)
  failed-IsSettled (ok value, db) (inr (e, q, h)) = cc
  failed-IsSettled (err e, db) (inl (v, q, row, p)) = cc
  failed-IsSettled (err e, db) (inr (f, q, h)) =
      let (v, a, b) =
        change_present work.restore_point_id work.destination_id
          (λ value. record value {
            state = "FAILED";
            updated_at = stamp;
            last_error = some (described e);
            remote_bundle_object_id = or_else none value.remote_bundle_object_id;
            verified_at = or_else none value.verified_at;
          })
          db h in
      (_, a, b, inr (e, refl, (refl, refl)))

  end-IsTried :
      (point : Point) (destination : Storage) (r : Result Replica × Catalog)
      → point.id ≡ work.restore_point_id
      → destination.id ≡ work.destination_id
      → IsEnd paths client node stamp work point destination (IsPresent point.id destination.id) r
      → IsTried r
  unfolding update_replica_v2
  end-IsTried point destination r p d (inl (db, e, h, q)) =
      inr (e, ap (λ z. z.0) q, rw (q, sym p, sym d) h)
  end-IsTried point destination r p d (inr (db, object_id, h, ok_object, q)) =
      let (v, a, b) =
        change_present point.id destination.id
          (λ value. record value {
            state = "SUCCESS";
            updated_at = stamp;
            last_error = none;
            remote_bundle_object_id = some object_id;
            verified_at = some stamp;
          })
          db h in
      let (receipt, w, i) =
        of_publication paths work point destination client node stamp object_id ok_object in
      inl (
        _,
        ap (λ z. z.0) q ∙ a,
        rw (q, sym p, sym d) b,
        (
          refl,
          refl,
          refl,
          destination,
          receipt,
          rw (sym p) w,
          d,
          refl,
          subst (λ z. IsReceipt work z destination receipt (some object_id)) p i,
        ),
      )

  plan-IsTried :
      (c : Context paths) (plan : Result (List ℤ)) (db : Catalog)
      → IsOfWork paths work c
      → IsPresent work.restore_point_id work.destination_id db
      → IsTried (send_plan paths client node stamp work c plan db)
  plan-IsTried c (err e) db same h = inr (e, refl, h)
  plan-IsTried c (ok payloads) db same h =
      end-IsTried c.point c.destination
        (send paths client node stamp work c.point c.destination payloads db) same.0 same.1
        (send-IsEnd paths client node stamp work c.point c.destination
          (IsPresent c.point.id c.destination.id)
          (IsPresent-IsKept c.point.id c.destination.id stamp) payloads db (rw (same.0, same.1) h))

  context-IsTried :
      (c : Result (Context paths)) (db : Catalog)
      → OnOk (IsOfWork paths work) c
      → IsPresent work.restore_point_id work.destination_id db
      → IsTried (send_context paths client node stamp work c db)
  context-IsTried (err e) db same h = inr (e, refl, h)
  context-IsTried (ok c) db same h =
      plan-IsTried c (client.plan work c.point c.vm.id c.destination) db same h

  -- The outcome of a call that has found this work.
  abbrev pub IsOutcome : Result Replica × Catalog → Option (Result Replica) × Catalog → Type 0
  IsOutcome tried (none, db) = ⊥
  IsOutcome tried (some r, db) = IsSettled tried (r, db)

  -- What the sending of the claimed work comes to, before the executor catches anything.
  abbrev pub attempt : Catalog → Result Replica × Catalog
  attempt db = send_context paths client node stamp work (context paths db node work) db

  work-IsOutcome :
      (w : Option ReplicaWork × Catalog)
      → w.0 ≡ some work
      → IsPresent work.restore_point_id work.destination_id w.1
      → IsOutcome (attempt w.1) (run_work paths client node stamp w)
  work-IsOutcome (none, db) e h = cc
  work-IsOutcome (some other, db) e h =
      let same : work ≡ other = cc in
      subst (λ z. IsOutcome (attempt db) (run_work paths client node stamp (some z, db))) same
        (failed-IsSettled
          (send_context paths client node stamp work (context paths db node work) db)
          (context-IsTried (context paths db node work) db (context-IsOfWork paths db node work) h))

  -- A claimed replica never stays TRANSFERRING or VERIFYING, whatever the client does: the call
  -- returns the replica as it is then stored, either SUCCESS, verified now, with the object that the
  -- receiver's receipt of the publication names, a receipt that says PUBLISHED and has the transfer,
  -- the storage and the restore point of the task; or FAILED, with the class and the
  -- text of the exception that the sending of the claimed work raises.
  pub run_once-IsOutcome :
      (db : Catalog)
      → (claim_next_replica_v2 node stamp db).0 ≡ some work
      → IsOutcome
          (attempt (claim_next_replica_v2 node stamp db).1)
          (run_once paths client node stamp db)
  unfolding run_once
  run_once-IsOutcome db h =
      let (p, value, runnable, same, row) = claim_next_replica_v2-IsClaimed node stamp db work h in
      let id : work.restore_point_id ≡ p.id = ap (λ z. z.restore_point_id) same in
      work-IsOutcome (claim_next_replica_v2 node stamp db) h (
        subst
          (λ z.
            is_some (replica_at (claim_next_replica_v2 node stamp db).1 z work.destination_id)
            ≡ true)
          (sym id) (ap is_some row))
