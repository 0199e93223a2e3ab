-- ===== src/Replica/Sending.antt =====
-- replica_v2.py, `run_once`: where the sending of a replica can end, for any statement about the
-- catalogue that the three updates of the replica keep.
use vmbackupd.Prelude.{
  ℕ, ◌+◌, ◌≤◌, min, ◌≡◌, refl, ◌⊎◌, inl, inr, ◌||◌, leb, Option, some, none, String, List, [], ◌∷◌,
  arith, Bool-cases, Result, ok, err, Error, Result-cases,
}
use vmbackupd.Prelude.Int.{ℤ, pos, to_ℕ}
use vmbackupd.Compact.{Replica, Point, Storage, Catalog}
use vmbackupd.Replica.Queue.{ReplicaWork}
use vmbackupd.Replica.Updates.{
  update_replica_v2, update_replica_transfer_plan_v2, update_replica_progress_v2,
}
use vmbackupd.Replica.Executor.{
  Paths, Receipt, Report, selected, advanced, Client, total_of, Transfer, mode_of, stored, and_next,
  report, report_all, finish_progress, check_receipt, raised_first, published, published_receipt,
  publish_verified, verify_and_publish, reports_of, send,
}

-- A statement that the updates of one replica keep.
pub record IsKept (id destination_id : String) (stamp : ℕ) (Holds : Catalog → Type 0) : Type 0 where
  pub state :
      (state : String) (last_error remote_object : Option String) (verified_at : Option ℕ)
      (db : Catalog)
      → Holds db
      → Holds
          (update_replica_v2 id destination_id state stamp last_error remote_object verified_at
            db).1
  pub plan :
      (mode : String) (payload total : ℤ) (seed : Option String) (db : Catalog)
      → Holds db
      → Holds (update_replica_transfer_plan_v2 id destination_id mode payload total seed stamp db).1
  pub progress :
      (processed total : ℕ) (db : Catalog)
      → processed ≤ total
      → Holds db
      → Holds (update_replica_progress_v2 id destination_id (pos processed) (pos total) stamp db).1

module _ (point : Point) (destination : Storage) (source_payload stamp : ℕ)
    (Holds : Catalog → Type 0) (kept : IsKept point.id destination.id stamp Holds) where
  stored-Holds : (s : Result Replica × Catalog) (t : Transfer) → Holds s.1 → Holds (stored s t).1.db
  stored-Holds (err e, db) t h = h
  stored-Holds (ok value, db) t h = h

  and_next-Holds :
      (s : Result (Unit {0}) × Transfer) (next : Transfer → Result (Unit {0}) × Transfer)
      → Holds s.1.db
      → ((t : Transfer) → Holds t.db → Holds (next t).1.db)
      → Holds (and_next s next).1.db
  and_next-Holds (err e, t) next h f = h
  and_next-Holds (ok u, t) next h f = f t h

  min_le : (a b : ℕ) → min a b ≤ a
  min_le a b = omega arith

  report-Holds :
      (r : Report) (t : Transfer)
      → Holds t.db
      → Holds (report point destination source_payload stamp r t).1.db
  unfolding report
  report-Holds (selected payloads seed) t h =
      let total = total_of payloads in
      stored-Holds
        (update_replica_transfer_plan_v2 point.id destination.id (mode_of point.kind seed)
          (pos source_payload) (pos total) seed stamp t.db)
        (record t { total_bytes = total; processed_bytes = 0; last_persist = 0 })
        (kept.plan (mode_of point.kind seed) (pos source_payload) (pos total) seed t.db h)
  report-Holds (advanced delta now) t h =
      let processed = min t.total_bytes (t.processed_bytes + to_ℕ delta) in
      elim (Bool-cases (leb t.total_bytes 0)) [
        | inl e ↦ rw e h
        | inr n ↦
            elim (Bool-cases (leb t.total_bytes processed || leb (t.last_persist + 1000) now)) [
              | inr f ↦ rw (n, f) h
              | inl f ↦
                  rw (n, f)
                    (stored-Holds
                      (update_replica_progress_v2 point.id destination.id (pos processed)
                        (pos t.total_bytes) stamp t.db)
                      (record t { processed_bytes = processed; last_persist = now })
                      (kept.progress processed t.total_bytes t.db
                        (min_le t.total_bytes (t.processed_bytes + to_ℕ delta)) h))
            ]
      ]

  report_all-Holds :
      (rs : List Report) (t : Transfer)
      → Holds t.db
      → Holds (report_all point destination source_payload stamp rs t).1.db
  unfolding report_all
  report_all-Holds [] t h = h
  report_all-Holds (r ∷ rs) t h =
      and_next-Holds (report point destination source_payload stamp r t)
        (report_all point destination source_payload stamp rs) (report-Holds r t h)
        (report_all-Holds rs)

  finish_progress-Holds :
      (t : Transfer)
      → Holds t.db
      → Holds (finish_progress point destination source_payload stamp t).1.db
  unfolding finish_progress
  finish_progress-Holds t h = elim (Bool-cases (leb t.total_bytes 0)) [
    | inl e ↦ rw e h
    | inr n ↦ rw n (
        stored-Holds
          (update_replica_progress_v2 point.id destination.id (pos t.total_bytes)
            (pos t.total_bytes) stamp t.db)
          t (kept.progress t.total_bytes t.total_bytes t.db (omega arith) h))
  ]

module _ (paths : Paths) (client : Client) (node : String) (stamp : ℕ) (work : ReplicaWork)
    (point : Point) (destination : Storage) where
  -- What the receiver's publication came to.
  abbrev pub publication : Result String
  publication =
      published_receipt paths client node stamp work point destination
        (client.publish work.task_id point.id destination)

  -- The sending raises, or it ends with the update to SUCCESS.
  abbrev pub IsEnd : (Catalog → Type 0) → Result Replica × Catalog → Type 0
  IsEnd Holds r =
      ((db : Catalog) × (e : Error) × Holds db × (r ≡ (err e, db)))
      ⊎ ((db : Catalog) × (object_id : String) × Holds db
          × (publication ≡ ok object_id)
          × (r
              ≡ update_replica_v2 point.id destination.id "SUCCESS" stamp none (some object_id)
                  (some stamp) db))

  module _ (Holds : Catalog → Type 0) (kept : IsKept point.id destination.id stamp Holds) where
    published-IsEnd :
        (db : Catalog)
        → Holds db
        → IsEnd Holds (published point.id destination.id stamp publication db)
    published-IsEnd db h = elim (Result-cases publication) [
      | inl (object_id, e) ↦ inr (db, object_id, h, e, rw e)
      | inr (raised, e) ↦ inl (db, raised, h, rw e)
    ]

    publish-IsEnd :
        (s : Result Replica × Catalog)
        → Holds s.1
        → IsEnd Holds (publish_verified paths client node stamp work point destination s)
    publish-IsEnd (err e, db) h = inl (db, e, h, refl)
    publish-IsEnd (ok value, db) h = published-IsEnd db h

    verify-IsEnd :
        (s : Result (Unit {0}) × Transfer)
        → Holds s.1.db
        → IsEnd Holds (verify_and_publish paths client node stamp work point destination s)
    verify-IsEnd (err e, t) h = inl (t.db, e, h, refl)
    verify-IsEnd (ok u, t) h =
        publish-IsEnd
          (update_replica_v2 point.id destination.id "VERIFYING" stamp none none none t.db)
          (kept.state "VERIFYING" none none none t.db h)

    raised-Holds :
        (receipt : Result (Option Receipt)) (t : Transfer)
        → Holds t.db
        → Holds (raised_first receipt t).1.db
    raised-Holds (err e) t h = h
    raised-Holds (ok r) t h = h

    check-Holds :
        (receipt : Result (Option Receipt)) (t : Transfer)
        → Holds t.db
        → Holds (check_receipt work point destination receipt t).1.db
    check-Holds (err e) t h = h
    check-Holds (ok r) t h = h

    pub send-IsEnd :
        (payloads : List ℤ) (db : Catalog)
        → Holds db
        → IsEnd Holds (send paths client node stamp work point destination payloads db)
    unfolding send
    send-IsEnd payloads db h =
        let (reports, receipt) = client.transfer work payloads destination in
        let total = total_of payloads in
        let start : Transfer = record {
          db = db;
          total_bytes = total;
          processed_bytes = 0;
          last_persist = 0;
        } in
        let all =
          report_all point destination total stamp
            (reports_of paths client node stamp payloads reports) start in
        let returned = and_next all (raised_first receipt) in
        let persisted = and_next returned (finish_progress point destination total stamp) in
        verify-IsEnd (and_next persisted (check_receipt work point destination receipt)) (
          and_next-Holds point destination total stamp Holds kept persisted
            (check_receipt work point destination receipt)
            (and_next-Holds point destination total stamp Holds kept returned
              (finish_progress point destination total stamp)
              (and_next-Holds point destination total stamp Holds kept all (raised_first receipt)
                (report_all-Holds point destination total stamp Holds kept
                  (reports_of paths client node stamp payloads reports) start h)
                (raised-Holds receipt))
              (finish_progress-Holds point destination total stamp Holds kept))
            (check-Holds receipt))
