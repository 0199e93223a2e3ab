-- ===== src/Replica/Executor.antt =====
-- replica_v2.py, `CompactReplicaExecutor`: sending one claimed replica. The client is a parameter: the
-- plan, what a transfer reports through its callbacks before it returns or raises, and the receipts;
-- so are the lexical operations on paths. No other process writes the catalogue meanwhile. Every
-- stamp of a call is one instant, and the monotonic clock counts milliseconds.
use vmbackupd.Prelude.{
  ℕ, ◌+◌, min, String, Bool, true, false, not, ◌&&◌, ◌||◌, leb, Option, none, some, List, [], ◌∷◌,
  str_eq, if◌then◌else◌, any, get_or, Result, ok, err, runtime_error, domain_invariant_error,
  described, raise_if, ◌>>=◌, ◌>>◌,
}
use vmbackupd.Prelude.Int.{ℤ, pos, to_ℕ}
use vmbackupd.Models.{BackupKind, is_full}
use vmbackupd.Compact.{Replica, Point, Vm, Storage, Catalog}
use vmbackupd.Compact.Points.{find_point, is_ssh}
use vmbackupd.Compact.Records.{get_run, get_job, get_vm, get_storage_destination}
use vmbackupd.Replica.Queue.{ReplicaWork, claim_next_replica_v2}
use vmbackupd.Replica.Updates.{
  update_replica_v2, update_replica_transfer_plan_v2, update_replica_progress_v2,
}

-- `pathlib.PurePath`
pub record Paths : Type 0 where
  pub is_absolute : String → Bool
  pub parts : String → List String

-- A dictionary that the receiver sent; none is an absent key.
pub record Receipt : Type 0 where
  pub transfer_id : Option String
  pub storage_id : Option String
  pub restore_point_id : Option String
  pub status : Option String
  pub bundle_object_id : Option String

-- What the client calls back with: the selected files and seed, or a number of bytes at a time.
pub data Report : Type 0 where
  selected : List ℤ → Option String → Report
  advanced : ℤ → ℕ → Report

pub record Client : Type 0 where
  -- The payload of each file.
  pub plan : ReplicaWork → Point → String → Storage → Result (List ℤ)
  -- `"plan_callback" in transfer_parameters`
  pub has_plan_callback : Bool
  pub transfer : ReplicaWork → List ℤ → Storage → List Report × Result (Option Receipt)
  pub publish : String → String → Storage → Result (Option Receipt)

-- `bundle.relative_to(root)` does not raise.
unfoldable pub is_below : List String → List String → Bool
is_below [] target = true
is_below (r ∷ root) [] = false
is_below (r ∷ root) (t ∷ target) = let rest = is_below root target in str_eq r t && rest

abbrev pub is_empty : Option String → Bool
is_empty none = true
is_empty (some s) = str_eq s ""

unfoldable pub total_of : List ℤ → ℕ
total_of [] = 0
total_of (n ∷ ns) = to_ℕ n + total_of ns

-- `receipt.get(key) != value`
abbrev pub differs : Option String → Option String → Bool
differs none none = false
differs (some a) (some b) = not (str_eq a b)
differs _ _ = true

-- The three identities of a receipt.
unfoldable pub is_other : ReplicaWork → Point → Storage → Receipt → Bool
is_other work point destination r =
    differs r.transfer_id (some work.task_id)
    || (differs r.storage_id destination.remote_storage_id
        || differs r.restore_point_id (some point.id))

unfoldable pub validate_transfer_receipt :
    ReplicaWork → Point → Storage → Option Receipt → Result (Unit {0})
validate_transfer_receipt work point destination none =
    err (runtime_error "receiver staging receipt is invalid")
validate_transfer_receipt work point destination (some r) =
    raise_if (is_other work point destination r)
      (runtime_error "receiver staging receipt identity mismatch")

module _ (paths : Paths) where
  abbrev pub object_of : Option String → Result String
  object_of none = err (runtime_error "receiver publication object ID is invalid")
  object_of (some object_id) =
      if str_eq object_id "" || paths.is_absolute object_id
      then err (runtime_error "receiver publication object ID is invalid")
      else if any (str_eq "..") (paths.parts object_id)
      then err (runtime_error "receiver publication object ID is unsafe")
      else ok object_id

  unfoldable pub validate_publish_receipt :
      ReplicaWork → Point → Storage → Option Receipt → Result String
  unfolding is_other
  validate_publish_receipt work point destination none =
      err (runtime_error "receiver publication receipt is invalid")
  validate_publish_receipt work point destination (some r) =
      if differs r.status (some "PUBLISHED")
      then err (runtime_error "receiver publication receipt is invalid")
      else if is_other work point destination r
      then err (runtime_error "receiver publication receipt identity mismatch")
      else object_of r.bundle_object_id

  abbrev pub point_or_raise : Option Point → Result Point
  point_or_raise none = err (domain_invariant_error "REPLICA_RESTORE_POINT_NOT_FOUND")
  point_or_raise (some p) = ok p

  pub record Context : Type 0 where
    pub point : Point
    pub vm : Vm
    pub destination : Storage

  -- The bundle stands below the root of its storage.
  unfoldable pub check_bundle : String → String → Result (Unit {0})
  check_bundle root bundle = do
    raise_if
        (not (paths.is_absolute root)
          || (not (paths.is_absolute bundle) || any (str_eq "..") (paths.parts bundle)))
        (domain_invariant_error "REPLICA_PRIMARY_BUNDLE_UNSAFE")
    raise_if (not (is_below (paths.parts root) (paths.parts bundle)))
        (domain_invariant_error "REPLICA_PRIMARY_BUNDLE_OUTSIDE_STORAGE")

  unfoldable pub context : Catalog → String → ReplicaWork → Result Context
  context db node work = do
    point ← point_or_raise (find_point db work.restore_point_id)
    run ← get_run db point.job_run_id
    job ← get_job db run.job_id
    vm ← get_vm db job.vm_id
    raise_if (not (str_eq vm.node_id node)) (domain_invariant_error "REPLICA_TASK_VM_NOT_LOCAL")
    destination ← get_storage_destination db node work.destination_id
    raise_if (not (is_ssh destination.storage_type))
        (domain_invariant_error "REPLICA_TASK_DESTINATION_NOT_SSH")
    raise_if (is_empty destination.remote_storage_id)
        (domain_invariant_error "REPLICA_REMOTE_STORAGE_ID_MISSING")
    primary ← get_storage_destination db node run.storage_destination_id
    raise_if (is_ssh primary.storage_type) (domain_invariant_error "REPLICA_PRIMARY_MUST_BE_LOCAL")
    check_bundle primary.backup_data_root (get_or point.bundle_object_id "")
    ok (record { point = point; vm = vm; destination = destination })

-- The variables that the callbacks share, with the database.
pub record Transfer : Type 0 where
  pub db : Catalog
  pub total_bytes : ℕ
  pub processed_bytes : ℕ
  pub last_persist : ℕ

abbrev pub mode_of : BackupKind → Option String → String
mode_of kind seed =
    if is_full kind then (if is_empty seed then "FULL" else "SEEDED_FULL") else "INCREMENTAL"

-- A raised exception, or the state that goes on.
abbrev pub stored : Result Replica × Catalog → Transfer → Result (Unit {0}) × Transfer
stored (err e, db) t = (err e, record t { db = db })
stored (ok value, db) t = (ok tt, record t { db = db })

abbrev pub and_next {ℓ κ} :
    {S : Type ℓ} {B : Type κ} → Result (Unit {0}) × S → (S → Result B × S) → Result B × S
and_next (err e, s) next = (err e, s)
and_next (ok u, s) next = next s

module _ (point : Point) (destination : Storage) (source_payload stamp : ℕ) where
  -- `selected_plan` and `progress`
  unfoldable pub report : Report → Transfer → Result (Unit {0}) × Transfer
  report (selected payloads seed) t =
      let total = total_of payloads in
      stored
        (update_replica_transfer_plan_v2 point.id destination.id (mode_of point.kind seed)
          (pos source_payload) (pos total) seed stamp t.db)
        (record t { total_bytes = total; processed_bytes = 0; last_persist = 0 })
  report (advanced delta now) t =
      let processed = min t.total_bytes (t.processed_bytes + to_ℕ delta) in
      if leb t.total_bytes 0
      then (ok tt, t)
      else if leb t.total_bytes processed || leb (t.last_persist + 1000) now
      then stored
          (update_replica_progress_v2 point.id destination.id (pos processed) (pos t.total_bytes)
            stamp t.db)
          (record t { processed_bytes = processed; last_persist = now })
      else (ok tt, record t { processed_bytes = processed })

  unfoldable pub report_all : List Report → Transfer → Result (Unit {0}) × Transfer
  report_all [] t = (ok tt, t)
  report_all (r ∷ rs) t = and_next (report r t) (report_all rs)

  -- What is persisted after the transfer has returned.
  unfoldable pub finish_progress : Transfer → Result (Unit {0}) × Transfer
  finish_progress t =
      if leb t.total_bytes 0
      then (ok tt, t)
      else stored
          (update_replica_progress_v2 point.id destination.id (pos t.total_bytes)
            (pos t.total_bytes) stamp t.db)
          t

abbrev pub check_receipt :
    ReplicaWork
    → Point
    → Storage
    → Result (Option Receipt)
    → Transfer
    → Result (Unit {0}) × Transfer
check_receipt work point destination (err e) t = (err e, t)
check_receipt work point destination (ok receipt) t =
    (validate_transfer_receipt work point destination receipt, t)

abbrev pub raised_first : Result (Option Receipt) → Transfer → Result (Unit {0}) × Transfer
raised_first (err e) t = (err e, t)
raised_first (ok receipt) t = (ok tt, t)

abbrev pub published : String → String → ℕ → Result String → Catalog → Result Replica × Catalog
published id destination_id stamp (err e) db = (err e, db)
published id destination_id stamp (ok object_id) db =
    update_replica_v2 id destination_id "SUCCESS" stamp none (some object_id) (some stamp) db

module _ (paths : Paths) (client : Client) (node : String) (stamp : ℕ) where
  abbrev pub published_receipt :
      ReplicaWork → Point → Storage → Result (Option Receipt) → Result String
  published_receipt work point destination (err e) = err e
  published_receipt work point destination (ok receipt) =
      validate_publish_receipt paths work point destination receipt

  abbrev pub publish_verified :
      ReplicaWork → Point → Storage → Result Replica × Catalog → Result Replica × Catalog
  publish_verified work point destination (err e, db) = (err e, db)
  publish_verified work point destination (ok value, db) =
      published point.id destination.id stamp
        (published_receipt work point destination
          (client.publish work.task_id point.id destination))
        db

  -- From the returned transfer on: VERIFYING, the publication and SUCCESS.
  abbrev pub verify_and_publish :
      ReplicaWork → Point → Storage → Result (Unit {0}) × Transfer → Result Replica × Catalog
  verify_and_publish work point destination (err e, t) = (err e, t.db)
  verify_and_publish work point destination (ok u, t) =
      publish_verified work point destination
        (update_replica_v2 point.id destination.id "VERIFYING" stamp none none none t.db)

  -- The callbacks that the transfer makes, after the plan for a client without them.
  abbrev pub reports_of : List ℤ → List Report → List Report
  reports_of payloads reports =
      if client.has_plan_callback then reports else selected payloads none ∷ reports

  unfoldable pub send : ReplicaWork → Point → Storage → List ℤ → Catalog → Result Replica × Catalog
  send work point destination payloads db =
      let (reports, receipt) = client.transfer work payloads destination in
      let source_payload = total_of payloads in
      let start : Transfer = record {
        db = db;
        total_bytes = source_payload;
        processed_bytes = 0;
        last_persist = 0;
      } in
      verify_and_publish work point destination (
        and_next
          (and_next
            (and_next
              (report_all point destination source_payload stamp (reports_of payloads reports)
                start)
              (raised_first receipt))
            (finish_progress point destination source_payload stamp))
          (check_receipt work point destination receipt))

  abbrev pub send_plan :
      ReplicaWork → Context paths → Result (List ℤ) → Catalog → Result Replica × Catalog
  send_plan work c (err e) db = (err e, db)
  send_plan work c (ok payloads) db = send work c.point c.destination payloads db

  abbrev pub send_context :
      ReplicaWork → Result (Context paths) → Catalog → Result Replica × Catalog
  send_context work (err e) db = (err e, db)
  send_context work (ok c) db = send_plan work c (client.plan work c.point c.vm.id c.destination) db

  -- `except Exception`
  abbrev pub or_failed : ReplicaWork → Result Replica × Catalog → Result Replica × Catalog
  or_failed work (ok value, db) = (ok value, db)
  or_failed work (err e, db) =
      update_replica_v2 work.restore_point_id work.destination_id "FAILED" stamp
        (some (described e)) none none db

  abbrev pub run_work : Option ReplicaWork × Catalog → Option (Result Replica) × Catalog
  run_work (none, db) = (none, db)
  run_work (some work, db) =
      let (result, db') = or_failed work (send_context work (context paths db node work) db) in
      (some result, db')

  -- `run_once`: none if there is no work.
  unfoldable pub run_once : Catalog → Option (Result Replica) × Catalog
  run_once db = run_work (claim_next_replica_v2 node stamp db)
