-- ===== src/Replica/Deletes.antt =====
-- repository_v2.py: the tombstones of replicas, which outlive the local restore point in the context
-- of its run, and `CompactReplicaDeleteExecutor` of replica_v2.py, which works them off. Stamps count
-- seconds; the client's `delete` is a parameter.
use vmbackupd.Prelude.{
  ℕ, zero, suc, ◌+◌, max, String, Bool, false, ◌&&◌, ◌||◌, not, ltb, leb, ◌==◌, Option, none, some,
  List, [], ◌∷◌, ◌++◌, str_eq, str_le, if◌then◌else◌, get_or, find_by, update_by, lookup, assign,
  Result, ok, err, domain_invariant_error, described, raise_if, ◌>>=◌, ◌>>◌,
}
use vmbackupd.Prelude.Sort.{sort}
use vmbackupd.Compact.{Replica, DeleteTask, Point, Run, Storage, Catalog}
use vmbackupd.Compact.Points.{find_point, find_run, run_id_of, node_of_run, is_node, is_ssh}
use vmbackupd.Compact.Records.{missing_key, get_storage_destination}
use vmbackupd.Replica.Executor.{is_empty, differs}

-- `state in {"PENDING", "RUNNING", "COMPLETED", "FAILED"}`
abbrev pub is_task_state : String → Bool
is_task_state state =
    str_eq state "PENDING"
    || (str_eq state "RUNNING" || (str_eq state "COMPLETED" || str_eq state "FAILED"))

abbrev pub is_queued : Option DeleteTask → Bool
is_queued none = false
is_queued (some task) = is_task_state task.state

-- The remote storage of an SSH destination.
abbrev remote_storage : Option Storage → Option String
remote_storage none = none
remote_storage (some s) =
    if is_ssh s.storage_type && not (is_empty s.remote_storage_id)
    then s.remote_storage_id
    else none

abbrev with_storage : String → Option String → Option (String × String)
with_storage object none = none
with_storage object (some storage) = some (storage, object)

abbrev with_object : Option String → Option String → Option (String × String)
with_object none storage = none
with_object (some object) storage = if str_eq object "" then none else with_storage object storage

-- The remote storage and object of a replica that is published.
unfoldable pub published_at : Catalog → String → Replica → Option (String × String)
published_at db destination_id value =
    if str_eq value.state "SUCCESS"
    then with_object value.remote_bundle_object_id
        (remote_storage (find_by (λ s. s.id) db.storages destination_id))
    else none

abbrev pub tombstone : Point → ℕ → String → String × String → DeleteTask
tombstone p stamp destination_id remote = record {
  restore_point_id = p.id;
  destination_id = destination_id;
  remote_storage_id = remote.0;
  remote_bundle_object_id = remote.1;
  kind = p.kind;
  sequence = get_or p.sequence 0;
  chain_id = p.chain_id;
  state = "PENDING";
  attempts = 0;
  max_attempts = 3;
  last_error = none;
  next_attempt_at = stamp;
  created_at = stamp;
  updated_at = stamp;
}

abbrev pub Tasks : Type 0
Tasks = List (String × DeleteTask)

abbrev pub enqueue_remote : Point → ℕ → String → Option (String × String) → Tasks × ℕ → Tasks × ℕ
enqueue_remote p stamp destination_id none state = state
enqueue_remote p stamp destination_id (some remote) (tasks, created) =
    if is_queued (lookup tasks destination_id)
    then (tasks, created)
    else (assign destination_id (tombstone p stamp destination_id remote) tasks, suc created)

-- The loop over `replicas.items()`.
unfoldable pub enqueue_items : Catalog → Point → ℕ → List (String × Replica) → Tasks × ℕ → Tasks × ℕ
enqueue_items db p stamp [] state = state
enqueue_items db p stamp (item ∷ items) state =
    enqueue_items db p stamp items
      (enqueue_remote p stamp item.0 (published_at db item.0 item.1) state)

abbrev pub set_tasks : Tasks → Run → Run
set_tasks tasks r = record r { replica_delete_tasks = tasks }

-- `UPDATE job_runs SET context_json=?`, with these tasks.
unfoldable pub write_tasks : String → Tasks → Catalog → Catalog
write_tasks run_id tasks db = record db {
  runs = update_by run_id_of (set_tasks tasks) run_id db.runs;
}

abbrev pub store_created : String → Catalog → Tasks × ℕ → Result ℕ × Catalog
store_created run_id db (tasks, zero) = (ok 0, db)
store_created run_id db (tasks, suc n) = (ok (suc n), write_tasks run_id tasks db)

abbrev pub enqueue_in_run : Catalog → Point → ℕ → Option Run → Result ℕ × Catalog
enqueue_in_run db p stamp none = (err (missing_key p.job_run_id), db)
enqueue_in_run db p stamp (some r) =
    store_created p.job_run_id db (enqueue_items db p stamp p.replicas (r.replica_delete_tasks, 0))

abbrev pub enqueue_point : Catalog → ℕ → Option Point → Result ℕ × Catalog
enqueue_point db stamp none = (ok 0, db)
enqueue_point db stamp (some p) = enqueue_in_run db p stamp (find_run db p.job_run_id)

unfoldable pub enqueue_replica_deletes_v2 : String → ℕ → Catalog → Result ℕ × Catalog
enqueue_replica_deletes_v2 id stamp db = enqueue_point db stamp (find_point db id)

pub record Candidate : Type 0 where
  pub run_id : String
  pub destination_id : String
  pub task : DeleteTask

-- The keys `(-sequence, created_at, run_id, destination_id)`.
unfoldable pub candidate_le : Candidate → Candidate → Bool
candidate_le a b =
    ltb b.task.sequence a.task.sequence
    || ((a.task.sequence == b.task.sequence)
        && (ltb a.task.created_at b.task.created_at
            || ((a.task.created_at == b.task.created_at)
                && (if str_eq a.run_id b.run_id
                    then str_le a.destination_id b.destination_id
                    else str_le a.run_id b.run_id))))

abbrev pub is_open : String → Bool
is_open state = str_eq state "PENDING" || str_eq state "RUNNING"

unfoldable pub due_tasks : ℕ → String → Tasks → List Candidate
due_tasks stamp run_id [] = []
due_tasks stamp run_id (item ∷ items) =
    let rest = due_tasks stamp run_id items in
    if is_open (item.1).state && leb (item.1).next_attempt_at stamp
    then record { run_id = run_id; destination_id = item.0; task = item.1 } ∷ rest
    else rest

unfoldable pub due_runs : Catalog → String → ℕ → List Run → List Candidate
due_runs db node stamp [] = []
due_runs db node stamp (r ∷ rs) =
    let rest = due_runs db node stamp rs in
    if is_node node (node_of_run db (some r))
    then due_tasks stamp r.id r.replica_delete_tasks ++ rest
    else rest

abbrev pub running : ℕ → DeleteTask → DeleteTask
running stamp task = record task {
  state = "RUNNING";
  attempts = suc task.attempts;
  updated_at = stamp;
}

abbrev pub tasks_of : Option Run → Tasks
tasks_of none = []
tasks_of (some r) = r.replica_delete_tasks

unfoldable pub run_tasks : Catalog → String → Tasks
run_tasks db run_id = tasks_of (find_run db run_id)

-- A changed task goes back into its dictionary.
unfoldable pub put_task : String → String → DeleteTask → Catalog → Catalog
put_task run_id destination_id task db =
    write_tasks run_id (assign destination_id task (run_tasks db run_id)) db

abbrev pub claim_first : ℕ → Catalog → List Candidate → Option Candidate × Catalog
claim_first stamp db [] = (none, db)
claim_first stamp db (c ∷ cs) = (
  some (record c { task = running stamp c.task }),
  put_task c.run_id c.destination_id (running stamp c.task) db,
)

unfoldable pub claim_next_replica_delete_v2 : String → ℕ → Catalog → Option Candidate × Catalog
claim_next_replica_delete_v2 node stamp db =
    claim_first stamp db (sort candidate_le (due_runs db node stamp db.runs))

abbrev completed : ℕ → DeleteTask → DeleteTask
completed stamp task = record task { state = "COMPLETED"; last_error = none; updated_at = stamp }

-- `int(task.get("max_attempts") or 3)`
abbrev pub maximum : DeleteTask → ℕ
maximum task = if task.max_attempts == 0 then 3 else task.max_attempts

-- Both outcomes of a failed deletion, with the delay of 30 seconds.
abbrev failed : ℕ → String → DeleteTask → DeleteTask
failed stamp error task =
    let terminal = leb (maximum task) task.attempts in
    record task {
      state = if terminal then "FAILED" else "PENDING";
      last_error = some (if str_eq error "" then "remote replica delete failed" else error);
      updated_at = stamp;
      next_attempt_at = if terminal then stamp else stamp + max 1 30;
    }

abbrev pub finished : ℕ → Result (Unit {0}) → DeleteTask → DeleteTask
finished stamp (ok u) task = completed stamp task
finished stamp (err e) task = failed stamp (described e) task

abbrev finish_found :
    String
    → String
    → Result (Unit {0})
    → ℕ
    → Catalog
    → Option DeleteTask
    → Result DeleteTask × Catalog
finish_found run_id destination_id outcome stamp db none =
    (err (domain_invariant_error "REPLICA_DELETE_TASK_NOT_FOUND"), db)
finish_found run_id destination_id outcome stamp db (some task) = (
  ok (finished stamp outcome task),
  put_task run_id destination_id (finished stamp outcome task) db,
)

abbrev finish_run :
    String → String → Result (Unit {0}) → ℕ → Catalog → Option Run → Result DeleteTask × Catalog
finish_run run_id destination_id outcome stamp db none = (err (missing_key run_id), db)
finish_run run_id destination_id outcome stamp db (some r) =
    finish_found run_id destination_id outcome stamp db
      (lookup r.replica_delete_tasks destination_id)

-- `finish_replica_delete_v2`; success, or the exception as its text.
unfoldable pub finish_replica_delete_v2 :
    String → String → Result (Unit {0}) → ℕ → Catalog → Result DeleteTask × Catalog
finish_replica_delete_v2 run_id destination_id outcome stamp db =
    finish_run run_id destination_id outcome stamp db (find_run db run_id)

pub record DeleteClient : Type 0 where
  pub delete : Storage → String → String → String → Result (Unit {0})

module _ (client : DeleteClient) (node : String) where
  -- The `try` up to the call of the client.
  unfoldable pub delete_remote : Catalog → Candidate → Result (Unit {0})
  delete_remote db c = do
    destination ← get_storage_destination db node c.destination_id
    raise_if (not (is_ssh destination.storage_type))
        (domain_invariant_error "REPLICA_DELETE_DESTINATION_NOT_SSH")
    raise_if (is_empty destination.remote_storage_id)
        (domain_invariant_error "REPLICA_DELETE_REMOTE_STORAGE_ID_MISSING")
    raise_if (differs destination.remote_storage_id (some (c.task).remote_storage_id))
        (domain_invariant_error "REPLICA_DELETE_REMOTE_STORAGE_CHANGED")
    client.delete destination (c.task).remote_storage_id (c.task).restore_point_id
        (c.task).remote_bundle_object_id

  abbrev pub delete_claimed : ℕ → Option Candidate × Catalog → Option (Result DeleteTask) × Catalog
  delete_claimed stamp (none, db) = (none, db)
  delete_claimed stamp (some c, db) =
      let (result, db') =
        finish_replica_delete_v2 c.run_id c.destination_id (delete_remote db c) stamp db in
      (some result, db')

  -- `CompactReplicaDeleteExecutor.run_once`, at the clock's readings before and after the deletion.
  unfoldable pub delete_once : ℕ → ℕ → Catalog → Option (Result DeleteTask) × Catalog
  delete_once moment later db = delete_claimed later (claim_next_replica_delete_v2 node moment db)
