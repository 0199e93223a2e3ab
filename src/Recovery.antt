-- ===== src/Recovery.antt =====
-- vmbackupd/recovery_policy_v2.py, recovery_queue_v2.py and recovery_executor_v2.py: what to do
-- about a failure, the durable queue, and the executor of each type of task.
use vmbackupd.Prelude.{
  String, Bool, Option, none, some, List, str_eq, if◌then◌else◌, Result, ok, err, runtime_error,
}
use Prim.Native.String.{◌++◌}
use vmbackupd.Host.{Host}
use vmbackupd.Repository.{Details, RecoveryTask, Db}
use vmbackupd.Repository.Tasks.{create_recovery_task, list_recovery_tasks, update_recovery_task}
use vmbackupd.Purge.{System}
use vmbackupd.Reclaim.{TaskStatus, resumed, Adapters}
use vmbackupd.Reclaim

pub record RecoveryDecision : Type 0 where
  pub action : String
  pub reason : String

-- `RecoveryPolicyV2.decide(failure_class, retryable)`
unfoldable pub decide : String → Bool → RecoveryDecision
decide failure_class retryable =
    if str_eq failure_class "LOCAL"
    then (if retryable
        then record { action = "RETRY"; reason = "local failure is retryable" }
        else record { action = "RECOVERY_REQUIRED"; reason = "local failure requires recovery" })
    else if str_eq failure_class "REMOTE"
    then record { action = "WAIT_REMOTE"; reason = "remote destination unavailable" }
    else if str_eq failure_class "RECOVERY"
    then record { action = "RECOVERY_REQUIRED"; reason = "unfinished recovery workflow" }
    else record { action = "BLOCKED"; reason = "unknown failure class" }

-- `RecoveryQueueV2`; the id of the new task is an argument.
unfoldable pub enqueue : String → String → String → Details → Db → Db
enqueue = create_recovery_task

unfoldable pub pending : Db → List RecoveryTask
pending = list_recovery_tasks "PENDING"

unfoldable pub complete : String → Db → Db
complete task_id = update_recovery_task task_id "COMPLETED" none

unfoldable pub fail : String → String → Db → Db
fail task_id error = update_recovery_task task_id "FAILED" (some error)

-- What an executor returns: a status, and the details to persist, if it has any.
pub record TaskOutcome : Type 0 where
  pub status : TaskStatus
  pub details : Option Details

abbrev pub reclaim_outcome : Result (TaskStatus × Details) → Result TaskOutcome
reclaim_outcome (err e) = err e
reclaim_outcome (ok (status, details)) = ok (record { status = status; details = some details })

module _ (h : Host) where
  -- `default_registry().execute(task)`
  unfoldable pub execute_task : Adapters → RecoveryTask → System h → Result TaskOutcome × System h
  execute_task adapters t s =
      if str_eq t.task_type "RECLAIM"
      then (let (result, s') = Reclaim.execute h adapters t.details s in
          (reclaim_outcome result, s'))
      else if str_eq t.task_type "VERIFY"
      then (ok (record { status = resumed; details = none }), s)
      else if str_eq t.task_type "CLEANUP"
      then (ok (record { status = resumed; details = none }), s)
      else (err (runtime_error ("no recovery executor for " ++ t.task_type)), s)
