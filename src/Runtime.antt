-- ===== src/Runtime.antt =====
-- vmbackupd/runtime_v2.py: the daemon's loop over recovery tasks and active runs. The executor of
-- runs is a parameter, as `DaemonRuntimeV2` takes it, and so is the scheduler's tick.
pub mod Tasks
pub mod Runs
use vmbackupd.Prelude.{
  ℕ, String, Bool, true, false, not, ◌||◌, Option, none, some, List, [], ◌∷◌, ◌++◌, map, str_eq,
  get_or, if◌then◌else◌, Result, ok, err, Error, message_of, described,
}
use vmbackupd.Host.{Host}
use vmbackupd.Repository.{JobRun, Details, RecoveryTask, Db}
use vmbackupd.Repository.Runs.{
  find_run, set_state, record_transition, record_failure, get_state, list_active_runs,
  transition_run, mark_recovery_required, resume_run_after_recovery,
}
use vmbackupd.Repository.Tasks.{list_recovery_tasks, update_recovery_details, update_recovery_task}
use vmbackupd.Purge.{System}
use vmbackupd.Reclaim.{TaskStatus, checkpoint_saved, space_available, resumed, Adapters}
use vmbackupd.Recovery.{RecoveryDecision, decide, enqueue, TaskOutcome, execute_task}

-- executor_v2.py, `ExecutionResult`, without the free details, which only go into the event of a
-- failure.
pub record ExecutionResult : Type 0 where
  pub status : String
  pub failure_class : Option String
  pub component : Option String
  pub message : Option String
  pub retryable : Bool

abbrev pub is_space_available : TaskStatus → Bool
is_space_available space_available = true
is_space_available _ = false

-- `task` in `update_recovery_details(task_id, result["details"])`, if the result has details.
abbrev pub store_details : String → Option Details → Db → Db
store_details task_id none db = db
store_details task_id (some details) db = update_recovery_details task_id details db

unfoldable pub settle_task : RecoveryTask → Result TaskOutcome → Db → Db
settle_task t (err e) db = update_recovery_task t.id "FAILED" (some (message_of e)) db
settle_task t (ok outcome) db =
    let stored = store_details t.id outcome.details db in
    if is_space_available outcome.status
    then resume_run_after_recovery t.run_id (update_recovery_task t.id "COMPLETED" none stored)
    else update_recovery_task t.id "PENDING" none stored

abbrev pub outcome_status : Result TaskOutcome → Option TaskStatus
outcome_status (err e) = none
outcome_status (ok outcome) = some outcome.status

-- `request_reclaim_for_run`; the id of the new task is an argument.
unfoldable pub request_reclaim_for_run : String → String → String → ℕ → Db → Db
request_reclaim_for_run new_id run_id storage_id required =
    enqueue new_id run_id "RECLAIM" (record {
      phase = some "START";
      storage_id = some storage_id;
      required_bytes = some required;
      reclaim_plan = none;
      verification = none;
    })

abbrev pub state_of_action : String → String
state_of_action action =
    if str_eq action "RETRY"
    then "RETRY_WAIT"
    else if str_eq action "WAIT_REMOTE"
    then "WAITING_REMOTE"
    else if str_eq action "RECOVERY_REQUIRED"
    then "RECOVERY_REQUIRED"
    else "BLOCKED"

-- `value or default`
abbrev pub text_or : Option String → String → String
text_or none default = default
text_or (some x) default = if str_eq x "" then default else x

-- `_handle_execution_result`: the new state, and the database with its events.
unfoldable pub handle_execution_result :
    String → String → ExecutionResult → String → Db → String × Db
handle_execution_result run_id old r success_state db =
    if str_eq r.status "SUCCESS"
    then (
      success_state,
      record_transition run_id old success_state (set_state run_id success_state db),
    )
    else (let decision = decide (text_or r.failure_class "UNKNOWN") r.retryable in
        let new = state_of_action decision.action in
        (
          new,
          set_state run_id new (
              record_failure run_id (text_or r.failure_class "UNKNOWN")
                (text_or r.component "unknown") (text_or r.message "execution failed") r.retryable
                decision.action decision.reason db),
        ))

abbrev pub is_uncertain : Option JobRun → Bool
is_uncertain none = false
is_uncertain (some r) =
    let phase = get_or r.execution_phase "" in
    str_eq phase "START_REQUESTED" || str_eq phase "RUNNING"

-- What the `except` of `recover_runs` does.
unfoldable pub fail_run : String → String → Db → Db
fail_run run_id text db =
    transition_run run_id "FAILED" (some text)
      (if is_uncertain (find_run db.runs run_id) then mark_recovery_required run_id text db else db)

module _ (h : Host) where
  pub record Executor : Type 0 where
    pub advance : String → System h → Result (Unit {0}) × System h
    pub prepare : String → System h → ExecutionResult × System h
    pub execute : String → System h → ExecutionResult × System h

  -- One iteration of `process_recovery_tasks`, and what it appends to the results.
  unfoldable pub process_task : Adapters → RecoveryTask → System h → Option TaskStatus × System h
  process_task adapters t s =
      let started = record s { db = update_recovery_task t.id "RUNNING" none s.db } in
      let (result, s') = execute_task h adapters t started in
      (outcome_status result, record s' { db = settle_task t result s'.db })

  unfoldable pub process_tasks :
      Adapters → List RecoveryTask → System h → List (Option TaskStatus) × System h
  process_tasks adapters [] s = ([], s)
  process_tasks adapters (t ∷ ts) s =
      let (result, s') = process_task adapters t s in
      let (results, s'') = process_tasks adapters ts s' in (result ∷ results, s'')

  unfoldable pub process_recovery_tasks : Adapters → System h → List (Option TaskStatus) × System h
  process_recovery_tasks adapters s = process_tasks adapters (list_recovery_tasks "PENDING" s.db) s

  abbrev pub after_advance : String → Result (Unit {0}) → System h → System h
  after_advance run_id (ok _) s = s
  after_advance run_id (err e) s = record s { db = fail_run run_id (described e) s.db }

  unfoldable pub recover_run : Executor → String → System h → System h
  recover_run executor run_id s =
      let (result, s') = executor.advance run_id s in after_advance run_id result s'

  unfoldable pub recover_all : Executor → List JobRun → System h → List String × System h
  recover_all executor [] s = ([], s)
  recover_all executor (r ∷ rs) s =
      let (ids, s') = recover_all executor rs (recover_run executor r.id s) in (r.id ∷ ids, s')

  -- `recover_runs`; with no executor every run is passed over.
  unfoldable pub recover_runs : Option Executor → System h → List String × System h
  recover_runs none s = ([], s)
  recover_runs (some executor) s = recover_all executor (list_active_runs s.db) s

  abbrev pub advance_from : Executor → String → Option String → System h → Option String × System h
  advance_from executor run_id none s = (none, s)
  advance_from executor run_id (some state) s =
      if str_eq state "PREPARING"
      then (let (r, s') = executor.prepare run_id s in
          let (new, db') = handle_execution_result run_id state r "BACKING_UP" s'.db in
          (some new, record s' { db = db' }))
      else if str_eq state "BACKING_UP"
      then (let (r, s') = executor.execute run_id s in
          let (new, db') = handle_execution_result run_id state r "VERIFYING" s'.db in
          (some new, record s' { db = db' }))
      else (some state, s)

  -- `advance_run`: the state that it returns, none for an unknown run.
  unfoldable pub advance_run : Executor → String → System h → Option String × System h
  advance_run executor run_id s = advance_from executor run_id (get_state run_id s.db) s
