-- ===== src/Tests/Runtime.antt =====
-- The daemon's operations on a run that is being prepared and on its recovery task.
use vmbackupd.Prelude.{◌≡◌, ◌≢◌, refl, some, [], ◌∷◌, String, All, eq_iff}
use mathlib.Core.Bool.{false≢true}
use vmbackupd.Repository.{JobRun}
use vmbackupd.Repository.Runs.{find_run, get_state}
use vmbackupd.Recovery.{decide}
use vmbackupd.Runtime.{
  process_task, process_recovery_tasks, handle_execution_result, advance_run, recover_run,
}
use vmbackupd.Runtime.Tasks.{
  IsSettled, outcome_of, RunsAfter, process_task-IsSettled, process_recovery_tasks-NoneRunning,
}
use vmbackupd.Runtime.Runs.{
  KeepsRow, Follows, advance_run-Follows, IsRecovered, recover_run-IsRecovered,
}
use vmbackupd.Tests.Fixture.{host, db, system, adapters, task, executor, run_of}

process_task-IsSettled_example :
    IsSettled "t"
      (outcome_of host adapters task system)
      (task ∷ [])
      (process_task host adapters task system).1.db.tasks
    × RunsAfter "r"
        (outcome_of host adapters task system)
        db.runs
        (process_task host adapters task system).1.db.runs
process_task-IsSettled_example = process_task-IsSettled host adapters task system

pending-ne_running : ◌≢◌ {A = String} "PENDING" "RUNNING"
pending-ne_running e = false≢true ((eq_iff "PENDING" "RUNNING").1 e)

process_recovery_tasks-NoneRunning_example :
    All (λ u. u.state ≢ "RUNNING") (process_recovery_tasks host adapters system).1.db.tasks
process_recovery_tasks-NoneRunning_example =
    process_recovery_tasks-NoneRunning host adapters system (pending-ne_running, tt)

is_preparing : get_state "r" db ≡ some "PREPARING"
unfolding get_state find_run
is_preparing = refl

advance_waits : (advance_run host executor "r" system).0 ≡ some "WAITING_REMOTE"
unfolding advance_run get_state find_run handle_execution_result decide
advance_waits = refl

prepare_keeps : KeepsRow host executor "r" executor.prepare system
unfolding find_run
prepare_keeps = refl

execute_keeps : KeepsRow host executor "r" executor.execute system
unfolding find_run
execute_keeps = refl

advance_run-Follows_example :
    (get_state "r" (advance_run host executor "r" system).1.db ≡ some "WAITING_REMOTE")
    × Follows "PREPARING" "WAITING_REMOTE"
advance_run-Follows_example =
    advance_run-Follows host executor "r" "PREPARING" system "WAITING_REMOTE" prepare_keeps
      execute_keeps is_preparing advance_waits

abbrev preparing : JobRun
preparing = run_of "r" "PREPARING"

advance_leaves : find_run (executor.advance "r" system).1.db.runs "r" ≡ some preparing
unfolding find_run
advance_leaves = refl

recover_run-IsRecovered_example :
    IsRecovered host executor "r"
      (executor.advance "r" system).0
      preparing
      (executor.advance "r" system).1.db
      (recover_run host executor "r" system).db
recover_run-IsRecovered_example =
    recover_run-IsRecovered host executor "r" system preparing advance_leaves
