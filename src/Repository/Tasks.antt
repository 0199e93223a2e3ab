-- ===== src/Repository/Tasks.antt =====
-- repository_v2.py: the durable queue of recovery tasks.
use vmbackupd.Prelude.{
  String, Option, none, List, [], ◌∷◌, ◌++◌, map, str_eq, if◌then◌else◌, filter,
}
use vmbackupd.Repository.{Details, RecoveryTask, Db}

-- The table's default state is PENDING.
unfoldable pub create_recovery_task : String → String → String → Details → Db → Db
create_recovery_task new_id run_id task_type details db = record db {
  tasks =
      db.tasks
      ++ record {
        id = new_id;
        run_id = run_id;
        task_type = task_type;
        state = "PENDING";
        details = details;
        error = none;
      }
        ∷ [];
}

unfoldable pub list_recovery_tasks : String → Db → List RecoveryTask
list_recovery_tasks state db = filter (λ t. str_eq t.state state) db.tasks

abbrev pub update_task :
    (RecoveryTask → RecoveryTask) → String → List RecoveryTask → List RecoveryTask
update_task change task_id = map (λ t. if str_eq t.id task_id then change t else t)

unfoldable pub update_recovery_details : String → Details → Db → Db
update_recovery_details task_id details db = record db {
  tasks = update_task (λ t. record t { details = details }) task_id db.tasks;
}

unfoldable pub update_recovery_task : String → String → Option String → Db → Db
update_recovery_task task_id state error db = record db {
  tasks = update_task (λ t. record t { state = state; error = error }) task_id db.tasks;
}
