-- ===== src/Replica/Keys.antt =====
-- repository_v2.py: the dictionaries of tombstones keep one entry for each destination, and the table
-- one row for each run, through every change that the queue makes.
use vmbackupd.Prelude.{
  ℕ, ◌≡◌, refl, sym, subst, ◌⊎◌, inl, inr, Bool, true, false, Option, some, none, String, map,
  Option-cases, ◌∈◌, AreDistinct, mem-of_map, str_eq, if◌then◌else◌, lookup, assign, find_by,
  update_by, find_by-update_by, mem-of_find_by, change_if, keys-update_by, assign-AreDistinct,
  Result,
}
use vmbackupd.Compact.{DeleteTask, Run, Catalog}
use vmbackupd.Compact.Points.{run_id_of, find_run}
use vmbackupd.Replica.Deletes.{
  Tasks, set_tasks, write_tasks, tasks_of, run_tasks, put_task, running, finish_replica_delete_v2,
  DeleteClient, delete_remote, delete_once,
}
use vmbackupd.Replica.Due.{task_at, IsKeyed, claim_next_replica_delete_v2-IsClaim}

module _ (run_id : String) (tasks : Tasks) (db : Catalog) where
  pub write_tasks-IsKeyed :
      AreDistinct (map (λ i. i.0) tasks) → IsKeyed db → IsKeyed (write_tasks run_id tasks db)
  unfolding write_tasks
  write_tasks-IsKeyed d k = record {
    runs =
        subst AreDistinct
          (sym (keys-update_by run_id_of (set_tasks tasks) (λ r. refl) run_id db.runs)) k.runs;
    tasks = λ r m. row r (unfold update_by in m);
  }
    where
      set : Run → Run
      set r = if str_eq r.id run_id then set_tasks tasks r else r

      one :
          (r : Run) (b : Bool)
          → AreDistinct (map (λ i. i.0) r.replica_delete_tasks)
          → AreDistinct (map (λ i. i.0) (if b then set_tasks tasks r else r).replica_delete_tasks)
      one r true h = d
      one r false h = h

      row :
          (r : Run)
          → r ∈ map (λ x. if str_eq x.id run_id then set_tasks tasks x else x) db.runs
          → AreDistinct (map (λ i. i.0) r.replica_delete_tasks)
      row r m =
          let (x, w, e) =
            mem-of_map (λ x. if str_eq x.id run_id then set_tasks tasks x else x) r db.runs m in
          subst (λ z. AreDistinct (map (λ i. i.0) z.replica_delete_tasks)) (sym e)
            (one x (str_eq x.id run_id) (k.tasks x w))

  -- A tombstone after the write is one of the new ones, or was there.
  pub task_at-write_tasks :
      (j e : String) (t : DeleteTask)
      → task_at (write_tasks run_id tasks db) j e ≡ some t
      → (lookup tasks e ≡ some t) ⊎ (task_at db j e ≡ some t)
  unfolding write_tasks run_tasks find_run
  task_at-write_tasks j e t h = case (str_eq j run_id) (find_by run_id_of db.runs j) (
      subst (λ o. lookup (tasks_of o) e ≡ some t)
        (find_by-update_by run_id_of (set_tasks tasks) (λ r. refl) db.runs run_id j) h)
    where
      case :
          (b : Bool) (o : Option Run)
          → lookup (tasks_of (change_if (set_tasks tasks) b o)) e ≡ some t
          → (lookup tasks e ≡ some t) ⊎ (lookup (tasks_of o) e ≡ some t)
      case b none h = inr h
      case true (some r) h = inl h
      case false (some r) h = inr h

-- The dictionary of a run has distinct destinations.
pub run_tasks-AreDistinct :
    (db : Catalog) (run_id : String)
    → IsKeyed db
    → AreDistinct (map (λ i. i.0) (run_tasks db run_id))
unfolding run_tasks find_run
run_tasks-AreDistinct db run_id k = elim (Option-cases (find_by run_id_of db.runs run_id)) [
  | inl e ↦ rw e tt
  | inr (r, e) ↦ rw e (k.tasks r (mem-of_find_by run_id_of db.runs run_id r e).0)
]

put_task-IsKeyed :
    (run_id destination_id : String) (task : DeleteTask) (db : Catalog)
    → IsKeyed db
    → IsKeyed (put_task run_id destination_id task db)
unfolding put_task
put_task-IsKeyed run_id destination_id task db k =
    write_tasks-IsKeyed run_id (assign destination_id task (run_tasks db run_id)) db
      (assign-AreDistinct destination_id task (run_tasks db run_id)
        (run_tasks-AreDistinct db run_id k))
      k

finish-IsKeyed :
    (run_id destination_id : String) (outcome : Result (Unit {0})) (stamp : ℕ) (db : Catalog)
    → IsKeyed db
    → IsKeyed (finish_replica_delete_v2 run_id destination_id outcome stamp db).1
unfolding finish_replica_delete_v2
finish-IsKeyed run_id destination_id outcome stamp db k = elim (Option-cases (find_run db run_id)) [
  | inl e ↦ rw e k
  | inr (r, e) ↦ elim (Option-cases (lookup r.replica_delete_tasks destination_id)) [
    | inl n ↦ rw (e, n) k
    | inr (t, q) ↦ rw (e, q) (put_task-IsKeyed run_id destination_id _ db k)
  ]
]

pub delete_once-IsKeyed :
    (client : DeleteClient) (node : String) (moment later : ℕ) (db : Catalog)
    → IsKeyed db
    → IsKeyed (delete_once client node moment later db).1
unfolding delete_once
delete_once-IsKeyed client node moment later db k =
    elim (claim_next_replica_delete_v2-IsClaim db node moment) [
      | inl (e, _) ↦ rw e k
      | inr (c, due, first, e) ↦
          let db' = put_task c.run_id c.destination_id (running moment c.task) db in
          rw e (
            finish-IsKeyed c.run_id c.destination_id
              (delete_remote client node db' (record c { task = running moment c.task })) later db'
              (put_task-IsKeyed c.run_id c.destination_id (running moment c.task) db k))
    ]
