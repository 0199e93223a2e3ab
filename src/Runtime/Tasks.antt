-- ===== src/Runtime/Tasks.antt =====
-- Recovery tasks over one pass of the daemon: each task that was pending is settled.
use vmbackupd.Prelude.{
  Option, map, get_or, ◌≢◌, str_eq, message_of, ◌≡◌, ap, refl, sym, subst, ◌∙◌, ◌⊎◌, inl, inr, true,
  some, none, String, List, [], ◌∷◌, arith, Bool-cases, ◌∈◌, All, eq_iff, if◌then◌else◌, mem-All,
  All-of_mem, Result, ok, err,
}
use mathlib.Core.Bool.{false≢true}
use vmbackupd.Host.{Host}
use vmbackupd.Repository.{JobRun, RecoveryTask, Details, Db}
use vmbackupd.Repository.Tasks.{list_recovery_tasks, update_recovery_details, update_recovery_task}
use vmbackupd.Repository.Runs.{update_run, resume_run_after_recovery}
use vmbackupd.Purge.{System}
use vmbackupd.Purge.Queue.{SameQueue, delete_restore_point-SameQueue}
use vmbackupd.Reclaim
use vmbackupd.Reclaim.{
  TaskStatus, checkpoint_saved, space_available, resumed, Adapters, phase_of, candidates_of,
}
use vmbackupd.Reclaim.Deletion.{execute-PurgesOne}
use vmbackupd.Recovery.{TaskOutcome, execute_task}
use vmbackupd.Runtime.{
  is_space_available, store_details, settle_task, process_task, process_tasks,
  process_recovery_tasks,
}

module _ (h : Host) (adapters : Adapters) where
  reclaim-SameQueue :
      (d : Details) (s : System h) → SameQueue s.db (Reclaim.execute h adapters d s).1.db
  reclaim-SameQueue d s = elim (execute-PurgesOne h adapters d s) [
    | inl e ↦ rw e (refl, refl)
    | inr (p, inl e) ↦ rw e (refl, refl)
    | inr (p, inr (c, m, t, e)) ↦ rw e (delete_restore_point-SameQueue h true c s)
  ]

  execute_task-SameQueue :
      (t : RecoveryTask) (s : System h) → SameQueue s.db (execute_task h adapters t s).1.db
  unfolding execute_task
  execute_task-SameQueue t s = elim (Bool-cases (str_eq t.task_type "RECLAIM")) [
    | inl a ↦ rw a (reclaim-SameQueue t.details s)
    | inr a ↦ rw a (elim (Bool-cases (str_eq t.task_type "VERIFY")) [
      | inl b ↦ rw b (refl, refl)
      | inr b ↦ rw b (elim (Bool-cases (str_eq t.task_type "CLEANUP")) [
        | inl c ↦ rw c (refl, refl)
        | inr c ↦ rw c (refl, refl)
      ])
    ])
  ]

-- Row by row: the rows of the key have been changed, and every other row is as it was.
abbrev pub AreChanged :
    {A : Type 0} → (A → String) → String → (A → A → Type 0) → List A → List A → Type 0
AreChanged key k Changed [] [] = Unit
AreChanged key k Changed [] (u ∷ us) = ⊥
AreChanged key k Changed (t ∷ ts) [] = ⊥
AreChanged key k Changed (t ∷ ts) (u ∷ us) =
    (((key t ≡ k) × (key u ≡ k) × Changed t u) ⊎ ((key t ≢ k) × (u ≡ t)))
    × AreChanged key k Changed ts us

module _ {A : Type 0} (key : A → String) (k : String) where
  same-AreChanged : (ts : List A) → AreChanged key k (λ t u. u ≡ t) ts ts
  same-AreChanged [] = tt
  same-AreChanged (t ∷ ts) = (
    elim (Bool-cases (str_eq (key t) k)) [
      | inl e ↦ inl ((eq_iff (key t) k).0 e, (eq_iff (key t) k).0 e, refl)
      | inr n ↦ inr (λ e. false≢true (sym n ∙ (eq_iff (key t) k).1 e), refl)
    ],
    same-AreChanged ts,
  )

  update-AreChanged :
      (R S : A → A → Type 0) (f : A → A) (ts us : List A)
      → ((u : A) → key (f u) ≡ key u)
      → ((t u : A) → R t u → S t (f u))
      → AreChanged key k R ts us
      → AreChanged key k S ts (map (λ u. if str_eq (key u) k then f u else u) us)
  update-AreChanged R S f [] [] keeps g a = tt
  update-AreChanged R S f [] (u ∷ us) keeps g a = a
  update-AreChanged R S f (t ∷ ts) [] keeps g a = a
  update-AreChanged R S f (t ∷ ts) (u ∷ us) keeps g (inl (e, i, r), a) = (
    rw ((eq_iff (key u) k).1 i) (inl (e, keeps u ∙ i, g t u r)),
    update-AreChanged R S f ts us keeps g a,
  )
  update-AreChanged R S f (t ∷ ts) (u ∷ us) keeps g (inr (n, same), a) = (
    elim (Bool-cases (str_eq (key u) k)) [
      | inl e ↦ absurd (n (ap key (sym same) ∙ (eq_iff (key u) k).0 e))
      | inr f ↦ rw f (inr (n, same))
    ],
    update-AreChanged R S f ts us keeps g a,
  )

  mem-of_changed :
      (R : A → A → Type 0) (ts us : List A) (u : A)
      → AreChanged key k R ts us
      → u ∈ us
      → ((t : A) × R t u) ⊎ (u ∈ ts)
  mem-of_changed R [] [] u a m = absurd m
  mem-of_changed R [] (v ∷ us) u a m = absurd a
  mem-of_changed R (t ∷ ts) [] u a m = absurd m
  mem-of_changed R (t ∷ ts) (v ∷ us) u (c, a) (inr m) = elim (mem-of_changed R ts us u a m) [
    | inl w ↦ inl w
    | inr w ↦ inr (inr w)
  ]
  mem-of_changed R (t ∷ ts) (v ∷ us) u (inl (e, i, r), a) (inl q) = inl (t, subst (R t) (sym q) r)
  mem-of_changed R (t ∷ ts) (v ∷ us) u (inr (n, same), a) (inl q) = inr (inl (q ∙ same))

abbrev pub id_of_task : RecoveryTask → String
id_of_task t = t.id

abbrev pub id_of_run : JobRun → String
id_of_run r = r.id

-- The state in which a task is left, by what its executor did, with the error and the details.
abbrev pub settled_state : Result TaskOutcome → String
settled_state (err e) = "FAILED"
settled_state (ok outcome) = if is_space_available outcome.status then "COMPLETED" else "PENDING"

abbrev pub settled_error : Result TaskOutcome → Option String
settled_error (err e) = some (message_of e)
settled_error (ok outcome) = none

abbrev pub settled_details : Result TaskOutcome → Details → Details
settled_details (err e) details = details
settled_details (ok outcome) details = get_or outcome.details details

abbrev pub Settles : Result TaskOutcome → RecoveryTask → RecoveryTask → Type 0
Settles r t u =
    (u.run_id ≡ t.run_id)
    × (u.task_type ≡ t.task_type)
    × (u.state ≡ settled_state r)
    × (u.error ≡ settled_error r)
    × (u.details ≡ settled_details r t.details)

-- The rows of the task are settled, and every other row is as it was.
abbrev pub IsSettled : String → Result TaskOutcome → List RecoveryTask → List RecoveryTask → Type 0
IsSettled task_id r = AreChanged id_of_task task_id (Settles r)

-- A row of the task while it is worked on.
abbrev Started : RecoveryTask → RecoveryTask → Type 0
Started t u = (u.run_id ≡ t.run_id) × (u.task_type ≡ t.task_type) × (u.details ≡ t.details)

abbrev Stored : Option Details → RecoveryTask → RecoveryTask → Type 0
Stored o t u =
    (u.run_id ≡ t.run_id) × (u.task_type ≡ t.task_type) × (u.details ≡ get_or o t.details)

store_details-AreChanged :
    (i : String) (o : Option Details) (old : List RecoveryTask) (db : Db)
    → AreChanged id_of_task i Started old db.tasks
    → AreChanged id_of_task i (Stored o) old (store_details i o db).tasks
unfolding update_recovery_details
store_details-AreChanged i none old db a = a
store_details-AreChanged i (some d) old db a =
    update-AreChanged id_of_task i Started (Stored (some d)) (λ t. record t { details = d }) old
      db.tasks (λ t. refl) (λ t u r. (r.0, r.1, refl)) a

settle_task-IsSettled :
    (t : RecoveryTask) (r : Result TaskOutcome) (old : List RecoveryTask) (db : Db)
    → AreChanged id_of_task t.id Started old db.tasks
    → IsSettled t.id r old (settle_task t r db).tasks
unfolding settle_task update_recovery_task resume_run_after_recovery
settle_task-IsSettled t (err e) old db a =
    update-AreChanged id_of_task t.id Started (Settles (err e))
      (λ u. record u { state = "FAILED"; error = some (message_of e) }) old db.tasks (λ u. refl)
      (λ x u s. (s.0, s.1, refl, refl, s.2)) a
settle_task-IsSettled t (ok outcome) old db a =
    let stored = store_details t.id outcome.details db in
    let a' = store_details-AreChanged t.id outcome.details old db a in
    elim (Bool-cases (is_space_available outcome.status)) [
      | inl done ↦ rw done (
          update-AreChanged id_of_task t.id (Stored outcome.details) (Settles (ok outcome))
            (λ u. record u { state = "COMPLETED"; error = none }) old stored.tasks (λ u. refl)
            (λ x u s. (s.0, s.1, rw done, refl, s.2)) a')
      | inr more ↦ rw more (
          update-AreChanged id_of_task t.id (Stored outcome.details) (Settles (ok outcome))
            (λ u. record u { state = "PENDING"; error = none }) old stored.tasks (λ u. refl)
            (λ x u s. (s.0, s.1, rw more, refl, s.2)) a')
    ]

-- The runs after a task is settled: its run is scheduled again if there is space, and no other row
-- changes.
abbrev pub RunsAfter : String → Result TaskOutcome → List JobRun → List JobRun → Type 0
RunsAfter run_id (err e) old new = new ≡ old
RunsAfter run_id (ok outcome) old new =
    if is_space_available outcome.status
    then AreChanged id_of_run run_id (λ r r'. r' ≡ record r { state = "SCHEDULED" }) old new
    else new ≡ old

scheduled_runs :
    (run_id : String) (rs : List JobRun)
    → AreChanged id_of_run run_id
        (λ r r'. r' ≡ record r { state = "SCHEDULED" })
        rs
        (update_run (λ r. record r { state = "SCHEDULED" }) run_id rs)
unfolding update_run
scheduled_runs run_id rs =
    update-AreChanged id_of_run run_id (λ r r'. r' ≡ r)
      (λ r r'. r' ≡ record r { state = "SCHEDULED" }) (λ r. record r { state = "SCHEDULED" }) rs rs
      (λ r. refl) (λ r r' e. ap (λ (z : JobRun). record z { state = "SCHEDULED" }) e)
      (same-AreChanged id_of_run run_id rs)

stored-runs :
    (i : String) (details : Option Details) (db : Db) → (store_details i details db).runs ≡ db.runs
unfolding update_recovery_details
stored-runs i none db = refl
stored-runs i (some d) db = refl

settle_task-runs :
    (t : RecoveryTask) (r : Result TaskOutcome) (db : Db)
    → RunsAfter t.run_id r db.runs (settle_task t r db).runs
unfolding settle_task update_recovery_task resume_run_after_recovery
settle_task-runs t (err e) db = refl
settle_task-runs t (ok outcome) db = elim (Bool-cases (is_space_available outcome.status)) [
  | inl done ↦ rw (done, stored-runs t.id outcome.details db) (scheduled_runs t.run_id db.runs)
  | inr more ↦ rw more (stored-runs t.id outcome.details db)
]

module _ (h : Host) (adapters : Adapters) where
  abbrev started : RecoveryTask → System h → System h
  started t s = record s { db = update_recovery_task t.id "RUNNING" none s.db }

  abbrev pub outcome_of : RecoveryTask → System h → Result TaskOutcome
  outcome_of t s = (execute_task h adapters t (started t s)).0

  started-AreChanged :
      (t : RecoveryTask) (s : System h)
      → AreChanged id_of_task t.id Started s.db.tasks (started t s).db.tasks
  unfolding update_recovery_task
  started-AreChanged t s =
      update-AreChanged id_of_task t.id (λ x u. u ≡ x) Started
        (λ u. record u { state = "RUNNING"; error = none }) s.db.tasks s.db.tasks (λ u. refl)
        (λ x u e. (
          ap (λ (z : RecoveryTask). z.run_id) e,
          ap (λ (z : RecoveryTask). z.task_type) e,
          ap (λ (z : RecoveryTask). z.details) e,
        ))
        (same-AreChanged id_of_task t.id s.db.tasks)

  started-runs : (t : RecoveryTask) (s : System h) → (started t s).db.runs ≡ s.db.runs
  unfolding update_recovery_task
  started-runs t s = refl

  -- Processing a task leaves its rows, and no others are changed, added or lost: they are COMPLETED,
  -- PENDING or FAILED, as its executor found space, saved a checkpoint or raised, with the text of
  -- what was raised as the error, and with the details that the executor returned, if any. The rows
  -- of its run are SCHEDULED again if space was found, and otherwise, and for every other run,
  -- nothing changes.
  pub process_task-IsSettled :
      (t : RecoveryTask) (s : System h)
      → IsSettled t.id (outcome_of t s) s.db.tasks (process_task h adapters t s).1.db.tasks
        × RunsAfter t.run_id (outcome_of t s) s.db.runs (process_task h adapters t s).1.db.runs
  unfolding process_task
  process_task-IsSettled t s =
      let after = (execute_task h adapters t (started t s)).1 in
      let (same_runs, same_tasks) = execute_task-SameQueue h adapters t (started t s) in
      (
        settle_task-IsSettled t (outcome_of t s) s.db.tasks after.db (
            subst (AreChanged id_of_task t.id Started s.db.tasks) (sym same_tasks)
              (started-AreChanged t s)),
        subst
            (λ l.
              RunsAfter t.run_id (outcome_of t s) l (settle_task t (outcome_of t s) after.db).runs)
            (same_runs ∙ started-runs t s) (settle_task-runs t (outcome_of t s) after.db),
      )

  settled_state-ne_running : (r : Result TaskOutcome) → settled_state r ≢ "RUNNING"
  settled_state-ne_running (err e) q = ground (arith, eq_iff "FAILED" "RUNNING")
  settled_state-ne_running (ok outcome) q =
      ground (arith, eq_iff "COMPLETED" "RUNNING", eq_iff "PENDING" "RUNNING")

  process_task-NoneRunning :
      (t : RecoveryTask) (s : System h)
      → All (λ u. u.state ≢ "RUNNING") s.db.tasks
      → All (λ u. u.state ≢ "RUNNING") (process_task h adapters t s).1.db.tasks
  process_task-NoneRunning t s a =
      let new = (process_task h adapters t s).1.db.tasks in
      All-of_mem (λ u. u.state ≢ "RUNNING") new
        (λ u m.
          elim (mem-of_changed id_of_task t.id (Settles (outcome_of t s)) s.db.tasks new u
            (process_task-IsSettled t s).0 m) [
              | inl (x, c) ↦ λ r. settled_state-ne_running (outcome_of t s) (sym c.2 ∙ r)
              | inr old ↦ mem-All (λ v. v.state ≢ "RUNNING") u s.db.tasks a old
            ])

  process_tasks-NoneRunning :
      (ts : List RecoveryTask) (s : System h)
      → All (λ u. u.state ≢ "RUNNING") s.db.tasks
      → All (λ u. u.state ≢ "RUNNING") (process_tasks h adapters ts s).1.db.tasks
  unfolding process_tasks
  process_tasks-NoneRunning [] s a = a
  process_tasks-NoneRunning (t ∷ ts) s a =
      process_tasks-NoneRunning ts (process_task h adapters t s).1 (process_task-NoneRunning t s a)

  -- If no recovery task is RUNNING before a pass over the recovery tasks, then none is after it,
  -- whatever the executors do.
  pub process_recovery_tasks-NoneRunning :
      (s : System h)
      → All (λ u. u.state ≢ "RUNNING") s.db.tasks
      → All (λ u. u.state ≢ "RUNNING") (process_recovery_tasks h adapters s).1.db.tasks
  unfolding process_recovery_tasks
  process_recovery_tasks-NoneRunning s a =
      process_tasks-NoneRunning (list_recovery_tasks "PENDING" s.db) s a
