-- ===== src/Replica/Attempts.antt =====
-- The attempts at a remote deletion: what a tombstone promises, and that the queue in repository_v2.py
-- and the executor of replica_v2.py keep to it.
use vmbackupd.Prelude.{
  arith, ℕ, suc, ◌+◌, ◌≤◌, ◌<◌, ◌≡◌, refl, sym, ap, ◌∙◌, ◌⊎◌, inl, inr, Bool, true, false, ◌&&◌,
  leb, leb→le, not_leb→lt, Option, some, none, String, [], Bool-cases, Option-cases, both, str_eq,
  eq_iff, if◌then◌else◌, is_some, lookup, assign, lookup-assign, find_by, find_by-update_by,
  change_if, find_by-of_distinct, lookup-of_distinct, Result, ok, err, Error,
}
use mathlib.Core.Bool.{false≢true}
use vmbackupd.Compact.{DeleteTask, Run, Catalog}
use vmbackupd.Compact.Points.{run_id_of, find_run}
use vmbackupd.Compact.Records.{get_storage_destination}
use vmbackupd.Replica.Deletes.{
  claim_next_replica_delete_v2, Tasks, tasks_of, set_tasks, write_tasks, Candidate, running,
  run_tasks, put_task, maximum, finished, finish_replica_delete_v2, DeleteClient, delete_remote,
  delete_once,
}
use vmbackupd.Replica.Due.{task_at, IsKeyed, IsDue, IsFirst, claim_next_replica_delete_v2-IsClaim}

-- Where an attempt ends: done, or to be tried again after 30 seconds, or given up.
pub data IsOutcome (later : ℕ) (after : DeleteTask) : Result (Unit {0}) → Type 0 where
  done : after.state ≡ "COMPLETED" → IsOutcome later after (ok tt)
  again :
      {e : Error}
      → after.state ≡ "PENDING"
      → after.attempts < maximum after
      → after.next_attempt_at ≡ later + 30
      → IsOutcome later after (err e)
  given_up :
      {e : Error}
      → after.state ≡ "FAILED"
      → maximum after ≤ after.attempts
      → IsOutcome later after (err e)

module _ (client : DeleteClient) (node : String) (moment later : ℕ) (db : Catalog) where
  -- One attempt, at the first of the tombstones that are due.
  pub record IsAttempt (c : Candidate) (after : DeleteTask) : Type 0 where
    pub due : IsDue db node moment c
    pub first : IsFirst db node moment c
    pub counted : after.attempts ≡ suc (c.task).attempts
    pub cap : after.max_attempts ≡ (c.task).max_attempts
    pub object : after.remote_bundle_object_id ≡ (c.task).remote_bundle_object_id
    pub storage : after.remote_storage_id ≡ (c.task).remote_storage_id
    pub outcome : IsOutcome later after (delete_remote client node db c)

  -- A call of the executor: nothing is due and nothing changes, or one attempt is made.
  abbrev pub IsStep : Option (Result DeleteTask) × Catalog → Type 0
  IsStep r =
      ((r ≡ (none, db))
        × ((claim_next_replica_delete_v2 node moment db).0 ≡ none)
        × ((c : Candidate) → ¬ IsDue db node moment c))
      ⊎ ((c : Candidate) × (after : DeleteTask) × IsAttempt c after
          × ((claim_next_replica_delete_v2 node moment db).0
              ≡ some (record c { task = running moment c.task }))
          × (r.0 ≡ some (ok after))
          × (task_at r.1 c.run_id c.destination_id ≡ some after)
          × ((j e : String)
              → (j ≡ c.run_id → e ≡ c.destination_id → ⊥)
              → task_at r.1 j e ≡ task_at db j e))

  -- What may happen to the tombstone of a run for a destination.
  abbrev pub IsChange : String → String → Option DeleteTask → Option DeleteTask → Type 0
  IsChange run_id destination_id none none = Unit
  IsChange run_id destination_id (some before) none = ⊥
  IsChange run_id destination_id none (some after) = ⊥
  IsChange run_id destination_id (some before) (some after) =
      (after ≡ before)
      ⊎ IsAttempt (record { run_id = run_id; destination_id = destination_id; task = before }) after

-- The tombstones of one run are replaced, and no other.
pub task_at-write_tasks_exact :
    (run_id : String) (tasks : Tasks) (db : Catalog) (j e : String)
    → is_some (find_run db run_id) ≡ true
    → task_at (write_tasks run_id tasks db) j e
      ≡ (if str_eq j run_id then lookup tasks e else task_at db j e)
unfolding write_tasks run_tasks find_run
task_at-write_tasks_exact run_id tasks db j e h = elim (Bool-cases (str_eq j run_id)) [
  | inr n ↦
      rw (find_by-update_by run_id_of (set_tasks tasks) (λ r. refl) db.runs run_id j, n)
        (same (find_by run_id_of db.runs j))
  | inl t ↦
      rw
        (
          (eq_iff j run_id).0 t,
          find_by-update_by run_id_of (set_tasks tasks) (λ r. refl) db.runs run_id run_id,
          (eq_iff run_id run_id).1 refl,
        )
        (elim (Option-cases (find_by run_id_of db.runs run_id)) [
          | inl q ↦ absurd (false≢true (rw q at h))
          | inr (r, q) ↦ rw q
        ])
]
  where
    same :
        (o : Option Run)
        → lookup (tasks_of (change_if (set_tasks tasks) false o)) e ≡ lookup (tasks_of o) e
    same none = refl
    same (some r) = refl

module _ (run_id destination_id : String) (task : DeleteTask) (db : Catalog) where
  -- The lookup after an assignment, for the run that is written and for the others.
  chosen :
      (j e : String) (b : Bool)
      → str_eq j run_id ≡ b
      → (if b then lookup (assign destination_id task (run_tasks db run_id)) e else task_at db j e)
        ≡ (if b && str_eq destination_id e then some task else task_at db j e)
  chosen j e true q =
      lookup-assign destination_id e task (run_tasks db run_id)
      ∙ ap (λ z. if str_eq destination_id e then some task else task_at db z e)
          (sym ((eq_iff j run_id).0 q))
  chosen j e false q = refl

  task_at-put_task :
      (j e : String)
      → is_some (find_run db run_id) ≡ true
      → task_at (put_task run_id destination_id task db) j e
        ≡ (if str_eq j run_id && str_eq destination_id e then some task else task_at db j e)
  unfolding put_task
  task_at-put_task j e h =
      task_at-write_tasks_exact run_id (assign destination_id task (run_tasks db run_id)) db j e h
      ∙ chosen j e (str_eq j run_id) refl

row_of_task :
    (db : Catalog) (run_id destination_id : String) (task : DeleteTask)
    → task_at db run_id destination_id ≡ some task
    → is_some (find_run db run_id) ≡ true
unfolding run_tasks lookup
row_of_task db run_id destination_id task h = elim (Option-cases (find_run db run_id)) [
  | inl e ↦ let h' : none ≡ some task = rw e at h in cc
  | inr (r, e) ↦ ap is_some e
]

finish-present :
    (db : Catalog) (run_id destination_id : String) (task : DeleteTask)
    (outcome : Result (Unit {0})) (stamp : ℕ)
    → task_at db run_id destination_id ≡ some task
    → finish_replica_delete_v2 run_id destination_id outcome stamp db ≡ (
      ok (finished stamp outcome task),
      put_task run_id destination_id (finished stamp outcome task) db,
    )
unfolding finish_replica_delete_v2 run_tasks
finish-present db run_id destination_id task outcome stamp h =
    elim (Option-cases (find_run db run_id)) [
      | inl e ↦
          let h' : lookup [] destination_id ≡ some task = rw e at h in
          let h'' : none ≡ some task = unfold lookup in h' in cc
      | inr (r, e) ↦ rw (e, rw e at h)
    ]

-- The tombstone that is due stands in its place.
pub task_at-IsDue :
    (db : Catalog) (node : String) (moment : ℕ) (c : Candidate)
    → IsKeyed db
    → IsDue db node moment c
    → task_at db c.run_id c.destination_id ≡ some c.task
unfolding run_tasks find_run
task_at-IsDue db node moment c k h =
    rw (h.id, find_by-of_distinct run_id_of db.runs h.run k.runs h.listed)
      (lookup-of_distinct (h.run).replica_delete_tasks c.destination_id c.task
        (k.tasks h.run h.listed) h.listed_task)

finished-IsOutcome :
    (stamp : ℕ) (outcome : Result (Unit {0})) (task : DeleteTask)
    → IsOutcome stamp (finished stamp outcome task) outcome
finished-IsOutcome stamp (ok tt) task = done refl
finished-IsOutcome stamp (err e) task = elim (Bool-cases (leb (maximum task) task.attempts)) [
  | inl t ↦ given_up (rw t) (leb→le (maximum task) task.attempts t)
  | inr f ↦ again (rw f) (not_leb→lt (maximum task) task.attempts f) (rw f)
]

finished-fields :
    (stamp : ℕ) (outcome : Result (Unit {0})) (task : DeleteTask)
    → let after = finished stamp outcome task in
      (after.attempts ≡ task.attempts)
      × (after.max_attempts ≡ task.max_attempts)
      × (after.remote_bundle_object_id ≡ task.remote_bundle_object_id)
      × (after.remote_storage_id ≡ task.remote_storage_id)
finished-fields stamp (ok u) task = (refl, refl, refl, refl)
finished-fields stamp (err e) task = (refl, refl, refl, refl)

pub apart :
    (c : Candidate) (j e : String)
    → (str_eq j c.run_id && str_eq c.destination_id e) ≡ false
    → j ≡ c.run_id
    → e ≡ c.destination_id
    → ⊥
apart c j e n p q = ground (arith, n, eq_iff j c.run_id, eq_iff c.destination_id e, p, sym q)

module _ (client : DeleteClient) (node : String) (moment later : ℕ) (db : Catalog) where
  unchanged-IsChange :
      (run_id destination_id : String) (o : Option DeleteTask)
      → IsChange client node moment later db run_id destination_id o o
  unchanged-IsChange run_id destination_id none = tt
  unchanged-IsChange run_id destination_id (some t) = inl refl

  module _ (c : Candidate) (keyed : IsKeyed db) (due : IsDue db node moment c) where
    abbrev claimed_db : Catalog
    claimed_db = put_task c.run_id c.destination_id (running moment c.task) db

    abbrev ended : DeleteTask
    ended =
        finished later
          (delete_remote client node claimed_db (record c { task = running moment c.task }))
          (running moment c.task)

    claimed-row : is_some (find_run db c.run_id) ≡ true
    claimed-row =
        row_of_task db c.run_id c.destination_id c.task (task_at-IsDue db node moment c keyed due)

    claimed-task : task_at claimed_db c.run_id c.destination_id ≡ some (running moment c.task)
    claimed-task =
        task_at-put_task c.run_id c.destination_id (running moment c.task) db c.run_id
          c.destination_id claimed-row
        ∙ rw ((eq_iff c.run_id c.run_id).1 refl, (eq_iff c.destination_id c.destination_id).1 refl)

    twice :
        (b : Bool) (o : Option DeleteTask)
        → (if b then some ended else (if b then some (running moment c.task) else o))
          ≡ (if b then some ended else o)
    twice true o = refl
    twice false o = refl

    -- Both writes together.
    ended-task :
        (j e : String)
        → task_at (put_task c.run_id c.destination_id ended claimed_db) j e
          ≡ (if str_eq j c.run_id && str_eq c.destination_id e then some ended else task_at db j e)
    ended-task j e =
        rw
          (
            task_at-put_task c.run_id c.destination_id ended claimed_db j e (
                row_of_task claimed_db c.run_id c.destination_id (running moment c.task)
                  claimed-task),
            task_at-put_task c.run_id c.destination_id (running moment c.task) db j e claimed-row,
          )
          (twice (str_eq j c.run_id && str_eq c.destination_id e) (task_at db j e))

    ended-IsAttempt : IsFirst db node moment c → IsAttempt client node moment later db c ended
    unfolding delete_remote get_storage_destination put_task write_tasks
    ended-IsAttempt first =
        let outcome =
          delete_remote client node claimed_db (record c { task = running moment c.task }) in
        let (a, b, d, e) = finished-fields later outcome (running moment c.task) in
        record {
          due = due;
          first = first;
          counted = a;
          cap = b;
          object = d;
          storage = e;
          outcome = finished-IsOutcome later outcome (running moment c.task);
        }

  -- A call of the executor makes one attempt, or none where no tombstone is due, and every tombstone
  -- but that of the attempt stays as it is. The attempt is at a tombstone that is open and due on a
  -- run of the node; no other such tombstone has a greater sequence, so that descendants go before
  -- their FULL, and none of the same sequence was created before it. The attempt is counted once,
  -- whatever the client does, and the tombstone ends as COMPLETED if the deletion did not raise; if
  -- it did, as PENDING, due 30 seconds later, while attempts are left, and as FAILED when they are
  -- used up. Runs have ids of their own, and the tombstones of a run destinations of their own.
  pub delete_once-IsStep :
      IsKeyed db → IsStep client node moment later db (delete_once client node moment later db)
  unfolding delete_once
  delete_once-IsStep keyed = elim (claim_next_replica_delete_v2-IsClaim db node moment) [
    | inl (e, none_due) ↦ inl (rw e, rw e, none_due)
    | inr (c, due, first, e) ↦
        let finish =
          finish-present (claimed_db c keyed due) c.run_id c.destination_id (running moment c.task)
            (delete_remote client node (claimed_db c keyed due)
              (record c { task = running moment c.task }))
            later (claimed-task c keyed due) in
        inr (
          c,
          ended c keyed due,
          ended-IsAttempt c keyed due first,
          rw e,
          rw (e, finish),
          rw (
            e,
            finish,
            ended-task c keyed due c.run_id c.destination_id,
            (eq_iff c.run_id c.run_id).1 refl,
            (eq_iff c.destination_id c.destination_id).1 refl,
          ),
          λ j d differs.
              rw (e, finish, ended-task c keyed due j d)
                (elim (Bool-cases (str_eq j c.run_id && str_eq c.destination_id d)) [
                  | inr n ↦ rw n
                  | inl t ↦
                      let (a, b) = both (str_eq j c.run_id) (str_eq c.destination_id d) t in
                      absurd
                        (differs ((eq_iff j c.run_id).0 a) (sym ((eq_iff c.destination_id d).0 b)))
                ]),
        )
  ]

  -- The tombstones one by one.
  pub delete_once-IsChange :
      (run_id destination_id : String)
      → IsKeyed db
      → IsChange client node moment later db run_id destination_id
          (task_at db run_id destination_id)
          (task_at (delete_once client node moment later db).1 run_id destination_id)
  delete_once-IsChange run_id destination_id keyed = elim (delete_once-IsStep keyed) [
    | inl (e, _, _) ↦
        rw e (unchanged-IsChange run_id destination_id (task_at db run_id destination_id))
    | inr (c, after, attempt, _, _, there, rest) ↦
        elim (Bool-cases (str_eq run_id c.run_id && str_eq c.destination_id destination_id)) [
          | inr n ↦
              rw (rest run_id destination_id (λ p q. apart c run_id destination_id n p q))
                (unchanged-IsChange run_id destination_id (task_at db run_id destination_id))
          | inl t ↦
              let (a, b) =
                both (str_eq run_id c.run_id) (str_eq c.destination_id destination_id) t in
              rw
                (
                  (eq_iff run_id c.run_id).0 a,
                  sym ((eq_iff c.destination_id destination_id).0 b),
                  task_at-IsDue db node moment c keyed attempt.due,
                  there,
                )
                (inr attempt)
        ]
  ]
