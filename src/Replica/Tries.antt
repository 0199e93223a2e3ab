-- ===== src/Replica/Tries.antt =====
-- How often the executor of replica_v2.py tries the deletion of one replica, and what the tombstone of
-- the replica tells of it.
use vmbackupd.Prelude.{
  ℕ, zero, suc, ◌≤◌, ◌≡◌, refl, sym, ap, subst, ◌∙◌, inl, inr, true, ◌&&◌, Option, some, none,
  String, List, [], ◌∷◌, arith, Bool-cases, Option-cases, both, str_eq, eq_iff, if◌then◌else◌,
  is_some, lookup, Result, ok, err,
}
use vmbackupd.Compact.{Replica, DeleteTask, Point, Run, Catalog}
use vmbackupd.Compact.Points.{find_point, find_run}
use vmbackupd.Replica.Deletes.{
  Tasks, is_queued, published_at, tombstone, enqueue_remote, enqueue_items, run_tasks, tasks_of,
  store_created, enqueue_replica_deletes_v2, Candidate, DeleteClient, delete_remote, delete_once,
  claim_next_replica_delete_v2,
}
use vmbackupd.Replica.Due.{task_at, IsKeyed}
use vmbackupd.Replica.Attempts.{
  IsOutcome, done, again, given_up, IsAttempt, delete_once-IsStep, task_at-write_tasks_exact,
  task_at-IsDue, apart,
}
use vmbackupd.Replica.Tombstones.{kept_or, remote-lookup}

-- The tries of the tombstone of a run for a destination, with that of what the executor claims.
abbrev pub tries : String → String → ℕ → Option Candidate → ℕ
tries run_id destination_id n none = n
tries run_id destination_id n (some c) =
    if str_eq run_id c.run_id && str_eq c.destination_id destination_id then suc n else n

-- A tombstone counts the tries; without one there were none.
abbrev pub IsTold : ℕ → Option DeleteTask → Type 0
IsTold n none = n ≡ 0
IsTold n (some t) = (n ≤ t.attempts) × (t.max_attempts ≡ 3) × (is_queued (some t) ≡ true)

module _ (n : ℕ) (d : String) (p : Point) (stamp : ℕ) where
  kept_or-IsTold :
      (o : Option DeleteTask) (x : String) (remote : String × String)
      → IsTold n o
      → IsTold n (kept_or o (tombstone p stamp x remote))
  kept_or-IsTold none x remote h = (omega (arith, h), refl, refl)
  kept_or-IsTold (some t) x remote h = rw h.2 h

  remote-IsTold :
      (x : String) (remote : Option (String × String)) (s : Tasks × ℕ)
      → IsTold n (lookup s.0 d)
      → IsTold n (lookup (enqueue_remote p stamp x remote s).0 d)
  remote-IsTold x none s h = h
  remote-IsTold x (some remote) s h =
      subst (IsTold n) (sym (remote-lookup p stamp x remote s d)) (elim (Bool-cases (str_eq x d)) [
        | inl e ↦ rw e (kept_or-IsTold (lookup s.0 d) x remote h)
        | inr e ↦ rw e h
      ])

  items-IsTold :
      (db : Catalog) (items : List (String × Replica)) (s : Tasks × ℕ)
      → IsTold n (lookup s.0 d)
      → IsTold n (lookup (enqueue_items db p stamp items s).0 d)
  unfolding enqueue_items
  items-IsTold db [] s h = h
  items-IsTold db (item ∷ items) s h =
      items-IsTold db items (enqueue_remote p stamp item.0 (published_at db item.0 item.1) s)
        (remote-IsTold item.0 (published_at db item.0 item.1) s h)

module _ (n : ℕ) (run_id destination_id : String) where
  stored-IsTold :
      (p : Point) (r : Run) (db : Catalog) (s : Tasks × ℕ)
      → find_run db p.job_run_id ≡ some r
      → (run_id ≡ p.job_run_id → IsTold n (lookup s.0 destination_id))
      → IsTold n (task_at db run_id destination_id)
      → IsTold n (task_at (store_created p.job_run_id db s).1 run_id destination_id)
  stored-IsTold p r db (tasks, zero) q h old = old
  stored-IsTold p r db (tasks, suc m) q h old =
      subst (IsTold n)
        (sym (task_at-write_tasks_exact p.job_run_id tasks db run_id destination_id (ap is_some q)))
        (elim (Bool-cases (str_eq run_id p.job_run_id)) [
          | inl t ↦ rw t (h ((eq_iff run_id p.job_run_id).0 t))
          | inr f ↦ rw f old
        ])

  pub enqueue-IsTold :
      (id : String) (stamp : ℕ) (db : Catalog)
      → IsTold n (task_at db run_id destination_id)
      → IsTold n (task_at (enqueue_replica_deletes_v2 id stamp db).1 run_id destination_id)
  unfolding enqueue_replica_deletes_v2
  enqueue-IsTold id stamp db old = elim (Option-cases (find_point db id)) [
    | inl e ↦ rw e old
    | inr (p, e) ↦ elim (Option-cases (find_run db p.job_run_id)) [
      | inl f ↦ rw (e, f) old
      | inr (r, q) ↦
          rw (e, q)
            (stored-IsTold p r db (enqueue_items db p stamp p.replicas (r.replica_delete_tasks, 0))
              q
              (λ same.
                items-IsTold n destination_id p stamp db p.replicas (r.replica_delete_tasks, 0)
                  (there p r q same))
              old)
    ]
  ]
    where
      there :
          (p : Point) (r : Run)
          → find_run db p.job_run_id ≡ some r
          → run_id ≡ p.job_run_id
          → IsTold n (lookup r.replica_delete_tasks destination_id)
      there p r q same =
          let row : run_tasks db run_id ≡ r.replica_delete_tasks =
            unfold run_tasks in (ap (λ z. tasks_of (find_run db z)) same ∙ ap tasks_of q) in
          subst (λ l. IsTold n (lookup l destination_id)) row old

module _ (client : DeleteClient) (node : String) (moment later : ℕ) (db : Catalog) where
  outcome-is_queued :
      (after : DeleteTask) (r : Result (Unit {0}))
      → IsOutcome later after r
      → is_queued (some after) ≡ true
  outcome-is_queued after (ok tt) (done s) = rw s
  outcome-is_queued after (err e) (again s l m) = rw s
  outcome-is_queued after (err e) (given_up s l) = rw s

  attempt-IsTold :
      (n : ℕ) (c : Candidate) (after : DeleteTask)
      → IsAttempt client node moment later db c after
      → IsTold n (some c.task)
      → IsTold (suc n) (some after)
  attempt-IsTold n c after a told = (
    omega (arith, a.counted, told.0),
    a.cap ∙ told.1,
    outcome-is_queued after (delete_remote client node db c) a.outcome,
  )

  pub delete_once-IsTold :
      (n : ℕ) (run_id destination_id : String)
      → IsKeyed db
      → IsTold n (task_at db run_id destination_id)
      → IsTold
          (tries run_id destination_id n (claim_next_replica_delete_v2 node moment db).0)
          (task_at (delete_once client node moment later db).1 run_id destination_id)
  delete_once-IsTold n run_id destination_id keyed told =
      elim (delete_once-IsStep client node moment later db keyed) [
        | inl (e, q, _) ↦ rw (q, e) told
        | inr (c, after, attempt, q, _, there, rest) ↦
            elim (Bool-cases (str_eq run_id c.run_id && str_eq c.destination_id destination_id)) [
              | inr f ↦
                  rw (q, f, rest run_id destination_id (λ a b. apart c run_id destination_id f a b))
                    told
              | inl t ↦
                  let (a, b) =
                    both (str_eq run_id c.run_id) (str_eq c.destination_id destination_id) t in
                  let same_run = (eq_iff run_id c.run_id).0 a in
                  let same_destination = (eq_iff c.destination_id destination_id).0 b in
                  let here : IsTold n (some c.task) =
                    subst (IsTold n)
                      (ap (λ z. task_at db z destination_id) same_run
                        ∙ ap (λ z. task_at db c.run_id z) (sym same_destination)
                        ∙ task_at-IsDue db node moment c keyed attempt.due)
                      told in
                  rw (q, t, same_run, sym same_destination, there)
                    (attempt-IsTold n c after attempt here)
            ]
      ]
