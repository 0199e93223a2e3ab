-- ===== src/Replica/Tombstones.antt =====
-- repository_v2.py, `enqueue_replica_deletes_v2`: the tombstones that it leaves for the published
-- replicas of a restore point.
use vmbackupd.Prelude.{
  ℕ, zero, suc, ◌<◌, ◌≡◌, ◌≢◌, refl, sym, ap, subst, ◌∙◌, ◌⊎◌, inl, inr, true, false, Option, some,
  none, String, List, [], ◌∷◌, map, arith, Bool-cases, ◌∈◌, AreDistinct, mem-All, mem-map, str_eq,
  eq_iff, if◌then◌else◌, lookup, lookup-assign, find_by-update_by,
}
use vmbackupd.Compact.{Replica, DeleteTask, Point, Run, Catalog}
use vmbackupd.Compact.Points.{run_id_of, find_point, find_run}
use vmbackupd.Replica.Deletes.{
  Tasks, is_queued, published_at, tombstone, enqueue_remote, enqueue_items, set_tasks, write_tasks,
  run_tasks, store_created, enqueue_in_run, enqueue_replica_deletes_v2,
}
use vmbackupd.Replica.Due.{task_at}

-- A tombstone that is there stays, and a new one is made where there is none.
abbrev pub kept_or : Option DeleteTask → DeleteTask → Option DeleteTask
kept_or old task = if is_queued old then old else some task

module _ (p : Point) (stamp : ℕ) where
  pub remote-lookup :
      (x : String) (remote : String × String) (s : Tasks × ℕ) (d : String)
      → lookup (enqueue_remote p stamp x (some remote) s).0 d
        ≡ (if str_eq x d then kept_or (lookup s.0 d) (tombstone p stamp x remote) else lookup s.0 d)
  remote-lookup x remote (tasks, n) d = elim (Bool-cases (str_eq x d)) [
    | inl e ↦
        let same : x ≡ d = (eq_iff x d).0 e in
        elim (Bool-cases (is_queued (lookup tasks d))) [
          | inl q ↦ rw (same, q, (eq_iff d d).1 refl)
          | inr q ↦ rw (
            same,
            q,
            (eq_iff d d).1 refl,
            lookup-assign d d (tombstone p stamp d remote) tasks,
            (eq_iff d d).1 refl,
          )
        ]
    | inr e ↦ elim (Bool-cases (is_queued (lookup tasks x))) [
      | inl q ↦ rw (e, q)
      | inr q ↦ rw (e, q, lookup-assign x d (tombstone p stamp x remote) tasks, e)
    ]
  ]

  kept : (o : Option DeleteTask) (task : DeleteTask) → is_queued o ≡ true → kept_or o task ≡ o
  kept o task q = rw q

  is_queued-kept_or :
      (o : Option DeleteTask) (x : String) (remote : String × String)
      → is_queued (kept_or o (tombstone p stamp x remote)) ≡ true
  is_queued-kept_or o x remote = elim (Bool-cases (is_queued o)) [ inl q ↦ rw q q | inr q ↦ rw q ]

  -- One turn of the loop leaves a tombstone as it is, where there is one.
  remote-kept :
      (x : String) (remote : Option (String × String)) (s : Tasks × ℕ) (d : String)
      → is_queued (lookup s.0 d) ≡ true
      → lookup (enqueue_remote p stamp x remote s).0 d ≡ lookup s.0 d
  remote-kept x none s d q = refl
  remote-kept x (some remote) s d q = remote-lookup x remote s d ∙ elim (Bool-cases (str_eq x d)) [
    | inl e ↦ rw e (kept (lookup s.0 d) (tombstone p stamp x remote) q)
    | inr e ↦ rw e
  ]

  remote-other :
      (x : String) (remote : Option (String × String)) (s : Tasks × ℕ) (d : String)
      → str_eq x d ≡ false
      → lookup (enqueue_remote p stamp x remote s).0 d ≡ lookup s.0 d
  remote-other x none s d n = refl
  remote-other x (some remote) s d n = remote-lookup x remote s d ∙ rw n

  module _ (db : Catalog) where
    items-kept :
        (items : List (String × Replica)) (s : Tasks × ℕ) (d : String)
        → is_queued (lookup s.0 d) ≡ true
        → lookup (enqueue_items db p stamp items s).0 d ≡ lookup s.0 d
    unfolding enqueue_items
    items-kept [] s d q = refl
    items-kept (item ∷ items) s d q =
        let remote = published_at db item.0 item.1 in
        let step = remote-kept item.0 remote s d q in
        items-kept items (enqueue_remote p stamp item.0 remote s) d (ap is_queued step ∙ q) ∙ step

    items-lookup :
        (items : List (String × Replica)) (s : Tasks × ℕ) (item : String × Replica)
        (remote : String × String)
        → AreDistinct (map (λ i. i.0) items)
        → item ∈ items
        → published_at db item.0 item.1 ≡ some remote
        → lookup (enqueue_items db p stamp items s).0 item.0
          ≡ kept_or (lookup s.0 item.0) (tombstone p stamp item.0 remote)
    unfolding enqueue_items
    items-lookup [] s item remote distinct m h = absurd m
    items-lookup (x ∷ xs) s item remote distinct (inl e) h =
        let found : published_at db x.0 x.1 ≡ some remote =
          subst (λ z. published_at db z.0 z.1 ≡ some remote) e h in
        let step : lookup (enqueue_remote p stamp x.0 (some remote) s).0 x.0
            ≡ kept_or (lookup s.0 x.0) (tombstone p stamp x.0 remote) =
          remote-lookup x.0 remote s x.0 ∙ rw ((eq_iff x.0 x.0).1 refl) in
        rw (ap (λ z. z.0) e) (
          subst
            (λ z.
              lookup (enqueue_items db p stamp xs (enqueue_remote p stamp x.0 z s)).0 x.0
              ≡ kept_or (lookup s.0 x.0) (tombstone p stamp x.0 remote))
            (sym found)
            (items-kept xs (enqueue_remote p stamp x.0 (some remote) s) x.0
                (ap is_queued step ∙ is_queued-kept_or (lookup s.0 x.0) x.0 remote)
              ∙ step))
    items-lookup (x ∷ xs) s item remote distinct (inr m) h =
        let other : x.0 ≢ item.0 =
          mem-All (λ k. x.0 ≢ k) item.0 (map (λ i. i.0) xs) distinct.0
            (mem-map (λ i. i.0) item xs m) in
        let n : str_eq x.0 item.0 ≡ false = elim (Bool-cases (str_eq x.0 item.0)) [
          | inl e ↦ absurd (other ((eq_iff x.0 item.0).0 e))
          | inr e ↦ e
        ] in
        let step = remote-other x.0 (published_at db x.0 x.1) s item.0 n in
        items-lookup xs (enqueue_remote p stamp x.0 (published_at db x.0 x.1) s) item remote
          distinct.1 m h
        ∙ ap (λ o. kept_or o (tombstone p stamp item.0 remote)) step

    -- The count tells whether the dictionary has changed.
    abbrev IsCounted : Tasks × ℕ → Tasks × ℕ → Type 0
    IsCounted s t = (t ≡ s) ⊎ (s.1 < t.1)

    remote-IsCounted :
        (x : String) (remote : Option (String × String)) (s : Tasks × ℕ)
        → IsCounted s (enqueue_remote p stamp x remote s)
    remote-IsCounted x none s = inl refl
    remote-IsCounted x (some remote) (tasks, n) = elim (Bool-cases (is_queued (lookup tasks x))) [
      | inl q ↦ rw q (inl refl)
      | inr q ↦ rw q (inr (omega arith))
    ]

    trans-IsCounted : (s t u : Tasks × ℕ) → IsCounted s t → IsCounted t u → IsCounted s u
    trans-IsCounted s t u (inl e) (inl f) = inl (f ∙ e)
    trans-IsCounted s t u (inl e) (inr f) = inr (subst (λ z. z.1 < u.1) e f)
    trans-IsCounted s t u (inr e) (inl f) = inr (subst (λ z. s.1 < z.1) (sym f) e)
    trans-IsCounted s t u (inr e) (inr f) = inr (omega arith)

    items-IsCounted :
        (items : List (String × Replica)) (s : Tasks × ℕ)
        → IsCounted s (enqueue_items db p stamp items s)
    unfolding enqueue_items
    items-IsCounted [] s = inl refl
    items-IsCounted (item ∷ items) s =
        let t = enqueue_remote p stamp item.0 (published_at db item.0 item.1) s in
        trans-IsCounted s t (enqueue_items db p stamp items t)
          (remote-IsCounted item.0 (published_at db item.0 item.1) s) (items-IsCounted items t)

module _ (db : Catalog) (p : Point) (r : Run) (stamp : ℕ)
    (found : find_run db p.job_run_id ≡ some r) where
  run_tasks-write_tasks :
      (tasks : Tasks) → run_tasks (write_tasks p.job_run_id tasks db) p.job_run_id ≡ tasks
  unfolding run_tasks write_tasks find_run
  run_tasks-write_tasks tasks = rw (
    find_by-update_by run_id_of (set_tasks tasks) (λ z. refl) db.runs p.job_run_id p.job_run_id,
    found,
    (eq_iff p.job_run_id p.job_run_id).1 refl,
  )

  stored-tasks :
      (s : Tasks × ℕ)
      → IsCounted p stamp db (r.replica_delete_tasks, 0) s
      → run_tasks (store_created p.job_run_id db s).1 p.job_run_id ≡ s.0
  unfolding run_tasks
  stored-tasks (tasks, zero) (inl e) = rw found (ap (λ z. z.0) (sym e))
  stored-tasks (tasks, zero) (inr e) = absurd (omega arith)
  stored-tasks (tasks, suc n) c = run_tasks-write_tasks tasks

  found-tasks : run_tasks db p.job_run_id ≡ r.replica_delete_tasks
  unfolding run_tasks
  found-tasks = rw found

  enqueued-tasks :
      run_tasks (enqueue_in_run db p stamp (some r)).1 p.job_run_id
      ≡ (enqueue_items db p stamp p.replicas (r.replica_delete_tasks, 0)).0
  enqueued-tasks =
      stored-tasks (enqueue_items db p stamp p.replicas (r.replica_delete_tasks, 0))
        (items-IsCounted p stamp db p.replicas (r.replica_delete_tasks, 0))

-- Before a local restore point goes, each of its replicas that is published at an SSH destination
-- has a tombstone in the context of the point's run, from which the remote object can be deleted
-- without the point: the one that was there, in any state, or a new one, PENDING and due at once,
-- with the remote storage and object, the point and its place in the chain. The destinations of
-- the point's replicas are distinct, and its run exists.
pub enqueue_replica_deletes_v2-IsQueued :
    (db : Catalog) (stamp : ℕ) (id : String) (p : Point) (r : Run) (item : String × Replica)
    (remote : String × String)
    → find_point db id ≡ some p
    → find_run db p.job_run_id ≡ some r
    → AreDistinct (map (λ i. i.0) p.replicas)
    → item ∈ p.replicas
    → published_at db item.0 item.1 ≡ some remote
    → task_at (enqueue_replica_deletes_v2 id stamp db).1 p.job_run_id item.0
      ≡ kept_or (task_at db p.job_run_id item.0) (tombstone p stamp item.0 remote)
unfolding enqueue_replica_deletes_v2
enqueue_replica_deletes_v2-IsQueued db stamp id p r item remote h k distinct m published =
    rw (h, k, enqueued-tasks db p r stamp k, found-tasks db p r stamp k)
      (items-lookup p stamp db p.replicas (r.replica_delete_tasks, 0) item remote distinct m
        published)
