-- ===== src/Replica/Cap.antt =====
-- The bound on the attempts at a remote deletion, over any sequence of calls that record tombstones
-- and of calls of the executor, each of which runs to its end.
use vmbackupd.Prelude.{
  ℕ, zero, suc, ◌≤◌, ◌<◌, ◌==◌, ◌≡◌, refl, sym, ap, subst, ◌∙◌, inl, inr, Bool, true, false, Option,
  some, none, String, List, [], ◌∷◌, map, arith, Bool-cases, Option-cases, AreDistinct, str_eq,
  if◌then◌else◌, lookup, assign, assign-AreDistinct, Result, ok, err,
}
use mathlib.Core.Bool.{false≢true}
use vmbackupd.Compact.{Replica, DeleteTask, Point, Run, Catalog}
use vmbackupd.Compact.Points.{find_point, find_run}
use vmbackupd.Replica.Deletes.{
  claim_next_replica_delete_v2, Tasks, is_queued, is_open, published_at, tombstone, enqueue_remote,
  enqueue_items, tasks_of, run_tasks, maximum, store_created, enqueue_replica_deletes_v2, Candidate,
  DeleteClient, delete_remote, delete_once,
}
use vmbackupd.Replica.Due.{task_at, IsKeyed}
use vmbackupd.Replica.Attempts.{
  IsOutcome, done, again, given_up, IsAttempt, IsChange, delete_once-IsChange,
}
use vmbackupd.Replica.Tombstones.{kept_or, remote-lookup}
use vmbackupd.Replica.Tries.{tries, IsTold, enqueue-IsTold, delete_once-IsTold}
use vmbackupd.Replica.Keys.{
  task_at-write_tasks, write_tasks-IsKeyed, run_tasks-AreDistinct, delete_once-IsKeyed,
}

-- No more attempts than the maximum, and one left while the tombstone is open.
abbrev pub IsCapped : DeleteTask → Type 0
IsCapped t = (t.attempts ≤ maximum t) × (is_open t.state ≡ true → t.attempts < maximum t)

abbrev pub AreCapped : Catalog → Type 0
AreCapped db =
    (run_id destination_id : String) (t : DeleteTask)
    → task_at db run_id destination_id ≡ some t
    → IsCapped t

maximum-same : (a b : DeleteTask) → a.max_attempts ≡ b.max_attempts → maximum a ≡ maximum b
maximum-same a b e = ap (λ n. if n == 0 then 3 else n) e

not_open :
    (s : String) → (is_open s ≡ false) → (t : String) → t ≡ s → (n m : ℕ) → is_open t ≡ true → n < m
not_open s f t e n m h = absurd (false≢true (sym f ∙ ap is_open (sym e) ∙ h))

module _ (client : DeleteClient) (node : String) (moment later : ℕ) (db : Catalog) where
  outcome-IsCapped :
      (after : DeleteTask) (r : Result (Unit {0}))
      → after.attempts ≤ maximum after
      → IsOutcome later after r
      → IsCapped after
  outcome-IsCapped after (ok tt) le (done s) =
      (le, not_open "COMPLETED" refl after.state s after.attempts (maximum after))
  outcome-IsCapped after (err e) le (again s l n) = (le, λ h. l)
  outcome-IsCapped after (err e) le (given_up s l) =
      (le, not_open "FAILED" refl after.state s after.attempts (maximum after))

  attempt-IsCapped :
      (c : Candidate) (after : DeleteTask)
      → IsCapped c.task
      → IsAttempt client node moment later db c after
      → IsCapped after
  attempt-IsCapped c after capped a =
      let left = capped.1 (a.due).waits in
      let same = maximum-same after c.task a.cap in
      outcome-IsCapped after (delete_remote client node db c) (omega (arith, left, same, a.counted))
        a.outcome

  step-IsCapped :
      (run_id destination_id : String) (o o' : Option DeleteTask)
      → ((t : DeleteTask) → o ≡ some t → IsCapped t)
      → IsChange client node moment later db run_id destination_id o o'
      → (t : DeleteTask) → o' ≡ some t
      → IsCapped t
  step-IsCapped run_id destination_id none none f s t e = cc
  step-IsCapped run_id destination_id (some b) none f s t e = cc
  step-IsCapped run_id destination_id none (some a) f s t e = absurd s
  step-IsCapped run_id destination_id (some b) (some a) f (inl q) t e = f t (ap some (sym q) ∙ e)
  step-IsCapped run_id destination_id (some b) (some a) f (inr q) t e =
      let same : a ≡ t = cc in
      subst IsCapped same (
        attempt-IsCapped (record { run_id = run_id; destination_id = destination_id; task = b }) a
          (f b refl) q)

  delete_once-AreCapped :
      IsKeyed db → AreCapped db → AreCapped (delete_once client node moment later db).1
  delete_once-AreCapped k a run_id destination_id =
      step-IsCapped run_id destination_id (task_at db run_id destination_id)
        (task_at (delete_once client node moment later db).1 run_id destination_id)
        (a run_id destination_id)
        (delete_once-IsChange client node moment later db run_id destination_id k)

module _ (p : Point) (stamp : ℕ) where
  -- The dictionary stays one, and all its tombstones keep to their cap.
  abbrev IsSound : Tasks → Type 0
  IsSound tasks =
      AreDistinct (map (λ i. i.0) tasks)
      × ((e : String) (t : DeleteTask) → lookup tasks e ≡ some t → IsCapped t)

  tombstone-IsCapped :
      (x : String) (remote : String × String) → IsCapped (tombstone p stamp x remote)
  tombstone-IsCapped x remote = (omega arith, λ h. omega arith)

  kept_or-IsCapped :
      (o : Option DeleteTask) (new t : DeleteTask)
      → ((t : DeleteTask) → o ≡ some t → IsCapped t)
      → IsCapped new
      → kept_or o new ≡ some t
      → IsCapped t
  kept_or-IsCapped o new t f c h = elim (Bool-cases (is_queued o)) [
    | inl q ↦ f t (rw q at h)
    | inr q ↦
        let h' : some new ≡ some t = rw q at h in let same : new ≡ t = cc in subst IsCapped same c
  ]

  remote-IsSound :
      (x : String) (remote : Option (String × String)) (s : Tasks × ℕ)
      → IsSound s.0
      → IsSound (enqueue_remote p stamp x remote s).0
  remote-IsSound x none s h = h
  remote-IsSound x (some remote) (tasks, n) h = (
    distinct (is_queued (lookup tasks x)),
    λ e t k. capped e t (sym (remote-lookup p stamp x remote (tasks, n) e) ∙ k),
  )
    where
      distinct :
          (b : Bool)
          → AreDistinct (
              map
                (λ i. i.0)
                (if◌then◌else◌ {A = Tasks × ℕ} b
                  (tasks, n)
                  (assign x (tombstone p stamp x remote) tasks, suc n)).0)
      distinct true = h.0
      distinct false = assign-AreDistinct x (tombstone p stamp x remote) tasks h.0

      capped :
          (e : String) (t : DeleteTask)
          → (if str_eq x e
              then kept_or (lookup tasks e) (tombstone p stamp x remote)
              else lookup tasks e)
            ≡ some t
          → IsCapped t
      capped e t k = elim (Bool-cases (str_eq x e)) [
        | inr f ↦ h.1 e t (rw f at k)
        | inl f ↦
            kept_or-IsCapped (lookup tasks e) (tombstone p stamp x remote) t (h.1 e)
              (tombstone-IsCapped x remote) (rw f at k)
      ]

  items-IsSound :
      (db : Catalog) (items : List (String × Replica)) (s : Tasks × ℕ)
      → IsSound s.0
      → IsSound (enqueue_items db p stamp items s).0
  unfolding enqueue_items
  items-IsSound db [] s h = h
  items-IsSound db (item ∷ items) s h =
      items-IsSound db items (enqueue_remote p stamp item.0 (published_at db item.0 item.1) s)
        (remote-IsSound item.0 (published_at db item.0 item.1) s h)

-- Both parts of the invariant.
abbrev pub IsSafe : Catalog → Type 0
IsSafe db = IsKeyed db × AreCapped db

enqueue-IsSafe :
    (id : String) (stamp : ℕ) (db : Catalog)
    → IsSafe db
    → IsSafe (enqueue_replica_deletes_v2 id stamp db).1
unfolding enqueue_replica_deletes_v2
enqueue-IsSafe id stamp db safe = elim (Option-cases (find_point db id)) [
  | inl e ↦ rw e safe
  | inr (p, e) ↦ elim (Option-cases (find_run db p.job_run_id)) [
    | inl n ↦ rw (e, n) safe
    | inr (r, q) ↦
        rw (e, q)
          (stored p (enqueue_items db p stamp p.replicas (r.replica_delete_tasks, 0))
            (items-IsSound p stamp db p.replicas (r.replica_delete_tasks, 0) (old p r q)))
  ]
]
  where
    stored :
        (p : Point) (s : Tasks × ℕ)
        → IsSound p stamp s.0
        → IsSafe (store_created p.job_run_id db s).1
    stored p (tasks, zero) sound = safe
    stored p (tasks, suc n) sound = (
      write_tasks-IsKeyed p.job_run_id tasks db sound.0 safe.0,
      λ j e t h. elim (task_at-write_tasks p.job_run_id tasks db j e t h) [
        | inl w ↦ sound.1 e t w
        | inr w ↦ safe.1 j e t w
      ],
    )

    same_tasks : (r : Run) (o : Option Run) → o ≡ some r → tasks_of o ≡ r.replica_delete_tasks
    same_tasks r o q = ap tasks_of q

    old :
        (p : Point) (r : Run)
        → find_run db p.job_run_id ≡ some r
        → IsSound p stamp r.replica_delete_tasks
    old p r q =
        let same : run_tasks db p.job_run_id ≡ r.replica_delete_tasks =
          unfold run_tasks in (same_tasks r (find_run db p.job_run_id) q) in
        (
          subst (λ l. AreDistinct (map (λ i. i.0) l)) same
              (run_tasks-AreDistinct db p.job_run_id safe.0),
          λ e t h. safe.1 p.job_run_id e t (ap (λ l. lookup l e) same ∙ h),
        )

-- What happens to the tombstones of a node, one call after the other, and how often the executor
-- tries that of a run for a destination.
pub data Reaches (client : DeleteClient) (node run_id destination_id : String)
    : Catalog → Catalog → ℕ → Type 0 where
  start : {db : Catalog} → Reaches client node run_id destination_id db db 0
  recorded :
      {db db' : Catalog} {n : ℕ} (id : String) (stamp : ℕ)
      → Reaches client node run_id destination_id db db' n
      → Reaches client node run_id destination_id db (enqueue_replica_deletes_v2 id stamp db').1 n
  attempted :
      {db db' : Catalog} {n : ℕ} (moment later : ℕ)
      → Reaches client node run_id destination_id db db' n
      → Reaches client node run_id destination_id db
          (delete_once client node moment later db').1
          (tries run_id destination_id n (claim_next_replica_delete_v2 node moment db').0)

module _ (client : DeleteClient) (node run_id destination_id : String) where
  Reaches-IsSafe :
      {db db' : Catalog} {n : ℕ}
      → Reaches client node run_id destination_id db db' n
      → IsSafe db
      → IsSafe db'
  Reaches-IsSafe start safe = safe
  Reaches-IsSafe (recorded id stamp r) safe = enqueue-IsSafe id stamp _ (Reaches-IsSafe r safe)
  Reaches-IsSafe (attempted moment later r) safe =
      let (k, a) = Reaches-IsSafe r safe in
      (
        delete_once-IsKeyed client node moment later _ k,
        delete_once-AreCapped client node moment later _ k a,
      )

  Reaches-IsTold :
      {db db' : Catalog} {n : ℕ}
      → Reaches client node run_id destination_id db db' n
      → IsSafe db
      → task_at db run_id destination_id ≡ none
      → IsTold n (task_at db' run_id destination_id)
  Reaches-IsTold start safe h = subst (IsTold 0) (sym h) refl
  Reaches-IsTold (recorded id stamp r) safe h =
      enqueue-IsTold _ run_id destination_id id stamp _ (Reaches-IsTold r safe h)
  Reaches-IsTold (attempted moment later r) safe h =
      delete_once-IsTold client node moment later _ _ run_id destination_id
        (Reaches-IsSafe r safe).0 (Reaches-IsTold r safe h)

  told-cap :
      (n : ℕ) (o : Option DeleteTask)
      → ((t : DeleteTask) → o ≡ some t → IsCapped t)
      → IsTold n o
      → n ≤ 3
  told-cap n none capped told = omega (arith, told)
  told-cap n (some t) capped told =
      let most : maximum t ≡ 3 = rw told.1 in omega (arith, told.0, most, (capped t refl).0)

  -- However often tombstones are recorded and the executor runs, in any order, at any times and with
  -- any client, it tries the deletion of a replica at most three times, where the replica had no
  -- tombstone at the start; no counter of attempts exceeds its maximum, and a tombstone that is still
  -- open has an attempt left. At the start that holds of the counters, and rows and destinations are
  -- distinct. Each call of the executor is taken to run to its end.
  pub Reaches-AreCapped :
      (db db' : Catalog) (n : ℕ)
      → Reaches client node run_id destination_id db db' n
      → IsKeyed db
      → AreCapped db
      → task_at db run_id destination_id ≡ none
      → AreCapped db' × (n ≤ 3)
  Reaches-AreCapped db db' n r k a h =
      let safe = Reaches-IsSafe r (k, a) in
      (
        safe.1,
        told-cap n (task_at db' run_id destination_id) (safe.1 run_id destination_id)
            (Reaches-IsTold r (k, a) h),
      )
