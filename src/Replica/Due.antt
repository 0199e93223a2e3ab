-- ===== src/Replica/Due.antt =====
-- repository_v2.py, `claim_next_replica_delete_v2`: the tombstones that may be taken, and the one that
-- is.
use vmbackupd.Prelude.{
  ℕ, ◌≤◌, ◌<◌, ◌≡◌, refl, sym, ap, subst, ◌⊎◌, inl, inr, true, false, ◌&&◌, leb, leb→le, Option,
  some, none, String, List, [], ◌∷◌, map, arith, Bool-cases, ◌∈◌, AreDistinct, mem-append_cases,
  mem-append_left, mem-append_right, both, lookup,
}
use vmbackupd.Prelude.Sort.{sort, mem-of_sort, mem-sort, first-sort}
use vmbackupd.Compact.{DeleteTask, Run, Catalog}
use vmbackupd.Compact.Points.{run_id_of, node_of_run, is_node}
use vmbackupd.Replica.Deletes.{
  Tasks, Candidate, candidate_le, is_open, due_tasks, due_runs, running, run_tasks, put_task,
  claim_next_replica_delete_v2,
}

-- The tombstone of a run for a destination.
abbrev pub task_at : Catalog → String → String → Option DeleteTask
task_at db run_id destination_id = lookup (run_tasks db run_id) destination_id

-- Each run has its own id, and each of its tombstones its own destination.
pub record IsKeyed (db : Catalog) : Type 0 where
  pub runs : AreDistinct (map run_id_of db.runs)
  pub tasks : (r : Run) → r ∈ db.runs → AreDistinct (map (λ item. item.0) r.replica_delete_tasks)

-- A tombstone that could be taken: of a run of the node, open, and due.
pub record IsDue (db : Catalog) (node : String) (moment : ℕ) (c : Candidate) : Type 0 where
  pub run : Run
  pub listed : run ∈ db.runs
  pub id : c.run_id ≡ run.id
  pub of_node : is_node node (node_of_run db (some run)) ≡ true
  pub listed_task : (c.destination_id, c.task) ∈ run.replica_delete_tasks
  pub waits : is_open (c.task).state ≡ true
  pub due : (c.task).next_attempt_at ≤ moment

module _ (db : Catalog) (node : String) (moment : ℕ) where
  mem-of_due_tasks :
      (run_id : String) (items : Tasks) (c : Candidate)
      → c ∈ due_tasks moment run_id items
      → (c.run_id ≡ run_id)
        × ((c.destination_id, c.task) ∈ items)
        × ((is_open (c.task).state && leb (c.task).next_attempt_at moment) ≡ true)
  unfolding due_tasks
  mem-of_due_tasks run_id [] c m = absurd m
  mem-of_due_tasks run_id (item ∷ items) c m =
      elim (Bool-cases (is_open (item.1).state && leb (item.1).next_attempt_at moment)) [
        | inr n ↦ let (i, k, t) = mem-of_due_tasks run_id items c (rw n at m) in (i, inr k, t)
        | inl e ↦
            let one : Candidate = record {
              run_id = run_id;
              destination_id = item.0;
              task = item.1;
            } in
            let m' : c ∈ (one ∷ due_tasks moment run_id items) = rw e at m in
            elim m' [
              | inl q ↦ rw q (refl, inl refl, e)
              | inr w ↦ let (i, k, t) = mem-of_due_tasks run_id items c w in (i, inr k, t)
            ]
      ]

  mem-due_tasks :
      (run_id : String) (items : Tasks) (d : String) (t : DeleteTask)
      → (d, t) ∈ items
      → (is_open t.state && leb t.next_attempt_at moment) ≡ true
      → record { run_id = run_id; destination_id = d; task = t } ∈ due_tasks moment run_id items
  unfolding due_tasks
  mem-due_tasks run_id [] d t m h = absurd m
  mem-due_tasks run_id (item ∷ items) d t (inl e) h =
      rw (subst (λ z. (is_open (z.1).state && leb (z.1).next_attempt_at moment) ≡ true) e h)
        (inl (ap (λ z. record { run_id = run_id; destination_id = z.0; task = z.1 }) e))
  mem-due_tasks run_id (item ∷ items) d t (inr m) h =
      elim (Bool-cases (is_open (item.1).state && leb (item.1).next_attempt_at moment)) [
        | inl e ↦ rw e (inr (mem-due_tasks run_id items d t m h))
        | inr n ↦ rw n (mem-due_tasks run_id items d t m h)
      ]

  mem-of_due_runs :
      (rs : List Run) (c : Candidate)
      → c ∈ due_runs db node moment rs
      → (r : Run) × (r ∈ rs)
        × (is_node node (node_of_run db (some r)) ≡ true)
        × (c ∈ due_tasks moment r.id r.replica_delete_tasks)
  unfolding due_runs
  mem-of_due_runs [] c m = absurd m
  mem-of_due_runs (r ∷ rs) c m = elim (Bool-cases (is_node node (node_of_run db (some r)))) [
    | inr n ↦ let (s, k, o, t) = mem-of_due_runs rs c (rw n at m) in (s, inr k, o, t)
    | inl e ↦
        elim (mem-append_cases c (due_tasks moment r.id r.replica_delete_tasks)
          (due_runs db node moment rs) (rw e at m)) [
            | inl w ↦ (r, inl refl, e, w)
            | inr w ↦ let (s, k, o, t) = mem-of_due_runs rs c w in (s, inr k, o, t)
          ]
  ]

  mem-due_runs :
      (rs : List Run) (r : Run) (c : Candidate)
      → r ∈ rs
      → is_node node (node_of_run db (some r)) ≡ true
      → c ∈ due_tasks moment r.id r.replica_delete_tasks
      → c ∈ due_runs db node moment rs
  unfolding due_runs
  mem-due_runs [] r c k n m = absurd k
  mem-due_runs (s ∷ rs) r c (inl e) n m =
      rw (subst (λ z. is_node node (node_of_run db (some z)) ≡ true) e n) (
        mem-append_left c (due_tasks moment s.id s.replica_delete_tasks)
          (due_runs db node moment rs)
          (subst (λ z. c ∈ due_tasks moment z.id z.replica_delete_tasks) e m))
  mem-due_runs (s ∷ rs) r c (inr k) n m =
      elim (Bool-cases (is_node node (node_of_run db (some s)))) [
        | inl e ↦ rw e (
            mem-append_right c (due_tasks moment s.id s.replica_delete_tasks)
              (due_runs db node moment rs) (mem-due_runs rs r c k n m))
        | inr e ↦ rw e (mem-due_runs rs r c k n m)
      ]

  pub IsDue-of_mem : (c : Candidate) → c ∈ due_runs db node moment db.runs → IsDue db node moment c
  IsDue-of_mem c m =
      let (r, k, n, w) = mem-of_due_runs db.runs c m in
      let (i, t, h) = mem-of_due_tasks r.id r.replica_delete_tasks c w in
      let (a, b) = both (is_open (c.task).state) (leb (c.task).next_attempt_at moment) h in
      record {
        run = r;
        listed = k;
        id = i;
        of_node = n;
        listed_task = t;
        waits = a;
        due = leb→le (c.task).next_attempt_at moment b;
      }

  pub mem-of_IsDue : (c : Candidate) → IsDue db node moment c → c ∈ due_runs db node moment db.runs
  mem-of_IsDue c h = mem-due_runs db.runs h.run c h.listed h.of_node (
      rw (sym h.id) (
        mem-due_tasks c.run_id (h.run).replica_delete_tasks c.destination_id c.task h.listed_task
          (ground (arith, h.waits, h.due))))

  -- The greater sequence first, and of one sequence the tombstone that was created first.
  abbrev Before : Candidate → Candidate → Type 0
  Before a b =
      ((b.task).sequence < (a.task).sequence)
      ⊎ (((b.task).sequence ≡ (a.task).sequence) × ((a.task).created_at ≤ (b.task).created_at))

  -- No other due tombstone has a greater sequence, and none of the same sequence was created earlier.
  abbrev pub IsFirst : Candidate → Type 0
  IsFirst c = (other : Candidate) → IsDue db node moment other → Before c other

  -- The claim finds nothing that is due, or it marks the first.
  abbrev pub IsClaim : Option Candidate × Catalog → Type 0
  IsClaim r =
      ((r ≡ (none, db)) × ((c : Candidate) → ¬ IsDue db node moment c))
      ⊎ ((c : Candidate) × IsDue db node moment c
          × IsFirst c
          × (r ≡ (
            some (record c { task = running moment c.task }),
            put_task c.run_id c.destination_id (running moment c.task) db,
          )))

  list_cases :
      (cs : List Candidate)
      → (cs ≡ []) ⊎ ((c : Candidate) × (rest : List Candidate) × (cs ≡ c ∷ rest))
  list_cases [] = inl refl
  list_cases (c ∷ cs) = inr (c, cs, refl)

  follows_sequence : (a b : Candidate) → candidate_le a b ≡ true → Before a b
  unfolding candidate_le
  follows_sequence a b h = ground arith

  reversed_sequence : (a b : Candidate) → candidate_le a b ≡ false → Before b a
  unfolding candidate_le
  reversed_sequence a b h = ground arith

  pub claim_next_replica_delete_v2-IsClaim : IsClaim (claim_next_replica_delete_v2 node moment db)
  unfolding claim_next_replica_delete_v2
  claim_next_replica_delete_v2-IsClaim =
      let due = due_runs db node moment db.runs in
      elim (list_cases (sort candidate_le due)) [
        | inl e ↦
            inl (rw e, λ c h. subst (λ l. c ∈ l) e (mem-sort candidate_le c due (mem-of_IsDue c h)))
        | inr (c, rest, e) ↦
            let m : c ∈ sort candidate_le due = subst (λ l. c ∈ l) (sym e) (inl refl) in
            inr (
              c,
              IsDue-of_mem c (mem-of_sort candidate_le c due m),
              λ other h.
                  first-sort candidate_le Before follows_sequence reversed_sequence
                    (λ x y z p q. ground (arith, p, q)) due c rest other e (inr (refl, omega arith))
                    (mem-of_IsDue other h),
              rw e,
            )
      ]
