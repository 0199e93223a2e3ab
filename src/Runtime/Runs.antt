-- ===== src/Runtime/Runs.antt =====
-- vmbackupd/runtime_v2.py, `advance_run` and `recover_runs`: what becomes of a run, and how the
-- states that the runtime writes relate to those of state_machine_v2.py.
use vmbackupd.Prelude.{
  Bool, none, ◌↔◌, Result, get_or, Option, Option-cases, is_some, ◌≡◌, refl, sym, ap, subst, ◌∙◌,
  ◌⊎◌, inl, inr, true, false, ◌||◌, some, String, List, [], ◌∷◌, ◌++◌, Bool-cases, ◌∈◌, All,
  mem-All, any, str_eq, eq_iff, if◌then◌else◌, ok, err, Error, described,
}
use mathlib.Core.Bool.{false≢true}
use vmbackupd.Host.{Host}
use vmbackupd.Repository.{JobRun, RunEvent, state_changed, failure, Db}
use vmbackupd.Repository.Runs.{
  find_run, update_run, get_state, set_state, record_transition, record_failure, append_event,
  transition_run, mark_recovery_required, set_error,
}
use vmbackupd.Purge.{System}
use vmbackupd.Recovery.{decide}
use vmbackupd.States.V2.{can_transition, targets}
use vmbackupd.Runtime.{
  ExecutionResult, handle_execution_result, state_of_action, text_or, Executor, advance_from,
  advance_run, after_advance, fail_run, recover_run, is_uncertain,
}

find-update :
    (f : JobRun → JobRun) (i : String) (rs : List JobRun) (r : JobRun)
    → ((x : JobRun) → (f x).id ≡ x.id)
    → find_run rs i ≡ some r
    → find_run (update_run f i rs) i ≡ some (f r)
unfolding find_run update_run
find-update f i [] r k h = cc
find-update f i (x ∷ rs) r k h = elim (Bool-cases (str_eq x.id i)) [
  | inl e ↦
      let h' : some x ≡ some r = rw e at h in
      let same : x ≡ r = cc in
      let e' : str_eq (f x).id i ≡ true = ap (λ z. str_eq z i) (k x) ∙ e in
      rw (e, e') (ap (λ z. some (f z)) same)
  | inr n ↦ let n' : str_eq x.id i ≡ false = n in rw (n', n') (find-update f i rs r k (rw n at h))
]

-- The states that the runtime writes when a phase of a run fails.
abbrev pub failure_states : List String
failure_states = "RETRY_WAIT" ∷ "WAITING_REMOTE" ∷ "RECOVERY_REQUIRED" ∷ "BLOCKED" ∷ []

state_of_action-fails : (action : String) → state_of_action action ∈ failure_states
state_of_action-fails action = elim (Bool-cases (str_eq action "RETRY")) [
  | inl a ↦ rw a (inl refl)
  | inr a ↦ rw a (elim (Bool-cases (str_eq action "WAIT_REMOTE")) [
    | inl b ↦ rw b (inr (inl refl))
    | inr b ↦ rw b (elim (Bool-cases (str_eq action "RECOVERY_REQUIRED")) [
      | inl c ↦ rw c (inr (inr (inl refl)))
      | inr c ↦ rw c (inr (inr (inr (inl refl))))
    ])
  ])
]

-- The database after a phase: the run has the state that is returned, and one event of the run is
-- added, which says what the new state is, or which failure led to it and what was decided.
abbrev pub IsRecorded : String → String → ExecutionResult → Db → String × Db → Type 0
IsRecorded run_id old r db out =
    (get_state run_id out.1 ≡ some out.0)
    × ((event : RunEvent) × (out.1.events ≡ db.events ++ event ∷ [])
        × (event.job_run_id ≡ run_id)
        × (if str_eq r.status "SUCCESS"
            then event.content ≡ state_changed old out.0
            else (event.event_type ≡ "FAILURE")
              × (event.content
                  ≡ failure (text_or r.failure_class "UNKNOWN") (text_or r.component "unknown")
                      (text_or r.message "execution failed") r.retryable
                      (decide (text_or r.failure_class "UNKNOWN") r.retryable).action
                      (decide (text_or r.failure_class "UNKNOWN") r.retryable).reason)
              × (out.0
                  ≡ state_of_action (decide (text_or r.failure_class "UNKNOWN") r.retryable).action)
              × (out.0 ∈ failure_states)))

pub handle_execution_result-IsRecorded :
    (run_id old : String) (r : ExecutionResult) (success_state : String) (db : Db) (run : JobRun)
    → find_run db.runs run_id ≡ some run
    → IsRecorded run_id old r db (handle_execution_result run_id old r success_state db)
unfolding handle_execution_result get_state set_state record_transition record_failure append_event
handle_execution_result-IsRecorded run_id old r success_state db run h =
    elim (Bool-cases (str_eq r.status "SUCCESS")) [
      | inl e ↦
          rw
            (
              e,
              find-update (λ x. record x { state = success_state }) run_id db.runs run (λ x. refl)
                  h,
            )
            (refl, (_, refl, refl, refl))
      | inr n ↦
          let new =
            state_of_action (decide (text_or r.failure_class "UNKNOWN") r.retryable).action in
          rw (n, find-update (λ x. record x { state = new }) run_id db.runs run (λ x. refl) h)
            (
              refl,
              (
                _,
                refl,
                refl,
                (
                  refl,
                  refl,
                  refl,
                  state_of_action-fails
                      (decide (text_or r.failure_class "UNKNOWN") r.retryable).action,
                ),
              ),
            )
    ]

handle_execution_result-cases :
    (run_id old : String) (r : ExecutionResult) (success_state : String) (db : Db)
    → ((handle_execution_result run_id old r success_state db).0 ≡ success_state)
      ⊎ ((handle_execution_result run_id old r success_state db).0 ∈ failure_states)
unfolding handle_execution_result
handle_execution_result-cases run_id old r success_state db =
    elim (Bool-cases (str_eq r.status "SUCCESS")) [
      | inl e ↦ rw e (inl refl)
      | inr n ↦ rw n (
          inr
            (state_of_action-fails (decide (text_or r.failure_class "UNKNOWN") r.retryable).action))
    ]

-- How the state that is written stands to the rules of `RunStateMachineV2`.
abbrev pub Follows : String → String → Type 0
Follows old new =
    (new ≡ old)
    ⊎ ((can_transition old new ≡ true)
        ⊎ ((new ∈ failure_states) × (can_transition old new ≡ false)))

phase-Follows :
    (old success_state new : String)
    → can_transition old success_state ≡ true
    → All (λ z. can_transition old z ≡ false) failure_states
    → (new ≡ success_state) ⊎ (new ∈ failure_states)
    → Follows old new
phase-Follows old success_state new a f (inl e) =
    inr (inl (subst (λ z. can_transition old z ≡ true) (sym e) a))
phase-Follows old success_state new a f (inr m) =
    inr (inr (m, mem-All (λ z. can_transition old z ≡ false) new failure_states f m))

module _ (h : Host) (executor : Executor h) (run_id : String) where
  advance_from-Follows :
      (old : String) (s : System h) (new : String)
      → (advance_from h executor run_id (some old) s).0 ≡ some new
      → Follows old new
  unfolding can_transition targets any
  advance_from-Follows old s new e = elim (Bool-cases (str_eq old "PREPARING")) [
    | inl a ↦
        let out =
          handle_execution_result run_id old (executor.prepare run_id s).0 "BACKING_UP"
            (executor.prepare run_id s).1.db in
        let e' : some out.0 ≡ some new = rw a at e in
        let same : out.0 ≡ new = cc in
        subst (λ z. Follows z new) (sym ((eq_iff old "PREPARING").0 a))
          (phase-Follows "PREPARING" "BACKING_UP" new refl (refl, (refl, (refl, (refl, tt))))
            (subst (λ z. (z ≡ "BACKING_UP") ⊎ (z ∈ failure_states)) same
              (handle_execution_result-cases run_id old (executor.prepare run_id s).0 "BACKING_UP"
                (executor.prepare run_id s).1.db)))
    | inr a ↦ elim (Bool-cases (str_eq old "BACKING_UP")) [
      | inl b ↦
          let out =
            handle_execution_result run_id old (executor.execute run_id s).0 "VERIFYING"
              (executor.execute run_id s).1.db in
          let e' : some out.0 ≡ some new = rw (a, b) at e in
          let same : out.0 ≡ new = cc in
          subst (λ z. Follows z new) (sym ((eq_iff old "BACKING_UP").0 b))
            (phase-Follows "BACKING_UP" "VERIFYING" new refl (refl, (refl, (refl, (refl, tt))))
              (subst (λ z. (z ≡ "VERIFYING") ⊎ (z ∈ failure_states)) same
                (handle_execution_result-cases run_id old (executor.execute run_id s).0 "VERIFYING"
                  (executor.execute run_id s).1.db)))
      | inr b ↦ let e' : some old ≡ some new = rw (a, b) at e in inl cc
    ]
  ]

  -- A phase of the executor keeps the row of the run.
  abbrev pub KeepsRow : (String → System h → ExecutionResult × System h) → System h → Type 0
  KeepsRow phase s = is_some (find_run (phase run_id s).1.db.runs run_id) ≡ true

  recorded-state :
      (old : String) (r : ExecutionResult) (success_state : String) (db : Db)
      → is_some (find_run db.runs run_id) ≡ true
      → get_state run_id (handle_execution_result run_id old r success_state db).1
        ≡ some (handle_execution_result run_id old r success_state db).0
  recorded-state old r success_state db h = elim (Option-cases (find_run db.runs run_id)) [
    | inl e ↦ absurd (false≢true (rw e at h))
    | inr (run, e) ↦ (handle_execution_result-IsRecorded run_id old r success_state db run e).0
  ]

  advance_from-stored :
      (old : String) (s : System h) (new : String)
      → KeepsRow executor.prepare s
      → KeepsRow executor.execute s
      → get_state run_id s.db ≡ some old
      → (advance_from h executor run_id (some old) s).0 ≡ some new
      → get_state run_id (advance_from h executor run_id (some old) s).1.db ≡ some new
  advance_from-stored old s new keeps_prepare keeps_execute k e =
      elim (Bool-cases (str_eq old "PREPARING")) [
        | inl a ↦ rw a (
            recorded-state old (executor.prepare run_id s).0 "BACKING_UP"
              (executor.prepare run_id s).1.db keeps_prepare
            ∙ rw a at e)
        | inr a ↦ elim (Bool-cases (str_eq old "BACKING_UP")) [
          | inl b ↦
              rw (a, b)
                (recorded-state old (executor.execute run_id s).0 "VERIFYING"
                    (executor.execute run_id s).1.db keeps_execute
                  ∙ rw (a, b) at e)
          | inr b ↦ rw (a, b) (k ∙ rw (a, b) at e)
        ]
      ]

  -- If the executor of the phases keeps the row of the run, then the state that `advance_run`
  -- returns for a run in some state is the one that is stored for it afterwards, and it is the
  -- state before, or one that `RunStateMachineV2` allows after it, or one of the four states of a
  -- failed phase, which `RunStateMachineV2` does not allow after it.
  pub advance_run-Follows :
      (old : String) (s : System h) (new : String)
      → KeepsRow executor.prepare s
      → KeepsRow executor.execute s
      → get_state run_id s.db ≡ some old
      → (advance_run h executor run_id s).0 ≡ some new
      → (get_state run_id (advance_run h executor run_id s).1.db ≡ some new) × Follows old new
  unfolding advance_run
  advance_run-Follows old s new keeps_prepare keeps_execute k e = (
    rw k (advance_from-stored old s new keeps_prepare keeps_execute k (rw k at e)),
    advance_from-Follows old s new (rw k at e),
  )

  -- The backup of the run had been requested or was running.
  abbrev pub IsStarted : JobRun → Type 0
  IsStarted run =
      (run.execution_phase ≡ some "START_REQUESTED") ⊎ (run.execution_phase ≡ some "RUNNING")

  IsStarted-iff : (run : JobRun) → (is_uncertain (some run) ≡ true) ↔ IsStarted run
  IsStarted-iff run = (λ h. of_phase run.execution_phase h, to_phase run.execution_phase)
    where
      test : Option String → Bool
      test o = str_eq (get_or o "") "START_REQUESTED" || str_eq (get_or o "") "RUNNING"

      of_phase :
          (o : Option String) → test o ≡ true → (o ≡ some "START_REQUESTED") ⊎ (o ≡ some "RUNNING")
      of_phase none h = cc
      of_phase (some x) h = elim (Bool-cases (str_eq x "START_REQUESTED")) [
        | inl t ↦ inl (ap some ((eq_iff x "START_REQUESTED").0 t))
        | inr f ↦ inr (ap some ((eq_iff x "RUNNING").0 (rw f at h)))
      ]

      to_phase :
          (o : Option String) → (o ≡ some "START_REQUESTED") ⊎ (o ≡ some "RUNNING") → test o ≡ true
      to_phase o (inl e) = ap test e
      to_phase o (inr e) = ap test e

  -- The run after `recover_runs` caught an exception of the executor.
  abbrev pub IsFailed : Error → JobRun → JobRun → Type 0
  IsFailed e run run' =
      (run'.state ≡ "FAILED")
      × (run'.error ≡ some (described e))
      × ((IsStarted run
            × (run'.recovery_required ≡ true)
            × (run'.recovery_reason ≡ some (described e)))
          ⊎ ((¬ IsStarted run)
              × (run'.recovery_required ≡ run.recovery_required)
              × (run'.recovery_reason ≡ run.recovery_reason)))

  abbrev fail_row : Error → JobRun → JobRun
  fail_row e r = record (set_error (some (described e)) r) { state = "FAILED" }

  abbrev mark_row : Error → JobRun → JobRun
  mark_row e r = record r { recovery_required = true; recovery_reason = some (described e) }

  -- The database after the run has been recovered, by what its executor came to.
  abbrev pub IsRecovered : Result (Unit {0}) → JobRun → Db → Db → Type 0
  IsRecovered (ok u) run db db' = db' ≡ db
  IsRecovered (err e) run db db' =
      ((run' : JobRun) × (find_run db'.runs run_id ≡ some run') × IsFailed e run run')
      × ((j : String) → str_eq j run_id ≡ false → find_run db'.runs j ≡ find_run db.runs j)
      × (db'.points ≡ db.points)
      × (db'.artifacts ≡ db.artifacts)
      × (db'.tasks ≡ db.tasks)

  find_other :
      (f : JobRun → JobRun) (j : String) (rs : List JobRun)
      → ((x : JobRun) → (f x).id ≡ x.id)
      → str_eq j run_id ≡ false
      → find_run (update_run f run_id rs) j ≡ find_run rs j
  unfolding find_run update_run
  find_other f j [] k n = refl
  find_other f j (x ∷ rs) k n = elim (Bool-cases (str_eq x.id run_id)) [
    | inr e ↦
        rw e (elim (Bool-cases (str_eq x.id j)) [
          | inl g ↦ rw g
          | inr g ↦ rw g (find_other f j rs k n)
        ])
    | inl e ↦
        let g : str_eq x.id j ≡ false = elim (Bool-cases (str_eq x.id j)) [
          | inr g ↦ g
          | inl g ↦
              absurd
                (false≢true (sym n ∙ subst (λ z. str_eq z run_id ≡ true) ((eq_iff x.id j).0 g) e))
        ] in
        let g' : str_eq (f x).id j ≡ false = ap (λ z. str_eq z j) (k x) ∙ g in
        rw (e, g, g') (find_other f j rs k n)
  ]

  fail_run-IsRecovered :
      (e : Error) (run : JobRun) (db : Db)
      → find_run db.runs run_id ≡ some run
      → IsRecovered (err e) run db (fail_run run_id (described e) db)
  unfolding fail_run transition_run mark_recovery_required
  fail_run-IsRecovered e run db k = elim (Bool-cases (is_uncertain (some run))) [
    | inl u ↦
        rw (k, u)
          (
            (
              fail_row e (mark_row e run),
              find-update (fail_row e) run_id (update_run (mark_row e) run_id db.runs)
                  (mark_row e run) (λ r. refl)
                  (find-update (mark_row e) run_id db.runs run (λ r. refl) k),
              (refl, refl, inl ((IsStarted-iff run).0 u, refl, refl)),
            ),
            λ j n.
                find_other (fail_row e) j (update_run (mark_row e) run_id db.runs) (λ r. refl) n
                ∙ find_other (mark_row e) j db.runs (λ r. refl) n,
            refl,
            refl,
            refl,
          )
    | inr u ↦
        rw (k, u)
          (
            (
              fail_row e run,
              find-update (fail_row e) run_id db.runs run (λ r. refl) k,
              (refl, refl, inr (λ w. false≢true (sym u ∙ (IsStarted-iff run).1 w), refl, refl)),
            ),
            λ j n. find_other (fail_row e) j db.runs (λ r. refl) n,
            refl,
            refl,
            refl,
          )
  ]

  -- If the run is stored when its executor has returned or raised, then recovering it changes
  -- nothing more if the executor returned. If it raised, the run is FAILED with the class and the
  -- text of the exception; it is marked for recovery with that text if its backup had been
  -- requested or was running, and its mark is as before if not. The other runs, the restore points,
  -- the artifacts and the recovery tasks are as the executor left them.
  pub recover_run-IsRecovered :
      (s : System h) (run : JobRun)
      → find_run (executor.advance run_id s).1.db.runs run_id ≡ some run
      → IsRecovered
          (executor.advance run_id s).0
          run
          (executor.advance run_id s).1.db
          (recover_run h executor run_id s).db
  unfolding recover_run
  recover_run-IsRecovered s run k = of_result (executor.advance run_id s) k
    where
      of_result :
          (out : Result (Unit {0}) × System h)
          → find_run out.1.db.runs run_id ≡ some run
          → IsRecovered out.0 run out.1.db (after_advance h run_id out.0 out.1).db
      of_result (ok u, t) k = refl
      of_result (err e, t) k = fail_run-IsRecovered e run t.db k
