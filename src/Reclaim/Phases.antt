-- ===== src/Reclaim/Phases.antt =====
-- The phases of a reclaim as a relation, and when the workflow says that there is enough space.
use vmbackupd.Prelude.{
  ℕ, ◌≤◌, ◌≡◌, refl, sym, ap, subst, ◌∙◌, ◌⊎◌, inl, inr, false, String, List, [], leb, Bool-cases,
  leb→le, str_eq, eq_iff, if◌then◌else◌, get_or, any, Result, ok, err,
}
use vmbackupd.Host.{Host}
use vmbackupd.Repository.{Candidate, Details}
use vmbackupd.Purge.{System}
use vmbackupd.Reclaim.{
  TaskStatus, checkpoint_saved, space_available, Adapters, phase_of, plan_of, candidates_of,
  is_pending, start_step, selecting_step, plan_ready_step, after_purge, verified, with_details,
  verify_with, get_free_bytes, purge_first, purging_step, verify_step, execute,
}

-- The phase is one of those that `execute` knows, or fails each of its tests.
pub data PhaseCase (p : String) : Type 0 where
  at_start : p ≡ "START" → PhaseCase p
  at_selecting : p ≡ "SELECTING" → PhaseCase p
  at_purging : p ≡ "PURGING" → PhaseCase p
  at_plan_ready : p ≡ "PLAN_READY" → PhaseCase p
  at_verify : p ≡ "VERIFY" → PhaseCase p
  unknown :
      str_eq p "START" ≡ false
      → str_eq p "SELECTING" ≡ false
      → str_eq p "PURGING" ≡ false
      → str_eq p "PLAN_READY" ≡ false
      → str_eq p "VERIFY" ≡ false
      → PhaseCase p

pub phase_case : (p : String) → PhaseCase p
phase_case p = elim (Bool-cases (str_eq p "START")) [
  | inl t ↦ at_start ((eq_iff p "START").0 t)
  | inr a ↦ elim (Bool-cases (str_eq p "SELECTING")) [
    | inl t ↦ at_selecting ((eq_iff p "SELECTING").0 t)
    | inr b ↦ elim (Bool-cases (str_eq p "PURGING")) [
      | inl t ↦ at_purging ((eq_iff p "PURGING").0 t)
      | inr c ↦ elim (Bool-cases (str_eq p "PLAN_READY")) [
        | inl t ↦ at_plan_ready ((eq_iff p "PLAN_READY").0 t)
        | inr d ↦ elim (Bool-cases (str_eq p "VERIFY")) [
          | inl t ↦ at_verify ((eq_iff p "VERIFY").0 t)
          | inr e ↦ unknown a b c d e
        ]
      ]
    ]
  ]
]

module _ (h : Host) (adapters : Adapters) (d : Details) (s : System h) where
  pub execute-start : phase_of d ≡ "START" → execute h adapters d s ≡ (ok (start_step d), s)
  unfolding execute
  execute-start e = rw e

  pub execute-selecting :
      phase_of d ≡ "SELECTING" → execute h adapters d s ≡ (ok (selecting_step adapters s.db d), s)
  unfolding execute
  execute-selecting e = rw e

  pub execute-purging :
      phase_of d ≡ "PURGING" → execute h adapters d s ≡ purging_step h adapters d s
  unfolding execute
  execute-purging e = rw e

  pub execute-plan_ready :
      phase_of d ≡ "PLAN_READY" → execute h adapters d s ≡ (ok (plan_ready_step d), s)
  unfolding execute
  execute-plan_ready e = rw e

  pub execute-verify :
      phase_of d ≡ "VERIFY" → execute h adapters d s ≡ (verify_step h adapters d s, s)
  unfolding execute
  execute-verify e = rw e

-- The workflow: the phase of a task and the phase of the checkpoint that follows.
pub data PhaseStep : String → String → Type 0 where
  select : PhaseStep "START" "SELECTING"
  plan : PhaseStep "SELECTING" "PLAN_READY"
  purge : PhaseStep "PLAN_READY" "PURGING"
  purge_more : PhaseStep "PURGING" "PURGING"
  check : PhaseStep "PURGING" "VERIFY"
  retry : PhaseStep "VERIFY" "PURGING"

after_purge-PhaseStep :
    (d : Details) (r : List Candidate × List String)
    → phase_of d ≡ "PURGING"
    → ((after_purge d r).0 ≡ checkpoint_saved) × PhaseStep "PURGING" (phase_of (after_purge d r).1)
unfolding after_purge
after_purge-PhaseStep d (cs, gone) e = elim (Bool-cases (any is_pending cs)) [
  | inl t ↦ rw t (refl, subst (λ p. PhaseStep "PURGING" p) (sym e) purge_more)
  | inr f ↦ rw f (refl, check)
]

verified-cases :
    (d : Details) (free : ℕ)
    → (((verified d free).0 ≡ checkpoint_saved) × PhaseStep "VERIFY" (phase_of (verified d free).1))
      ⊎ (((verified d free).0 ≡ space_available) × (get_or d.required_bytes 0 ≤ free))
unfolding verified
verified-cases d free = elim (Bool-cases (leb (get_or d.required_bytes 0) free)) [
  | inl t ↦ rw t (inr (refl, leb→le (get_or d.required_bytes 0) free t))
  | inr f ↦ rw f (inl (refl, retry))
]

-- What a call that returns may do, by the phase before it.
abbrev pub Progress : (h : Host) → Adapters → Details → System h → TaskStatus × Details → Type 0
Progress h adapters d s r =
    ((r.0 ≡ checkpoint_saved) × PhaseStep (phase_of d) (phase_of r.1))
    ⊎ ((r.0 ≡ space_available)
        × (((phase_of d ≡ "VERIFY")
              × (free : ℕ) × ((if adapters.has_capacity
                    then get_free_bytes h d.storage_id s
                    else ok 0)
                  ≡ ok free)
              × (get_or d.required_bytes 0 ≤ free))
            ⊎ ((str_eq (phase_of d) "START" ≡ false)
                × (str_eq (phase_of d) "SELECTING" ≡ false)
                × (str_eq (phase_of d) "PURGING" ≡ false)
                × (str_eq (phase_of d) "PLAN_READY" ≡ false)
                × (str_eq (phase_of d) "VERIFY" ≡ false))))

module _ (h : Host) (adapters : Adapters) (d : Details) (s : System h) where
  purging-Progress :
      (v : Result (List Candidate × List String)) (r : TaskStatus × Details)
      → phase_of d ≡ "PURGING"
      → with_details (after_purge d) v ≡ ok r
      → Progress h adapters d s r
  purging-Progress (err e) r p q = cc
  purging-Progress (ok (cs, gone)) r p q =
      let same : after_purge d (cs, gone) ≡ r = cc in
      let (a, b) = after_purge-PhaseStep d (cs, gone) p in
      subst (λ x. Progress h adapters d s x) same
        (inl (a, subst (λ x. PhaseStep x (phase_of (after_purge d (cs, gone)).1)) (sym p) b))

  verify-Progress :
      (v : Result ℕ) (r : TaskStatus × Details)
      → (if adapters.has_capacity then get_free_bytes h d.storage_id s else ok 0) ≡ v
      → phase_of d ≡ "VERIFY"
      → verify_with d v ≡ ok r
      → Progress h adapters d s r
  verify-Progress (err e) r k p q = cc
  verify-Progress (ok free) r k p q =
      let same : verified d free ≡ r = cc in
      subst (λ x. Progress h adapters d s x) same
        (elim (verified-cases d free) [
          | inl (a, b) ↦ inl (a, subst (λ x. PhaseStep x (phase_of (verified d free).1)) (sym p) b)
          | inr (a, b) ↦ inr (a, inl (p, free, k, b))
        ])

  Progress-of_eq :
      (x : TaskStatus × Details)
      → (execute h adapters d s).0 ≡ ok x
      → Progress h adapters d s x
      → (r : TaskStatus × Details) → (execute h adapters d s).0 ≡ ok r
      → Progress h adapters d s r
  Progress-of_eq x e p r q = let same : x ≡ r = cc in subst (λ z. Progress h adapters d s z) same p

  -- A call that returns either saves a checkpoint whose phase follows the workflow, or reports
  -- available space; it reports that in the phase VERIFY, with as many bytes free as the task
  -- requires, or in a phase that it does not know.
  pub execute-Progress :
      (r : TaskStatus × Details) → (execute h adapters d s).0 ≡ ok r → Progress h adapters d s r
  execute-Progress r q = elim (phase_case (phase_of d)) [
    | at_start e ↦
        Progress-of_eq (start_step d) (ap (λ z. z.0) (execute-start h adapters d s e))
          (inl (unfold start_step in (refl, subst (λ p. PhaseStep p "SELECTING") (sym e) select))) r
          q
    | at_selecting e ↦
        Progress-of_eq (selecting_step adapters s.db d)
          (ap (λ z. z.0) (execute-selecting h adapters d s e))
          (inl
            (unfold selecting_step in (refl, subst (λ p. PhaseStep p "PLAN_READY") (sym e) plan)))
          r q
    | at_plan_ready e ↦
        Progress-of_eq (plan_ready_step d) (ap (λ z. z.0) (execute-plan_ready h adapters d s e))
          (inl (unfold plan_ready_step in (refl, subst (λ p. PhaseStep p "PURGING") (sym e) purge)))
          r q
    | at_purging e ↦
        unfold purging_step in
        purging-Progress
          (purge_first h adapters (candidates_of d) (get_or (plan_of d).deleted []) s).0 r e
          (sym (ap (λ z. z.0) (execute-purging h adapters d s e)) ∙ q)
    | at_verify e ↦
        unfold verify_step in
        verify-Progress (if adapters.has_capacity then get_free_bytes h d.storage_id s else ok 0) r
          refl e (sym (ap (λ z. z.0) (execute-verify h adapters d s e)) ∙ q)
    | unknown a b c d' e ↦
        Progress-of_eq (space_available, d) (unfold execute in rw (a, b, c, d', e))
          (inr (refl, inr (a, b, c, d', e))) r q
  ]
