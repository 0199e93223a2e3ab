-- ===== src/Reclaim/Stall.antt =====
-- Why the workflow frees nothing as it is wired: the candidates that the repository lists are not
-- marked PENDING, and PURGING purges pending candidates only.
use vmbackupd.Prelude.{
  ℕ, zero, suc, ◌≡◌, refl, ap, subst, ◌∙◌, inl, inr, false, Option, some, none, String, List, [],
  ◌∷◌, map, leb, Bool-cases, All, Result-cases, if◌then◌else◌, get_or, any, Result, ok, err,
}
use vmbackupd.Host.{Host}
use vmbackupd.Repository.{PointRow, Candidate, Details, Db}
use vmbackupd.Repository.Points.{but_last, completed_points, list_reclaim_candidates}
use vmbackupd.Purge.{System}
use vmbackupd.Reclaim.{
  TaskStatus, space_available, Adapters, phase_of, plan_of, candidates_of, is_pending, start_step,
  selecting_step, plan_ready_step, keep_key, after_purge, verified, verify_with, get_free_bytes,
  purge_first, purging_step, verify_step, execute,
}
use vmbackupd.Reclaim.Phases.{
  phase_case, at_start, at_selecting, at_purging, at_plan_ready, at_verify, unknown, execute-start,
  execute-selecting, execute-purging, execute-plan_ready, execute-verify,
}
use vmbackupd.Reclaim.Progress.{calls, no_calls, one_call, stopped_call}

abbrev NonePending : List Candidate → Type 0
NonePending cs = All (λ c. is_pending c ≡ false) cs

unlisted :
    (ps : List PointRow)
    → NonePending (map (λ p. record { restore_point_id = p.id; status = none }) ps)
unlisted [] = tt
unlisted (p ∷ ps) = (refl, unlisted ps)

-- No candidate that the repository lists is pending.
pub list_reclaim_candidates-NonePending :
    (storage_id : Option String) (db : Db) → NonePending (list_reclaim_candidates storage_id db)
unfolding list_reclaim_candidates
list_reclaim_candidates-NonePending none db = tt
list_reclaim_candidates-NonePending (some x) db = unlisted (but_last (completed_points x db))

kept-NonePending :
    (o : Option (List Candidate)) (cs : List Candidate)
    → NonePending cs
    → NonePending (get_or (keep_key o cs) [])
kept-NonePending none cs a = tt
kept-NonePending (some l) cs a = a

module _ (h : Host) (adapters : Adapters) where
  purge_first-none :
      (cs : List Candidate) (gone : List String) (s : System h)
      → NonePending cs
      → purge_first h adapters cs gone s ≡ (ok (cs, gone), s)
  unfolding purge_first
  purge_first-none [] gone s a = refl
  purge_first-none (c ∷ cs) gone s a = rw (a.0, purge_first-none cs gone s a.1)

  -- A plan with nothing pending: the invariant of a task that started with no plan.
  abbrev Idle : Details → Type 0
  Idle d = NonePending (candidates_of d)

  start-Idle : (d : Details) → Idle (start_step d).1
  unfolding start_step
  start-Idle d = tt

  selecting-Idle : (db : Db) (d : Details) → Idle (selecting_step adapters db d).1
  unfolding selecting_step
  selecting-Idle db d = elim (Bool-cases adapters.has_repository) [
    | inl t ↦ rw t (list_reclaim_candidates-NonePending d.storage_id db)
    | inr f ↦ rw f tt
  ]

  verified-Idle : (d : Details) (free : ℕ) → Idle d → Idle (verified d free).1
  unfolding verified
  verified-Idle d free i = elim (Bool-cases (leb (get_or d.required_bytes 0) free)) [
    | inl t ↦ rw t i
    | inr f ↦ rw f i
  ]

  -- The checkpoint of a call, if it returns, has nothing pending, and nothing was done.
  abbrev StaysIdle : Result (TaskStatus × Details) × System h → System h → Type 0
  StaysIdle x s = (x.1 ≡ s) × ((r : TaskStatus × Details) → x.0 ≡ ok r → Idle r.1)

  Idle-result : (x : TaskStatus × Details) (s : System h) → Idle x.1 → StaysIdle (ok x, s) s
  Idle-result x s i = (refl, λ r q. let same : x ≡ r = cc in subst (λ z. Idle z.1) same i)

  Idle-verify :
      (d : Details) (v : Result ℕ) (s : System h) → Idle d → StaysIdle (verify_with d v, s) s
  Idle-verify d (err e) s i = (refl, λ r q. cc)
  Idle-verify d (ok free) s i = Idle-result (verified d free) s (verified-Idle d free i)

  purged-Idle :
      (d : Details) (cs : List Candidate) (gone : List String)
      → NonePending cs
      → Idle (after_purge d (cs, gone)).1
  unfolding after_purge
  purged-Idle d cs gone a = elim (Bool-cases (any is_pending cs)) [
    | inl t ↦ rw t (kept-NonePending (plan_of d).candidates cs a)
    | inr f ↦ rw f (kept-NonePending (plan_of d).candidates cs a)
  ]

  execute-StaysIdle : (d : Details) (s : System h) → Idle d → StaysIdle (execute h adapters d s) s
  execute-StaysIdle d s i = elim (phase_case (phase_of d)) [
    | at_start e ↦ rw (execute-start h adapters d s e) (Idle-result (start_step d) s (start-Idle d))
    | at_selecting e ↦
        rw (execute-selecting h adapters d s e)
          (Idle-result (selecting_step adapters s.db d) s (selecting-Idle s.db d))
    | at_plan_ready e ↦
        rw (execute-plan_ready h adapters d s e)
          (Idle-result (plan_ready_step d) s (unfold plan_ready_step in i))
    | at_verify e ↦ rw (execute-verify h adapters d s e) (
        unfold verify_step in
        Idle-verify d (if adapters.has_capacity then get_free_bytes h d.storage_id s else ok 0) s i)
    | at_purging e ↦ rw (execute-purging h adapters d s e) (
        unfold purging_step in
        rw (purge_first-none (candidates_of d) (get_or (plan_of d).deleted []) s i) (
          Idle-result (after_purge d (candidates_of d, get_or (plan_of d).deleted [])) s
            (purged-Idle d (candidates_of d) (get_or (plan_of d).deleted []) i)))
    | unknown a b c d' e ↦
        unfold execute in rw (a, b, c, d', e) (Idle-result (space_available, d) s i)
  ]

  calls-Idle : (n : ℕ) (d : Details) (s : System h) → Idle d → (calls h adapters n d s).1 ≡ s
  calls-Idle zero d s i = ap (λ x. x.1) (no_calls h adapters d s)
  calls-Idle (suc n) d s i =
      let (same, next) = execute-StaysIdle d s i in
      elim (Result-cases (execute h adapters d s).0) [
        | inl (r, q) ↦
            ap (λ x. x.1) (one_call h adapters n d s r q)
            ∙ calls-Idle n r.1 (execute h adapters d s).1 (next r q)
            ∙ same
        | inr (e, q) ↦ ap (λ x. x.1) (stopped_call h adapters n d s e q) ∙ same
      ]

  -- However often it is called, a reclaim that begins in the phase START leaves the database and
  -- the host as they were: it deletes nothing.
  pub reclaim-deletes_nothing :
      (n : ℕ) (d : Details) (s : System h) → phase_of d ≡ "START" → (calls h adapters n d s).1 ≡ s
  reclaim-deletes_nothing zero d s e = ap (λ x. x.1) (no_calls h adapters d s)
  reclaim-deletes_nothing (suc n) d s e =
      let q = execute-start h adapters d s e in
      ap (λ x. x.1)
        (one_call h adapters n d s (start_step d)
          (ap (λ (x : Result (TaskStatus × Details) × System h). x.0) q))
      ∙ calls-Idle n (start_step d).1 (execute h adapters d s).1 (start-Idle d)
      ∙ ap (λ x. x.1) q
