-- ===== src/Reclaim/Progress.antt =====
-- PURGING comes to an end: each call that returns leaves one pending candidate fewer.
use vmbackupd.Prelude.{
  Result-cases, ℕ, zero, suc, ◌-◌, ◌≤◌, ◌<◌, ◌≡◌, refl, sym, ap, subst, ◌∙◌, ◌⊎◌, inl, inr, true,
  false, some, String, List, [], ◌∷◌, arith, Bool-cases, Option-cases, length, get_or, filter, any,
  Result, ok, err, Error,
}
use vmbackupd.Host.{Host}
use vmbackupd.Repository.{Candidate, Details}
use vmbackupd.Purge.{PurgeResult, System}
use vmbackupd.Reclaim.{
  TaskStatus, Adapters, phase_of, plan_of, candidates_of, is_pending, mark_done, keep_candidate,
  purged_plan, after_purge, with_details, purge_candidate, purge_first, purging_step, execute,
}
use vmbackupd.Reclaim.Phases.{execute-purging}

abbrev pub pending_count : List Candidate → ℕ
pending_count cs = length (filter is_pending cs)

any-pending :
    (cs : List Candidate)
    → ((any is_pending cs ≡ true) × (0 < pending_count cs))
      ⊎ ((any is_pending cs ≡ false) × (pending_count cs ≡ 0))
unfolding any filter
any-pending [] = inr (refl, refl)
any-pending (c ∷ cs) = elim (Bool-cases (is_pending c)) [
  | inl t ↦ rw t (inl (refl, omega arith))
  | inr f ↦ rw f (any-pending cs)
]

mark_done-count :
    (c : Candidate) (cs : List Candidate) (gone : List String) (v : Result PurgeResult)
    (cs' : List Candidate) (gone' : List String)
    → mark_done c cs gone v ≡ ok (cs', gone')
    → pending_count cs' ≡ pending_count cs
unfolding filter
mark_done-count c cs gone (err e) cs' gone' q = cc
mark_done-count c cs gone (ok r) cs' gone' q =
    let same : (record c { status = some "DONE" } ∷ cs) ≡ cs' = ground arith in
    subst (λ l. pending_count l ≡ pending_count cs) same refl

keep_candidate-inverse :
    (c : Candidate) (v : Result (List Candidate × List String)) (cs' : List Candidate)
    (gone' : List String)
    → keep_candidate c v ≡ ok (cs', gone')
    → (cs : List Candidate) × (v ≡ ok (cs, gone')) × (cs' ≡ c ∷ cs)
keep_candidate-inverse c (err e) cs' gone' q = cc
keep_candidate-inverse c (ok (cs, gone)) cs' gone' q = (cs, ground arith, ground arith)

module _ (h : Host) (adapters : Adapters) where
  purge_first-count :
      (cs : List Candidate) (gone : List String) (s : System h) (cs' : List Candidate)
      (gone' : List String)
      → (purge_first h adapters cs gone s).0 ≡ ok (cs', gone')
      → pending_count cs' ≡ pending_count cs - 1
  unfolding purge_first filter
  purge_first-count [] gone s cs' gone' q =
      let same : [] ≡ cs' = ground arith in subst (λ l. pending_count l ≡ 0 - 1) same (omega arith)
  purge_first-count (c ∷ cs) gone s cs' gone' q = elim (Bool-cases (is_pending c)) [
    | inl t ↦
        let q' : mark_done c cs gone (purge_candidate h adapters c s).0 ≡ ok (cs', gone') =
          rw t at q in
        rw t
          (omega (arith, mark_done-count c cs gone (purge_candidate h adapters c s).0 cs' gone' q'))
    | inr f ↦
        let q' : keep_candidate c (purge_first h adapters cs gone s).0 ≡ ok (cs', gone') =
          rw f at q in
        let (rest, e, same) =
          keep_candidate-inverse c (purge_first h adapters cs gone s).0 cs' gone' q' in
        rw (same, f) (purge_first-count cs gone s rest gone' e)
  ]

candidates-after :
    (d : Details) (cs : List Candidate) (gone : List String)
    → (cs ≡ []) ⊎ ((l : List Candidate) × ((plan_of d).candidates ≡ some l))
    → candidates_of (record d { reclaim_plan = some (purged_plan (plan_of d) cs gone) }) ≡ cs
unfolding purged_plan
candidates-after d cs gone h = elim (Option-cases (plan_of d).candidates) [
  | inl n ↦ elim h [ inl e ↦ rw e (ground arith) | inr (l, e) ↦ cc ]
  | inr (l, e) ↦ ground arith
]

-- The details after a purge: what is pending, and the phase.
abbrev pub IsPurged : ℕ → Details → Type 0
IsPurged n d =
    (pending_count (candidates_of d) ≡ n - 1)
    × (((phase_of d ≡ "VERIFY") × (pending_count (candidates_of d) ≡ 0))
        ⊎ ((phase_of d ≡ "PURGING") × (0 < pending_count (candidates_of d))))

after_purge-IsPurged :
    (d : Details) (n : ℕ) (cs : List Candidate) (gone : List String)
    → phase_of d ≡ "PURGING"
    → candidates_of (record d { reclaim_plan = some (purged_plan (plan_of d) cs gone) }) ≡ cs
    → pending_count cs ≡ n - 1
    → IsPurged n (after_purge d (cs, gone)).1
unfolding after_purge
after_purge-IsPurged d n cs gone p e k = elim (any-pending cs) [
  | inl (t, some_left) ↦ rw t (
    subst (λ l. pending_count l ≡ n - 1) (sym e) k,
    inr (p, subst (λ l. 0 < pending_count l) (sym e) some_left),
  )
  | inr (f, none_left) ↦ rw f (
    subst (λ l. pending_count l ≡ n - 1) (sym e) k,
    inl (refl, subst (λ l. pending_count l ≡ 0) (sym e) none_left),
  )
]

module _ (h : Host) (adapters : Adapters) where
  candidates-known :
      (d : Details) (s : System h) (cs : List Candidate) (gone : List String)
      → (purge_first h adapters (candidates_of d) (get_or (plan_of d).deleted []) s).0
        ≡ ok (cs, gone)
      → (cs ≡ []) ⊎ ((l : List Candidate) × ((plan_of d).candidates ≡ some l))
  unfolding purge_first
  candidates-known d s cs gone q = elim (Option-cases (plan_of d).candidates) [
    | inl n ↦
        let q' : ◌≡◌ {A = Result (List Candidate × List String)}
            (ok ([], get_or (plan_of d).deleted [])) (ok (cs, gone)) =
          rw n at q in
        inl (ground arith)
    | inr k ↦ inr k
  ]

  purging-IsPurged :
      (d : Details) (s : System h) (v : Result (List Candidate × List String))
      (r : TaskStatus × Details)
      → (purge_first h adapters (candidates_of d) (get_or (plan_of d).deleted []) s).0 ≡ v
      → phase_of d ≡ "PURGING"
      → with_details (after_purge d) v ≡ ok r
      → IsPurged (pending_count (candidates_of d)) r.1
  purging-IsPurged d s (err e) r k p q = cc
  purging-IsPurged d s (ok (cs, gone)) r k p q =
      let same : after_purge d (cs, gone) ≡ r = cc in
      subst (λ x. IsPurged (pending_count (candidates_of d)) x.1) same
        (after_purge-IsPurged d (pending_count (candidates_of d)) cs gone p
          (candidates-after d cs gone (candidates-known d s cs gone k))
          (purge_first-count h adapters (candidates_of d) (get_or (plan_of d).deleted []) s cs gone
            k))

  -- In the phase PURGING a call that returns leaves one pending candidate fewer (none, if there
  -- was none), and goes on to VERIFY exactly when none is left.
  pub execute-IsPurged :
      (d : Details) (s : System h) (r : TaskStatus × Details)
      → phase_of d ≡ "PURGING"
      → (execute h adapters d s).0 ≡ ok r
      → IsPurged (pending_count (candidates_of d)) r.1
  execute-IsPurged d s r p q =
      unfold purging_step in
      purging-IsPurged d s
        (purge_first h adapters (candidates_of d) (get_or (plan_of d).deleted []) s).0 r refl p
        (sym (ap (λ z. z.0) (execute-purging h adapters d s p)) ∙ q)

  abbrev go_on :
      (Details → System h → Result Details × System h)
      → Result (TaskStatus × Details)
      → System h
      → Result Details × System h
  go_on more (err e) s = (err e, s)
  go_on more (ok r) s = more r.1 s

  -- The details after n calls, each from the checkpoint of the one before, if none raises.
  pub calls : ℕ → Details → System h → Result Details × System h
  calls zero d s = (ok d, s)
  calls (suc n) d s = let (result, s') = execute h adapters d s in go_on (calls n) result s'

  pub no_calls : (d : Details) (s : System h) → calls zero d s ≡ (ok d, s)
  unfolding calls
  no_calls d s = refl

  pub one_call :
      (n : ℕ) (d : Details) (s : System h) (r : TaskStatus × Details)
      → (execute h adapters d s).0 ≡ ok r
      → calls (suc n) d s ≡ calls n r.1 (execute h adapters d s).1
  unfolding calls
  one_call n d s r q = rw q

  pub stopped_call :
      (n : ℕ) (d : Details) (s : System h) (e : Error)
      → (execute h adapters d s).0 ≡ err e
      → calls (suc n) d s ≡ (err e, (execute h adapters d s).1)
  unfolding calls
  stopped_call n d s e q = rw q

  -- How a sequence of calls ends: an exception, or VERIFY with nothing pending.
  abbrev pub HasEnded : Result Details → Type 0
  HasEnded (err e) = Unit
  HasEnded (ok d) = (phase_of d ≡ "VERIFY") × (pending_count (candidates_of d) ≡ 0)

  abbrev pub EndsWithin : ℕ → Details → System h → Type 0
  EndsWithin k d s = (n : ℕ) × (n ≤ k) × HasEnded (calls n d s).0

  ends_at_once :
      (d : Details) (s : System h) (r : TaskStatus × Details)
      → (execute h adapters d s).0 ≡ ok r
      → phase_of r.1 ≡ "VERIFY"
      → pending_count (candidates_of r.1) ≡ 0
      → HasEnded (calls 1 d s).0
  ends_at_once d s r q v z = rw (one_call 0 d s r q, no_calls r.1 (execute h adapters d s).1) (v, z)

  -- From the phase PURGING, after at most as many calls as candidates are pending, or one if none
  -- is, the task is in the phase VERIFY with nothing pending, or a call has raised.
  pub purging_ends :
      (k : ℕ) (d : Details) (s : System h)
      → phase_of d ≡ "PURGING"
      → pending_count (candidates_of d) ≤ suc k
      → EndsWithin (suc k) d s
  purging_ends zero d s p b = elim (Result-cases (execute h adapters d s).0) [
    | inr (e, q) ↦ (1, omega arith, rw (stopped_call 0 d s e q) tt)
    | inl (r, q) ↦
        let (count, next) = execute-IsPurged d s r p q in
        elim next [
          | inl (v, z) ↦ (1, omega arith, ends_at_once d s r q v z)
          | inr (u, some_left) ↦ absurd (omega arith)
        ]
  ]
  purging_ends (suc k) d s p b = elim (Result-cases (execute h adapters d s).0) [
    | inr (e, q) ↦ (1, omega arith, rw (stopped_call 0 d s e q) tt)
    | inl (r, q) ↦
        let (count, next) = execute-IsPurged d s r p q in
        elim next [
          | inl (v, z) ↦ (1, omega arith, ends_at_once d s r q v z)
          | inr (u, some_left) ↦
              let (n, le, f) = purging_ends k r.1 (execute h adapters d s).1 u (omega arith) in
              (suc n, omega arith, rw (one_call n d s r q) f)
        ]
  ]
