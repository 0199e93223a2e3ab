-- ===== src/Reclaim/Deletion.antt =====
-- Deletion in the phase PURGING: one pending candidate of the persisted plan at a time, until none
-- is left.
use vmbackupd.Prelude.{
  ◌≡◌, refl, ap, ◌⊎◌, inl, inr, true, String, List, [], ◌∷◌, Bool-cases, ◌∈◌, get_or,
}
use vmbackupd.Host.{Host}
use vmbackupd.Repository.{Candidate, Details}
use vmbackupd.Purge.{System, delete_restore_point}
use vmbackupd.Reclaim.{
  Adapters, phase_of, plan_of, candidates_of, is_pending, purge_candidate, purge_first,
  purging_step, execute,
}
use vmbackupd.Reclaim.Phases.{
  phase_case, at_start, at_selecting, at_purging, at_plan_ready, at_verify, unknown, execute-start,
  execute-selecting, execute-purging, execute-plan_ready, execute-verify,
}

module _ (h : Host) (adapters : Adapters) where
  -- Nothing was done, or one of the candidates that were pending was purged.
  abbrev pub PurgesOne : List Candidate → System h → System h → Type 0
  PurgesOne cs s s' =
      (s' ≡ s)
      ⊎ ((c : Candidate) × (c ∈ cs)
          × (is_pending c ≡ true)
          × (s' ≡ (delete_restore_point h true c s).1))

  purge_candidate-PurgesOne :
      (c : Candidate) (cs : List Candidate) (s : System h)
      → is_pending c ≡ true
      → PurgesOne (c ∷ cs) s (purge_candidate h adapters c s).1
  unfolding purge_candidate
  purge_candidate-PurgesOne c cs s t = elim (Bool-cases adapters.has_purge) [
    | inl e ↦ rw e (inr (c, inl refl, t, refl))
    | inr e ↦ rw e (inl refl)
  ]

  purge_first-PurgesOne :
      (cs : List Candidate) (gone : List String) (s : System h)
      → PurgesOne cs s (purge_first h adapters cs gone s).1
  unfolding purge_first
  purge_first-PurgesOne [] gone s = inl refl
  purge_first-PurgesOne (c ∷ cs) gone s = elim (Bool-cases (is_pending c)) [
    | inl t ↦ rw t (purge_candidate-PurgesOne c cs s t)
    | inr f ↦ rw f (elim (purge_first-PurgesOne cs gone s) [
      | inl e ↦ inl e
      | inr (b, m, t, e) ↦ inr (b, inr m, t, e)
    ])
  ]

  -- Whatever a call of `execute` returns or raises, the database and the host are as before, or
  -- the phase is PURGING and what was done is the purge of one candidate of the persisted plan
  -- that was PENDING.
  pub execute-PurgesOne :
      (d : Details) (s : System h)
      → ((execute h adapters d s).1 ≡ s)
        ⊎ ((phase_of d ≡ "PURGING") × PurgesOne (candidates_of d) s (execute h adapters d s).1)
  execute-PurgesOne d s = elim (phase_case (phase_of d)) [
    | at_start e ↦ inl (ap (λ z. z.1) (execute-start h adapters d s e))
    | at_selecting e ↦ inl (ap (λ z. z.1) (execute-selecting h adapters d s e))
    | at_plan_ready e ↦ inl (ap (λ z. z.1) (execute-plan_ready h adapters d s e))
    | at_verify e ↦ inl (ap (λ z. z.1) (execute-verify h adapters d s e))
    | unknown a b c d' e ↦ inl (unfold execute in rw (a, b, c, d', e))
    | at_purging e ↦ inr (
      e,
      rw (execute-purging h adapters d s e) (
          unfold purging_step in
          purge_first-PurgesOne (candidates_of d) (get_or (plan_of d).deleted []) s),
    )
  ]
