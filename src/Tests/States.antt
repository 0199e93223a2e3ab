-- ===== src/Tests/States.antt =====
-- The state machines on the runs that succeed.
use vmbackupd.Prelude.{◌≡◌, ◌≤◌, refl, inl, inr, true, List, [], ◌∷◌, ◌++◌, String, length, any}
use vmbackupd.Models.{RunState, scheduled}
use vmbackupd.States.Legacy.{
  validate_transition, allowed_transitions, path_transitions, run-succeeds, run-bounded,
  rest_of_path, IsRun,
}
use vmbackupd.States.V2
use vmbackupd.States.V2.{
  can_transition, targets, transition, run-succeeds_verified, CanSucceed, can_transition-CanSucceed,
}

abbrev path : List RunState
path = rest_of_path scheduled

path-IsRun : IsRun scheduled path
unfolding validate_transition allowed_transitions path_transitions any
path-IsRun = (refl, (refl, (refl, (refl, (refl, (refl, (refl, (refl, tt))))))))

run-succeeds_example : path ≡ rest_of_path scheduled
run-succeeds_example =
    run-succeeds scheduled path path-IsRun (inr (inr (inr (inr (inr (inr (inr (inl refl))))))))

run-bounded_example : length path ≤ 9
run-bounded_example = run-bounded scheduled path path-IsRun

abbrev recovered : List String
recovered =
    "PREPARING" ∷ "FAILED" ∷ "RECOVERING" ∷ "PREPARING" ∷ "BACKING_UP" ∷ "VERIFYING" ∷ "FINALIZING"
    ∷ []

recovered-IsRun : V2.IsRun "SCHEDULED" (recovered ++ "SUCCESS" ∷ [])
unfolding transition can_transition targets any
recovered-IsRun = (refl, (refl, (refl, (refl, (refl, (refl, (refl, (refl, tt))))))))

run-succeeds_verified_example :
    (us : List String) × (recovered
      ≡ us ++ "PREPARING" ∷ "BACKING_UP" ∷ "VERIFYING" ∷ "FINALIZING" ∷ [])
run-succeeds_verified_example = run-succeeds_verified recovered recovered-IsRun

waiting_prepares : can_transition "WAITING" "PREPARING" ≡ true
unfolding can_transition targets any
waiting_prepares = refl

can_transition-CanSucceed_example : CanSucceed "PREPARING"
can_transition-CanSucceed_example = can_transition-CanSucceed "WAITING" "PREPARING" waiting_prepares
