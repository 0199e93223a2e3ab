-- ===== src/States/Legacy.antt =====
-- vmbackupd/state_machine.py: the transitions of `RunState` that the backup engine validates.
use vmbackupd.Prelude.{
  ℕ, suc, ◌≤◌, ◌≡◌, refl, sym, ap, subst, ◌∙◌, inl, inr, Bool, true, false, String, List, [], ◌∷◌,
  any, arith, length, ◌∈◌, eq_iff, str_eq, if◌then◌else◌, Result, ok, err, Error,
  invalid_transition, mem-of_any, mem-All, drop, ◌⊎◌,
}
use Prim.Native.String.{◌++◌}
use vmbackupd.Models.{
  RunState, scheduled, queued, precheck, preparing, backing_up, transferring, verifying, finalizing,
  recovering, success, cleanup, failed,
}

-- The value of each member.
abbrev pub text_of : RunState → String
text_of scheduled = "SCHEDULED"
text_of queued = "QUEUED"
text_of precheck = "PRECHECK"
text_of preparing = "PREPARING"
text_of backing_up = "BACKING_UP"
text_of transferring = "TRANSFERRING"
text_of verifying = "VERIFYING"
text_of finalizing = "FINALIZING"
text_of recovering = "RECOVERING"
text_of success = "SUCCESS"
text_of cleanup = "CLEANUP"
text_of failed = "FAILED"

abbrev pub state_eq : RunState → RunState → Bool
state_eq a b = str_eq (text_of a) (text_of b)

abbrev pub success_path : List RunState
success_path =
    scheduled ∷ queued ∷ precheck ∷ preparing ∷ backing_up ∷ transferring ∷ verifying ∷ finalizing
    ∷ success ∷ []

-- `{state, CLEANUP}` of the first pair of `zip(path, path[1:])` that begins with the state.
unfoldable pub path_transitions : List RunState → RunState → List RunState
path_transitions [] state = []
path_transitions (s ∷ []) state = []
path_transitions (s ∷ t ∷ path) state =
    let rest = path_transitions (t ∷ path) state in
    if state_eq s state then t ∷ cleanup ∷ [] else rest

-- `_TRANSITIONS[state]`
unfoldable pub allowed_transitions : RunState → List RunState
unfolding path_transitions
allowed_transitions cleanup = failed ∷ []
allowed_transitions success = []
allowed_transitions recovering = backing_up ∷ cleanup ∷ []
allowed_transitions failed = []
allowed_transitions state = path_transitions success_path state

unfoldable pub validate_transition : RunState → RunState → Result (Unit {0})
unfolding allowed_transitions
validate_transition current target =
    if any (state_eq target) (allowed_transitions current)
    then ok tt
    else err (
        invalid_transition
          ("cannot transition from " ++ (text_of current ++ (" to " ++ text_of target))))

-- A run in the first state goes through the listed ones, each transition validated.
abbrev pub IsRun : RunState → List RunState → Type 0
IsRun s [] = Unit
IsRun s (t ∷ ts) = (validate_transition s t ≡ ok tt) × IsRun t ts

state_of : String → RunState
state_of text =
    if str_eq text "SCHEDULED"
    then scheduled
    else if str_eq text "QUEUED"
    then queued
    else if str_eq text "PRECHECK"
    then precheck
    else if str_eq text "PREPARING"
    then preparing
    else if str_eq text "BACKING_UP"
    then backing_up
    else if str_eq text "TRANSFERRING"
    then transferring
    else if str_eq text "VERIFYING"
    then verifying
    else if str_eq text "FINALIZING"
    then finalizing
    else if str_eq text "RECOVERING"
    then recovering
    else if str_eq text "SUCCESS"
    then success
    else if str_eq text "CLEANUP"
    then cleanup
    else failed

state_of-text_of : (s : RunState) → state_of (text_of s) ≡ s
unfolding state_of
state_of-text_of scheduled = refl
state_of-text_of queued = refl
state_of-text_of precheck = refl
state_of-text_of preparing = refl
state_of-text_of backing_up = refl
state_of-text_of transferring = refl
state_of-text_of verifying = refl
state_of-text_of finalizing = refl
state_of-text_of recovering = refl
state_of-text_of success = refl
state_of-text_of cleanup = refl
state_of-text_of failed = refl

eq-of_state_eq : (a b : RunState) → state_eq a b ≡ true → a ≡ b
eq-of_state_eq a b e =
    sym (state_of-text_of a)
    ∙ ap state_of ((eq_iff (text_of a) (text_of b)).0 e)
    ∙ state_of-text_of b

abbrev checked : Bool → Error → Result (Unit {0})
checked b e = if b then ok tt else err e

of_ok : (b : Bool) (e : Error) → checked b e ≡ ok tt → b ≡ true
of_ok true e h = refl
of_ok false e h = cc

mem-of_validate : (s t : RunState) → validate_transition s t ≡ ok tt → t ∈ allowed_transitions s
unfolding validate_transition
mem-of_validate s t h =
    let (u, m, q) = mem-of_any (state_eq t) (allowed_transitions s) (of_ok _ _ h) in
    subst (λ z. z ∈ allowed_transitions s) (sym (eq-of_state_eq t u q)) m

-- How many transitions a run in the state can still make.
abbrev pub remaining : RunState → ℕ
remaining scheduled = 9
remaining queued = 8
remaining precheck = 7
remaining preparing = 6
remaining backing_up = 5
remaining transferring = 4
remaining verifying = 3
remaining finalizing = 2
remaining recovering = 6
remaining success = 0
remaining cleanup = 1
remaining failed = 0

drops-either :
    (n : ℕ) (a b t : RunState)
    → suc (remaining a) ≤ n
    → suc (remaining b) ≤ n
    → t ∈ (a ∷ b ∷ [])
    → suc (remaining t) ≤ n
drops-either n a b t h k m = mem-All (λ z. suc (remaining z) ≤ n) t (a ∷ b ∷ []) (h, (k, tt)) m

remaining-drops : (s t : RunState) → t ∈ allowed_transitions s → suc (remaining t) ≤ remaining s
unfolding allowed_transitions path_transitions
remaining-drops scheduled t m = drops-either 9 queued cleanup t (omega arith) (omega arith) m
remaining-drops queued t m = drops-either 8 precheck cleanup t (omega arith) (omega arith) m
remaining-drops precheck t m = drops-either 7 preparing cleanup t (omega arith) (omega arith) m
remaining-drops preparing t m = drops-either 6 backing_up cleanup t (omega arith) (omega arith) m
remaining-drops backing_up t m = drops-either 5 transferring cleanup t (omega arith) (omega arith) m
remaining-drops transferring t m = drops-either 4 verifying cleanup t (omega arith) (omega arith) m
remaining-drops verifying t m = drops-either 3 finalizing cleanup t (omega arith) (omega arith) m
remaining-drops finalizing t m = drops-either 2 success cleanup t (omega arith) (omega arith) m
remaining-drops recovering t m = drops-either 6 backing_up cleanup t (omega arith) (omega arith) m
remaining-drops cleanup t (inl e) = subst (λ z. suc (remaining z) ≤ 1) (sym e) (omega arith)
remaining-drops cleanup t (inr m) = absurd m
remaining-drops success t m = absurd m
remaining-drops failed t m = absurd m

-- A run makes at most as many validated transitions as `remaining` says of its first state: nine
-- from SCHEDULED.
pub run-bounded : (s : RunState) (ts : List RunState) → IsRun s ts → length ts ≤ remaining s
run-bounded s [] r = omega arith
run-bounded s (t ∷ ts) r =
    omega (arith, run-bounded t ts r.1, remaining-drops s t (mem-of_validate s t r.0))

-- What is left of the way to SUCCESS after a state.
abbrev pub rest_of_path : RunState → List RunState
rest_of_path scheduled = drop 1 success_path
rest_of_path queued = drop 2 success_path
rest_of_path precheck = drop 3 success_path
rest_of_path preparing = drop 4 success_path
rest_of_path backing_up = drop 5 success_path
rest_of_path transferring = drop 6 success_path
rest_of_path verifying = drop 7 success_path
rest_of_path finalizing = drop 8 success_path
rest_of_path success = drop 9 success_path
rest_of_path recovering = drop 4 success_path
rest_of_path cleanup = []
rest_of_path failed = []

abbrev IsGivenUp : RunState → Type 0
IsGivenUp s = (s ≡ cleanup) ⊎ (s ≡ failed)

next-cases :
    (s t : RunState)
    → t ∈ allowed_transitions s
    → (rest_of_path s ≡ t ∷ rest_of_path t) ⊎ IsGivenUp t
unfolding allowed_transitions path_transitions
next-cases scheduled t (inl e) = inl (sym (ap (λ z. z ∷ rest_of_path z) e))
next-cases scheduled t (inr (inl e)) = inr (inl e)
next-cases scheduled t (inr (inr m)) = absurd m
next-cases queued t (inl e) = inl (sym (ap (λ z. z ∷ rest_of_path z) e))
next-cases queued t (inr (inl e)) = inr (inl e)
next-cases queued t (inr (inr m)) = absurd m
next-cases precheck t (inl e) = inl (sym (ap (λ z. z ∷ rest_of_path z) e))
next-cases precheck t (inr (inl e)) = inr (inl e)
next-cases precheck t (inr (inr m)) = absurd m
next-cases preparing t (inl e) = inl (sym (ap (λ z. z ∷ rest_of_path z) e))
next-cases preparing t (inr (inl e)) = inr (inl e)
next-cases preparing t (inr (inr m)) = absurd m
next-cases backing_up t (inl e) = inl (sym (ap (λ z. z ∷ rest_of_path z) e))
next-cases backing_up t (inr (inl e)) = inr (inl e)
next-cases backing_up t (inr (inr m)) = absurd m
next-cases transferring t (inl e) = inl (sym (ap (λ z. z ∷ rest_of_path z) e))
next-cases transferring t (inr (inl e)) = inr (inl e)
next-cases transferring t (inr (inr m)) = absurd m
next-cases verifying t (inl e) = inl (sym (ap (λ z. z ∷ rest_of_path z) e))
next-cases verifying t (inr (inl e)) = inr (inl e)
next-cases verifying t (inr (inr m)) = absurd m
next-cases finalizing t (inl e) = inl (sym (ap (λ z. z ∷ rest_of_path z) e))
next-cases finalizing t (inr (inl e)) = inr (inl e)
next-cases finalizing t (inr (inr m)) = absurd m
next-cases recovering t (inl e) = inl (sym (ap (λ z. z ∷ rest_of_path z) e))
next-cases recovering t (inr (inl e)) = inr (inl e)
next-cases recovering t (inr (inr m)) = absurd m
next-cases cleanup t (inl e) = inr (inr e)
next-cases cleanup t (inr m) = absurd m
next-cases success t m = absurd m
next-cases failed t m = absurd m

ends : (s : RunState) (ts : List RunState) → allowed_transitions s ≡ [] → IsRun s ts → ts ≡ []
ends s [] e r = refl
ends s (t ∷ ts) e r = absurd (subst (λ l. t ∈ l) e (mem-of_validate s t r.0))

success_ends : (ts : List RunState) → IsRun success ts → ts ≡ []
unfolding allowed_transitions
success_ends ts r = ends success ts refl r

after_failed : (ts : List RunState) → IsRun failed ts → ts ≡ []
unfolding allowed_transitions
after_failed ts r = ends failed ts refl r

after_cleanup : (ts : List RunState) → IsRun cleanup ts → ¬ (success ∈ ts)
unfolding allowed_transitions
after_cleanup [] r m = m
after_cleanup (t ∷ ts) r m = elim (mem-of_validate cleanup t r.0) [
  | inl e ↦
      let none_left = after_failed ts (subst (λ z. IsRun z ts) e r.1) in
      elim m [ inl q ↦ cc | inr k ↦ subst (λ l. success ∈ l) none_left k ]
  | inr k ↦ absurd k
]

given_up : (t : RunState) (ts : List RunState) → IsGivenUp t → IsRun t ts → ¬ (success ∈ (t ∷ ts))
given_up t ts (inl e) r (inl q) = cc
given_up t ts (inr e) r (inl q) = cc
given_up t ts (inl e) r (inr m) = after_cleanup ts (subst (λ z. IsRun z ts) e r) m
given_up t ts (inr e) r (inr m) =
    subst (λ l. success ∈ l) (after_failed ts (subst (λ z. IsRun z ts) e r)) m

-- A run that comes to SUCCESS went through every later state of the path in its order, and through
-- nothing else: no step, verifying and finalizing included, is left out.
pub run-succeeds :
    (s : RunState) (ts : List RunState) → IsRun s ts → success ∈ ts → ts ≡ rest_of_path s
run-succeeds s [] r m = absurd m
run-succeeds s (t ∷ ts) r m = elim (next-cases s t (mem-of_validate s t r.0)) [
  | inl e ↦
      ap (λ l. t ∷ l)
        (elim m [
          | inl q ↦ success_ends ts (subst (λ z. IsRun z ts) (sym q) r.1) ∙ ap rest_of_path q
          | inr k ↦ run-succeeds t ts r.1 k
        ])
      ∙ sym e
  | inr g ↦ absurd (given_up t ts g r.1 m)
]
