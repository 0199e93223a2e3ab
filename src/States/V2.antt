-- ===== src/States/V2.antt =====
-- vmbackupd/state_machine_v2.py: `RunStateMachineV2`, whose states are strings.
use vmbackupd.Prelude.{
  ◌≡◌, ◌≢◌, ◌⊎◌, refl, sym, ap, subst, ◌∙◌, inl, inr, Bool, true, false, not, ◌||◌, ◌&&◌, both,
  String, List, [], ◌∷◌, ◌++◌, any, All, mem-All, eq_iff, str_eq, if◌then◌else◌, Bool-cases, Result,
  ok, err, Error, invalid_transition, mem-of_any,
}
use mathlib.Core.Bool.{false≢true}
use Prim.Native.String.{◌++◌ as ◌+++◌}

-- `ALLOWED`, with the members of each set in the order of the source.
abbrev pub rules : List (String × List String)
rules =
    ("SCHEDULED", "PREPARING" ∷ "FAILED" ∷ [])
    ∷ ("PREPARING", "BACKING_UP" ∷ "FAILED" ∷ [])
    ∷ ("BACKING_UP", "VERIFYING" ∷ "FAILED" ∷ [])
    ∷ ("VERIFYING", "FINALIZING" ∷ "FAILED" ∷ [])
    ∷ ("FINALIZING", "SUCCESS" ∷ "FAILED" ∷ [])
    ∷ ("FAILED", "RECOVERING" ∷ "WAITING" ∷ [])
    ∷ ("RECOVERING", "PREPARING" ∷ "FAILED" ∷ "WAITING" ∷ [])
    ∷ ("WAITING", "PREPARING" ∷ [])
    ∷ ("SUCCESS", [])
    ∷ []

-- `ALLOWED.get(state, set())`
unfoldable pub targets : List (String × List String) → String → List String
targets [] state = []
targets (rule ∷ rest) state =
    let others = targets rest state in if str_eq rule.0 state then rule.1 else others

unfoldable pub can_transition : String → String → Bool
unfolding targets
can_transition old new = any (str_eq new) (targets rules old)

unfoldable pub transition : String → String → Result String
unfolding can_transition
transition old new =
    if not (can_transition old new)
    then err (invalid_transition (old +++ " -> " +++ new +++ " is not allowed"))
    else ok new

-- A run in the first state goes through the listed ones by `transition`.
abbrev pub IsRun : String → List String → Type 0
IsRun s [] = Unit
IsRun s (t ∷ ts) = (transition s t ≡ ok t) × IsRun t ts

abbrev every {ℓ} : {A : Type ℓ} → (A → Bool) → List A → Bool
every p [] = true
every p (x ∷ xs) = p x && every p xs

All-of_every {ℓ} :
    {A : Type ℓ} (p : A → Bool) (xs : List A) → every p xs ≡ true → All (λ x. p x ≡ true) xs
All-of_every p [] h = tt
All-of_every p (x ∷ xs) h = let (a, b) = both (p x) (every p xs) h in (a, All-of_every p xs b)

abbrev only_from : String → String → (String × List String) → Bool
only_from source target rule = str_eq rule.0 source || not (any (str_eq target) rule.1)

or_not : (a b : Bool) → b ≡ true → (a || not b) ≡ true → a ≡ true
or_not true b h k = refl
or_not false true h k = cc
or_not false false h k = h

module _ (P : String × List String → Type 0) where
  targets-All :
      (rows : List (String × List String)) (old : String)
      → All P rows
      → (targets rows old ≡ []) ⊎ ((ts : List String) × (targets rows old ≡ ts) × P (old, ts))
  unfolding targets
  targets-All [] old a = inl refl
  targets-All (row ∷ rows) old a = elim (Bool-cases (str_eq row.0 old)) [
    | inl e ↦ rw e (inr (row.1, refl, subst (λ z. P (z, row.1)) ((eq_iff row.0 old).0 e) a.0))
    | inr n ↦ rw n (targets-All rows old a.1)
  ]

predecessor :
    (source target old : String)
    → All (λ rule. only_from source target rule ≡ true) rules
    → can_transition old target ≡ true
    → old ≡ source
unfolding can_transition any
predecessor source target old a h =
    elim (targets-All (λ rule. only_from source target rule ≡ true) rules old a) [
      | inl e ↦ let h' : false ≡ true = rw e at h in cc
      | inr (ts, e, p) ↦
          let h' : any (str_eq target) ts ≡ true = rw e at h in
          (eq_iff old source).0 (or_not (str_eq old source) (any (str_eq target) ts) h' p)
    ]

abbrev checked : Bool → String → Error → Result String
checked b new e = if not b then err e else ok new

of_ok : (b : Bool) (new : String) (e : Error) → checked b new e ≡ ok new → b ≡ true
of_ok true new e h = refl
of_ok false new e h = cc

of_transition : (old new : String) → transition old new ≡ ok new → can_transition old new ≡ true
unfolding transition
of_transition old new h = of_ok (can_transition old new) new _ h

-- If only one state leads to the last state of a run, then that state is the last but one.
peel :
    (source target s : String) (ts : List String)
    → All (λ rule. only_from source target rule ≡ true) rules
    → IsRun s (ts ++ target ∷ [])
    → ((s ≡ source) × (ts ≡ []))
      ⊎ ((us : List String) × (ts ≡ us ++ source ∷ []) × IsRun s (us ++ source ∷ []))
peel source target s [] a r = inl (predecessor source target s a (of_transition s target r.0), refl)
peel source target s (t ∷ ts) a r = elim (peel source target t ts a r.1) [
  | inl (e, none_left) ↦
      inr ([], rw (e, none_left) refl, (subst (λ z. transition s z ≡ ok z) e r.0, tt))
  | inr (us, e, r') ↦ inr (t ∷ us, ap (λ l. t ∷ l) e, (r.0, r'))
]

scheduled_ne : (target : String) → str_eq "SCHEDULED" target ≡ false → "SCHEDULED" ≢ target
scheduled_ne target h e = false≢true (sym h ∙ (eq_iff "SCHEDULED" target).1 e)

peel_scheduled :
    (source target : String) (ts : List String)
    → every (only_from source target) rules ≡ true
    → str_eq "SCHEDULED" source ≡ false
    → IsRun "SCHEDULED" (ts ++ target ∷ [])
    → (us : List String) × (ts ≡ us ++ source ∷ []) × IsRun "SCHEDULED" (us ++ source ∷ [])
peel_scheduled source target ts a n r =
    elim (peel source target "SCHEDULED" ts (All-of_every (only_from source target) rules a) r) [
      | inl (e, none_left) ↦ absurd (scheduled_ne source n e)
      | inr found ↦ found
    ]

append_four :
    (us : List String) (a b c d : String)
    → (((us ++ a ∷ []) ++ b ∷ []) ++ c ∷ []) ++ d ∷ [] ≡ us ++ a ∷ b ∷ c ∷ d ∷ []
append_four [] a b c d = refl
append_four (u ∷ us) a b c d = ap (λ l. u ∷ l) (append_four us a b c d)

-- A run that begins SCHEDULED and ends in SUCCESS has PREPARING, BACKING_UP, VERIFYING and
-- FINALIZING as the last four states before it: no run succeeds without having verified and
-- finalized its last backup.
pub run-succeeds_verified :
    (ts : List String)
    → IsRun "SCHEDULED" (ts ++ "SUCCESS" ∷ [])
    → (us : List String) × (ts ≡ us ++ "PREPARING" ∷ "BACKING_UP" ∷ "VERIFYING" ∷ "FINALIZING" ∷ [])
unfolding any
run-succeeds_verified ts r =
    let (us1, e1, r1) = peel_scheduled "FINALIZING" "SUCCESS" ts refl refl r in
    let (us2, e2, r2) = peel_scheduled "VERIFYING" "FINALIZING" us1 refl refl r1 in
    let (us3, e3, r3) = peel_scheduled "BACKING_UP" "VERIFYING" us2 refl refl r2 in
    let (us4, e4, r4) = peel_scheduled "PREPARING" "BACKING_UP" us3 refl refl r3 in
    (
      us4,
      e1
          ∙ ap (λ l. l ++ "FINALIZING" ∷ [])
              (e2 ∙ ap (λ l. l ++ "VERIFYING" ∷ []) (e3 ∙ ap (λ l. l ++ "BACKING_UP" ∷ []) e4))
          ∙ append_four us4 "PREPARING" "BACKING_UP" "VERIFYING" "FINALIZING",
    )

-- A run in the state can still end in SUCCESS.
abbrev pub CanSucceed : String → Type 0
CanSucceed s = (s ≡ "SUCCESS") ⊎ ((ts : List String) × IsRun s (ts ++ "SUCCESS" ∷ []))

further : (s t : String) → transition s t ≡ ok t → CanSucceed t → CanSucceed s
further s t h (inl e) = inr ([], (subst (λ z. transition s z ≡ ok z) e h, tt))
further s t h (inr (ts, r)) = inr (t ∷ ts, (h, r))

module _ where
  finalizing_can : CanSucceed "FINALIZING"
  unfolding transition can_transition targets any
  finalizing_can = further "FINALIZING" "SUCCESS" refl (inl refl)

  verifying_can : CanSucceed "VERIFYING"
  unfolding transition can_transition targets any
  verifying_can = further "VERIFYING" "FINALIZING" refl finalizing_can

  backing_up_can : CanSucceed "BACKING_UP"
  unfolding transition can_transition targets any
  backing_up_can = further "BACKING_UP" "VERIFYING" refl verifying_can

  preparing_can : CanSucceed "PREPARING"
  unfolding transition can_transition targets any
  preparing_can = further "PREPARING" "BACKING_UP" refl backing_up_can

  recovering_can : CanSucceed "RECOVERING"
  unfolding transition can_transition targets any
  recovering_can = further "RECOVERING" "PREPARING" refl preparing_can

  waiting_can : CanSucceed "WAITING"
  unfolding transition can_transition targets any
  waiting_can = further "WAITING" "PREPARING" refl preparing_can

  failed_can : CanSucceed "FAILED"
  unfolding transition can_transition targets any
  failed_can = further "FAILED" "RECOVERING" refl recovering_can

rules-CanSucceed : All (λ rule. All CanSucceed rule.1) rules
rules-CanSucceed = (
  (preparing_can, (failed_can, tt)),
  (
    (backing_up_can, (failed_can, tt)),
    (
      (verifying_can, (failed_can, tt)),
      (
        (finalizing_can, (failed_can, tt)),
        (
          (inl refl, (failed_can, tt)),
          (
            (recovering_can, (waiting_can, tt)),
            ((preparing_can, (failed_can, (waiting_can, tt))), ((preparing_can, tt), (tt, tt))),
          ),
        ),
      ),
    ),
  ),
)

-- No transition leads to a dead end: from every state that one can lead to, SUCCESS included, a
-- sequence of further transitions ends in SUCCESS.
pub can_transition-CanSucceed : (old new : String) → can_transition old new ≡ true → CanSucceed new
unfolding can_transition any
can_transition-CanSucceed old new h =
    elim (targets-All (λ rule. All CanSucceed rule.1) rules old rules-CanSucceed) [
      | inl e ↦ let h' : false ≡ true = rw e at h in cc
      | inr (ts, e, p) ↦
          let (u, m, q) = mem-of_any (str_eq new) ts (rw e at h) in
          subst CanSucceed (sym ((eq_iff new u).0 q)) (mem-All CanSucceed u ts p m)
    ]
