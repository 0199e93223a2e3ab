-- ===== src/Retention/CapacityPlanner/Outcome.antt =====
-- When `CapacityReclaimPlanner.plan` returns a plan, when that plan lets the backup go on, and
-- when it authorises deletion.
use vmbackupd.Prelude.{
  AreDistinct, ℕ, ◌+◌, ◌-◌, ◌≤◌, ◌<◌, ◌≡◌, ◌≢◌, ◌↔◌, refl, sym, ◌∙◌, ◌⊎◌, inl, inr, true, false,
  not, String, List, [], ◌∷◌, map, arith, leb, ltb, ◌==◌, Bool-cases, All, str_eq, eq_iff, any,
  mem-of_any, any-false, mem-All, All-of_mem, ok,
}
use mathlib.Core.Bool.{false≢true}
use vmbackupd.Prelude.Int.{ℤ, is_neg, to_ℕ}
use vmbackupd.Models.{SpaceReclaimMode, safe, space_optimized, RetentionPolicy}
use vmbackupd.Retention.{FullChainCapacity, CapacityReclaimPlan}
use vmbackupd.Retention.CapacityPlanner.{
  total_bytes, select_prefix, select_chains, selection, selection_of_mode, candidates, ids_of,
  is_empty, shortfall_of, decide_plan, plan, has_duplicates,
}
use vmbackupd.Retention.CapacityPlanner.Selection.{select_prefix-total, select_prefix-enough}
use vmbackupd.Retention.CapacityPlanner.Guarantees.{of_plan}

nonempty-total :
    (s : ℕ) (cs : List FullChainCapacity) → 0 < s → s ≤ total_bytes cs → is_empty cs ≡ false
unfolding total_bytes
nonempty-total s [] h k = absurd (omega arith)
nonempty-total s (c ∷ cs) h k = refl

select_chains_iff :
    (s : ℕ) (cs : List FullChainCapacity)
    → 0 < s
    → is_empty (select_chains s cs).0 ≡ not (leb s (total_bytes cs))
unfolding select_chains
select_chains_iff s cs h = elim (Bool-cases (ltb (select_prefix s cs 0).1 s)) [
  | inl e ↦ rw e (ground (arith, select_prefix-enough s cs 0))
  | inr e ↦ rw e (
      let k : s ≤ (select_prefix s cs 0).1 = ground arith in
      let full : leb s (total_bytes cs) ≡ true = ground (arith, select_prefix-enough s cs 0) in
      rw full
        (nonempty-total s (select_prefix s cs 0).0 h (omega (arith, select_prefix-total s cs 0))))
]

-- The ways for a plan to let the backup go on.
abbrev pub CanProceed : ℕ → ℕ → ℕ → RetentionPolicy → CapacityReclaimPlan → Type 0
CanProceed free reserve required policy p =
    (required + reserve ≤ free)
    ⊎ ((policy.space_reclaim_mode ≡ space_optimized)
        × (required + reserve ≤ free + p.candidate_reclaim_bytes))

nonempty-selection_of_mode :
    (m : SpaceReclaimMode) (s : ℕ) (cs : List FullChainCapacity)
    → 0 < s
    → (is_empty (selection_of_mode m s cs).0 ≡ false)
      ↔ ((m ≡ space_optimized) × (s ≤ total_bytes cs))
unfolding selection_of_mode
nonempty-selection_of_mode safe s cs h = (λ e. cc, λ e. cc (e.0))
nonempty-selection_of_mode space_optimized s cs h = (
  λ e. (refl, ground (arith, select_chains_iff s cs h)),
  λ e. ground (arith, select_chains_iff s cs h),
)

decided-proceeds :
    (chains : List FullChainCapacity) (free reserve required : ℕ) (policy : RetentionPolicy)
    → ((decide_plan chains free reserve required policy).backup_possible_after_reclaim ≡ true)
      ↔ CanProceed free reserve required policy (decide_plan chains free reserve required policy)
unfolding decide_plan selection shortfall_of
decided-proceeds chains free reserve required policy =
    let s = required + reserve - free in
    elim (Bool-cases (s == 0)) [
      | inl e ↦ rw e (λ _. inl (ground arith), λ _. refl)
      | inr e ↦ rw e (
          let iff =
            nonempty-selection_of_mode policy.space_reclaim_mode s (candidates chains policy)
              (ground arith) in
          (
            λ h. inr (let (m, k) = iff.0 (ground arith) in (m, omega arith)),
            λ h. elim h [
              | inl k ↦ absurd (ground arith)
              | inr k ↦ ground (arith, iff.1 (k.0, omega (arith, k.1)))
            ],
          ))
    ]

-- A returned plan says that the backup can go on exactly when the free bytes hold the backup and
-- the reserve, or the mode is SPACE_OPTIMIZED and they do together with all the candidates' bytes.
pub plan-proceeds :
    (chains : List FullChainCapacity) (free reserve required : ℤ) (policy : RetentionPolicy)
    {p : CapacityReclaimPlan}
    → plan chains free reserve required policy ≡ ok p
    → (p.backup_possible_after_reclaim ≡ true)
      ↔ CanProceed (to_ℕ free) (to_ℕ reserve) (to_ℕ required) policy p
plan-proceeds chains free reserve required policy =
    of_plan chains free reserve required policy
      (λ p.
        (p.backup_possible_after_reclaim ≡ true)
        ↔ CanProceed (to_ℕ free) (to_ℕ reserve) (to_ℕ required) policy p)
      (decided-proceeds chains (to_ℕ free) (to_ℕ reserve) (to_ℕ required) policy)

nonempty-selection :
    (s : ℕ) (policy : RetentionPolicy) (cs : List FullChainCapacity)
    → is_empty (selection s policy cs).0 ≡ false
    → (policy.space_reclaim_mode ≡ space_optimized) × (0 < s)
unfolding selection
nonempty-selection s policy cs h = elim (Bool-cases (s == 0)) [
  | inl e ↦ cc (let k : true ≡ false = rw e at h in k)
  | inr e ↦
      let k : is_empty (selection_of_mode policy.space_reclaim_mode s cs).0 ≡ false = rw e at h in
      (
        ((nonempty-selection_of_mode policy.space_reclaim_mode s cs (ground arith)).0 k).0,
        ground arith,
      )
]

ids_of-empty : (cs : List FullChainCapacity) → is_empty cs ≡ true → ids_of cs ≡ []
ids_of-empty [] h = refl
ids_of-empty (c ∷ cs) h = cc

abbrev IsAuthorised : ℕ → ℕ → ℕ → RetentionPolicy → Type 0
IsAuthorised free reserve required policy =
    (policy.space_reclaim_mode ≡ space_optimized) × (free < required + reserve)

decided-IsAuthorised :
    (chains : List FullChainCapacity) (free reserve required : ℕ) (policy : RetentionPolicy)
    → ((decide_plan chains free reserve required policy).selected_reclaim_chain_ids ≡ [])
      ⊎ IsAuthorised free reserve required policy
unfolding decide_plan shortfall_of
decided-IsAuthorised chains free reserve required policy =
    let s = required + reserve - free in
    let sel = (selection s policy (candidates chains policy)).0 in
    elim (Bool-cases (is_empty sel)) [
      | inl e ↦ inl (ids_of-empty sel e)
      | inr e ↦
          let (m, k) = nonempty-selection s policy (candidates chains policy) e in
          inr (m, omega arith)
    ]

-- A returned plan selects a chain for deletion only in the mode SPACE_OPTIMIZED, and only if the
-- free bytes do not hold the backup and the reserve.
pub plan-authorised :
    (chains : List FullChainCapacity) (free reserve required : ℤ) (policy : RetentionPolicy)
    {p : CapacityReclaimPlan}
    → plan chains free reserve required policy ≡ ok p
    → p.selected_reclaim_chain_ids ≢ []
    → (policy.space_reclaim_mode ≡ space_optimized) × (to_ℕ free < to_ℕ required + to_ℕ reserve)
plan-authorised chains free reserve required policy h k =
    elim (of_plan chains free reserve required policy
      (λ p.
        (p.selected_reclaim_chain_ids ≡ [])
        ⊎ IsAuthorised (to_ℕ free) (to_ℕ reserve) (to_ℕ required) policy)
      (decided-IsAuthorised chains (to_ℕ free) (to_ℕ reserve) (to_ℕ required) policy) h) [
        | inl e ↦ absurd (k e)
        | inr a ↦ a
      ]

any-str_eq : (x : String) (xs : List String) → All (λ y. x ≢ y) xs → any (str_eq x) xs ≡ false
any-str_eq x xs a = elim (Bool-cases (any (str_eq x) xs)) [
  | inl e ↦
      let (y, m, t) = mem-of_any (str_eq x) xs e in
      absurd (mem-All (λ z. x ≢ z) y xs a m ((eq_iff x y).0 t))
  | inr e ↦ e
]

ne_of_any : (x : String) (xs : List String) → any (str_eq x) xs ≡ false → All (λ y. x ≢ y) xs
ne_of_any x xs h =
    All-of_mem (λ y. x ≢ y) xs
      (λ y m e. false≢true (sym (any-false (str_eq x) y xs h m) ∙ (eq_iff x y).1 e))

has_duplicates_iff : (xs : List String) → (has_duplicates xs ≡ false) ↔ AreDistinct xs
unfolding has_duplicates
has_duplicates_iff [] = (λ _. tt, λ _. refl)
has_duplicates_iff (x ∷ xs) = (
  λ h. (ne_of_any x xs (ground arith), (has_duplicates_iff xs).0 (ground arith)),
  λ h. rw (any-str_eq x xs h.0) ((has_duplicates_iff xs).1 h.1),
)

-- `plan` returns a plan exactly when no byte count is negative and no chain id occurs twice; in
-- every other case it raises.
pub plan-returns_iff :
    (chains : List FullChainCapacity) (free reserve required : ℤ) (policy : RetentionPolicy)
    → ((p : CapacityReclaimPlan) × (plan chains free reserve required policy ≡ ok p)) ↔ (
        (is_neg free ≡ false)
        × (is_neg reserve ≡ false)
        × (is_neg required ≡ false)
        × AreDistinct (map (λ c. c.chain_id) chains))
unfolding plan
plan-returns_iff chains free reserve required policy =
    let d = has_duplicates_iff (ids_of chains) in
    (
      λ h. let e = h.1 in (ground arith, ground arith, ground arith, d.0 (ground arith)),
      λ h.
          let u = d.1 h.3 in
          (
            decide_plan chains (to_ℕ free) (to_ℕ reserve) (to_ℕ required) policy,
            rw (h.0, h.1, h.2, u),
          ),
    )
