-- ===== src/Retention/CapacityPlanner/Guarantees.antt =====
-- What `CapacityReclaimPlanner.plan` promises: the floor of protected chains, the order in which
-- chains are given up, and that exactly as much is given up as the backup needs.
use vmbackupd.Prelude.{
  ℕ, ◌+◌, ◌-◌, ◌≤◌, ◌<◌, min, ◌≡◌, ◌↔◌, refl, sym, ap, subst, ◌∙◌, ◌⊎◌, inl, inr, true, List, [],
  map, arith, ltb, ◌==◌, Bool-cases, length, take, drop, ◌∈◌, is_some, filter, mem-filter,
  mem-of_filter, mem-take, mem-drop, length-take-le, length-take-le_length, mem-take_or_drop,
  take-take, length-map, ok,
}
use vmbackupd.Prelude.Int.{ℤ, to_ℕ}
use vmbackupd.Prelude.Sort.{IsSorted, sort-IsSorted, take-le-drop, mem-sort, mem-of_sort}
use vmbackupd.Models.{closed, SpaceReclaimMode, safe, space_optimized, RetentionPolicy}
use vmbackupd.Retention.{FullChainCapacity, CapacityReclaimPlan}
use vmbackupd.Retention.CapacityPlanner.{
  total_bytes, select_prefix, select_chains, selection, selection_of_mode, chain_le, is_reclaimable,
  closed_oldest_first, candidates, shortfall_of, decide_plan, plan,
}
use vmbackupd.Retention.CapacityPlanner.Selection.{
  chain_le-IsOrder, select_prefix-total, select_prefix-take, select_prefix-minimal,
}

-- What the selection is, in each mode: a prefix of the candidates, counted right, that reaches the
-- shortfall if it is not empty and that no shorter prefix would.
record IsSelection (s : ℕ) (cs : List FullChainCapacity) (r : List FullChainCapacity × ℕ)
    : Type 0 where
  prefix : r.0 ≡ take (length r.0) cs
  counted : r.1 ≡ total_bytes r.0
  enough : 0 < length r.0 → s ≤ r.1
  minimal : (n : ℕ) → n < length r.0 → total_bytes (take n r.0) < s

nothing-IsSelection : (s : ℕ) (cs : List FullChainCapacity) → IsSelection s cs ([], 0)
unfolding total_bytes
nothing-IsSelection s cs = record {
  prefix = refl;
  counted = refl;
  enough = λ h. omega arith;
  minimal = λ n h. omega arith;
}

select_prefix-IsSelection :
    (s : ℕ) (cs : List FullChainCapacity)
    → 0 < s
    → s ≤ (select_prefix s cs 0).1
    → IsSelection s cs (select_prefix s cs 0)
select_prefix-IsSelection s cs h k = record {
  prefix = select_prefix-take s cs 0;
  counted = omega (arith, select_prefix-total s cs 0);
  enough = λ _. k;
  minimal = λ n m. omega (arith, select_prefix-minimal s cs 0 n h m);
}

select_chains-IsSelection :
    (s : ℕ) (cs : List FullChainCapacity) → 0 < s → IsSelection s cs (select_chains s cs)
unfolding select_chains
select_chains-IsSelection s cs h = elim (Bool-cases (ltb (select_prefix s cs 0).1 s)) [
  | inl e ↦ rw e (nothing-IsSelection s cs)
  | inr e ↦ rw e (select_prefix-IsSelection s cs h (ground arith))
]

selection_of_mode-IsSelection :
    (m : SpaceReclaimMode) (s : ℕ) (cs : List FullChainCapacity)
    → 0 < s
    → IsSelection s cs (selection_of_mode m s cs)
unfolding selection_of_mode
selection_of_mode-IsSelection safe s cs h = nothing-IsSelection s cs
selection_of_mode-IsSelection space_optimized s cs h = select_chains-IsSelection s cs h

selection-IsSelection :
    (s : ℕ) (policy : RetentionPolicy) (cs : List FullChainCapacity)
    → IsSelection s cs (selection s policy cs)
unfolding selection
selection-IsSelection s policy cs = elim (Bool-cases (s == 0)) [
  | inl e ↦ rw e (nothing-IsSelection s cs)
  | inr e ↦ rw e (selection_of_mode-IsSelection policy.space_reclaim_mode s cs (ground arith))
]

-- A plan that is returned is the one decided from the naturals behind the arguments.
plan-eq-ok :
    (chains : List FullChainCapacity) (free reserve required : ℤ) (policy : RetentionPolicy)
    {p : CapacityReclaimPlan}
    → plan chains free reserve required policy ≡ ok p
    → p ≡ decide_plan chains (to_ℕ free) (to_ℕ reserve) (to_ℕ required) policy
unfolding plan
plan-eq-ok chains free reserve required policy h = ground arith

-- Reads a property of the decided plan off a plan that was returned.
module _ (chains : List FullChainCapacity) (free reserve required : ℤ) (policy : RetentionPolicy)
    (P : CapacityReclaimPlan → Type 0)
    (decided : P (decide_plan chains (to_ℕ free) (to_ℕ reserve) (to_ℕ required) policy)) where
  pub of_plan : {p : CapacityReclaimPlan} → plan chains free reserve required policy ≡ ok p → P p
  of_plan h = subst P (sym (plan-eq-ok chains free reserve required policy h)) decided

-- The floor: the chains that stay, and how many they are at the least.
abbrev pub KeepsFloor : List FullChainCapacity → RetentionPolicy → CapacityReclaimPlan → Type 0
KeepsFloor chains policy p =
    (p.protected_full_chains_remaining + length p.selected_reclaim_chain_ids ≡ length chains)
    × (min (length chains) policy.minimum_full_chains ≤ p.protected_full_chains_remaining)

length-selection :
    (s : ℕ) (policy : RetentionPolicy) (chains : List FullChainCapacity)
    → length (selection s policy (candidates chains policy)).0
      ≤ length chains - policy.minimum_full_chains
unfolding candidates
length-selection s policy chains =
    let k = length chains - policy.minimum_full_chains in
    let sorted = closed_oldest_first chains in
    let sel = selection s policy (take k sorted) in
    let is = selection-IsSelection s policy (take k sorted) in
    omega (
      arith,
      ap length is.prefix,
      length-take-le_length (length sel.0) (take k sorted),
      length-take-le k sorted,
    )

-- Whatever plan is returned, the chains that it selects and those that it counts as protected are
-- together all the chains given, and the protected ones are at least `minimum_full_chains`, or all
-- of them where there are fewer.
pub plan-KeepsFloor :
    (chains : List FullChainCapacity) (free reserve required : ℤ) (policy : RetentionPolicy)
    {p : CapacityReclaimPlan}
    → plan chains free reserve required policy ≡ ok p
    → KeepsFloor chains policy p
plan-KeepsFloor chains free reserve required policy =
    of_plan chains free reserve required policy (KeepsFloor chains policy) decided
  where
    decided :
        KeepsFloor chains policy
          (decide_plan chains (to_ℕ free) (to_ℕ reserve) (to_ℕ required) policy)
    decided =
        unfold decide_plan in
        let s = shortfall_of (to_ℕ free) (to_ℕ reserve) (to_ℕ required) in
        omega (
          arith,
          length-selection s policy chains,
          length-map (selection s policy (candidates chains policy)).0 (λ c. c.chain_id),
        )

-- What may be given up, said without the planner: the chains that are closed and whose bytes are
-- known split into those chosen and the rest, none of the rest before a chosen one; the chosen
-- cover the need, and no shorter run of them does.
pub record IsOldestCover (chains : List FullChainCapacity) (free reserve required : ℕ)
    (p : CapacityReclaimPlan) : Type 0 where
  pub chosen : List FullChainCapacity
  pub rest : List FullChainCapacity
  pub names : p.selected_reclaim_chain_ids ≡ map (λ c. c.chain_id) chosen
  pub split :
      (c : FullChainCapacity)
      → ((c ∈ chains) × (c.status ≡ closed) × (is_some c.physical_bytes ≡ true))
        ↔ ((c ∈ chosen) ⊎ (c ∈ rest))
  pub oldest : (c d : FullChainCapacity) → c ∈ chosen → d ∈ rest → chain_le c d ≡ true
  pub freed : p.selected_reclaim_bytes ≡ total_bytes chosen
  pub covers : 0 < length chosen → required + reserve ≤ free + total_bytes chosen
  pub shortest :
      (n : ℕ) → n < length chosen → free + total_bytes (take n chosen) < required + reserve

reclaimable_iff :
    (c : FullChainCapacity)
    → ((c.status ≡ closed) × (is_some c.physical_bytes ≡ true)) ↔ (is_reclaimable c ≡ true)
unfolding is_reclaimable
reclaimable_iff c = (λ h. ground arith, λ h. (ground arith, ground arith))

mem-closed_oldest_first :
    (chains : List FullChainCapacity) (c : FullChainCapacity)
    → ((c ∈ chains) × (c.status ≡ closed) × (is_some c.physical_bytes ≡ true))
      ↔ (c ∈ closed_oldest_first chains)
unfolding closed_oldest_first
mem-closed_oldest_first chains c = (
  λ h.
      mem-sort chain_le c (filter is_reclaimable chains)
        (mem-filter is_reclaimable c chains h.0 ((reclaimable_iff c).0 (h.1, h.2))),
  λ m.
      let (k, t) =
        mem-of_filter is_reclaimable c chains
          (mem-of_sort chain_le c (filter is_reclaimable chains) m) in
      let (u, v) = (reclaimable_iff c).1 t in (k, u, v),
)

closed_oldest_first-IsSorted :
    (chains : List FullChainCapacity) → IsSorted chain_le (closed_oldest_first chains)
unfolding closed_oldest_first
closed_oldest_first-IsSorted chains = sort-IsSorted chain_le-IsOrder (filter is_reclaimable chains)

-- A prefix of the candidates is a prefix of all the closed chains, oldest first.
selection-take :
    (s : ℕ) (policy : RetentionPolicy) (chains : List FullChainCapacity)
    → (selection s policy (candidates chains policy)).0
      ≡ take (length (selection s policy (candidates chains policy)).0) (closed_oldest_first chains)
unfolding candidates
selection-take s policy chains =
    let k = length chains - policy.minimum_full_chains in
    let sorted = closed_oldest_first chains in
    let is = selection-IsSelection s policy (take k sorted) in
    is.prefix
    ∙ take-take (length (selection s policy (take k sorted)).0) k sorted
        (length-selection s policy chains)

decided-IsOldestCover :
    (chains : List FullChainCapacity) (free reserve required : ℕ) (policy : RetentionPolicy)
    → IsOldestCover chains free reserve required (decide_plan chains free reserve required policy)
unfolding decide_plan shortfall_of
decided-IsOldestCover chains free reserve required policy =
    let s = required + reserve - free in
    let sel = selection s policy (candidates chains policy) in
    let sorted = closed_oldest_first chains in
    let n = length sel.0 in
    let is = selection-IsSelection s policy (candidates chains policy) in
    let e : sel.0 ≡ take n sorted = selection-take s policy chains in
    record {
      chosen = sel.0;
      rest = drop n sorted;
      names = refl;
      split = λ c. (
        λ h. elim (mem-take_or_drop n c sorted ((mem-closed_oldest_first chains c).0 h)) [
          | inl m ↦ inl (subst (λ l. c ∈ l) (sym e) m)
          | inr m ↦ inr m
        ],
        λ h. (mem-closed_oldest_first chains c).1 (elim h [
          | inl m ↦ mem-take n c sorted (subst (λ l. c ∈ l) e m)
          | inr m ↦ mem-drop n c sorted m
        ]),
      );
      oldest = λ c d hc hd.
          take-le-drop chain_le n sorted c d (closed_oldest_first-IsSorted chains)
            (subst (λ l. c ∈ l) e hc) hd;
      freed = is.counted;
      covers = λ h. omega (arith, is.enough h, is.counted);
      shortest = λ m h. omega (arith, is.minimal m h);
    }

-- Whatever plan is returned, its selection is the oldest closed chains of known size, up to one:
-- no closed chain of known size that is kept is before a selected one; if anything is selected
-- then with the free bytes it covers the backup and the reserve, and no shorter run of it does.
pub plan-IsOldestCover :
    (chains : List FullChainCapacity) (free reserve required : ℤ) (policy : RetentionPolicy)
    {p : CapacityReclaimPlan}
    → plan chains free reserve required policy ≡ ok p
    → IsOldestCover chains (to_ℕ free) (to_ℕ reserve) (to_ℕ required) p
plan-IsOldestCover chains free reserve required policy =
    of_plan chains free reserve required policy
      (IsOldestCover chains (to_ℕ free) (to_ℕ reserve) (to_ℕ required))
      (decided-IsOldestCover chains (to_ℕ free) (to_ℕ reserve) (to_ℕ required) policy)
