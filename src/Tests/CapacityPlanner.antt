-- ===== src/Tests/CapacityPlanner.antt =====
-- `CapacityReclaimPlanner.plan` on three chains, of which the two closed ones make enough room.
use vmbackupd.Prelude.{
  String, AreDistinct, ◌+◌, ◌<◌, ◌≡◌, ◌≢◌, ◌↔◌, refl, true, false, any, filter, str_le, some, none,
  List, [], ◌∷◌, ok,
}
use vmbackupd.Prelude.Int.{pos, is_neg}
use vmbackupd.Prelude.Sort.{sort}
use vmbackupd.Models.{active, closed, space_optimized, RetentionPolicy}
use vmbackupd.Retention.{FullChainCapacity, CapacityReclaimPlan}
use vmbackupd.Retention.CapacityPlanner.{
  has_duplicates, candidates, closed_oldest_first, is_reclaimable, chain_le, selection,
  selection_of_mode, select_chains, select_prefix, shortfall_of, total_bytes, decide_plan, plan,
}
use vmbackupd.Retention.CapacityPlanner.Guarantees.{
  KeepsFloor, plan-KeepsFloor, IsOldestCover, plan-IsOldestCover,
}
use vmbackupd.Retention.CapacityPlanner.Outcome.{
  CanProceed, plan-proceeds, plan-authorised, plan-returns_iff,
}

abbrev policy : RetentionPolicy
policy = record {
  restore_points_to_retain = 7;
  minimum_full_chains = 1;
  full_chains_to_retain = 2;
  space_reclaim_mode = space_optimized;
}

abbrev chains : List FullChainCapacity
chains =
    record { chain_id = "c"; status = active; created_at = 30; physical_bytes = none }
    ∷ record { chain_id = "b"; status = closed; created_at = 20; physical_bytes = some 20 }
    ∷ record { chain_id = "a"; status = closed; created_at = 10; physical_bytes = some 10 }
    ∷ []

abbrev planned : CapacityReclaimPlan
planned = decide_plan chains 5 10 20 policy

plan_returns : plan chains (pos 5) (pos 10) (pos 20) policy ≡ ok planned
unfolding plan has_duplicates any
plan_returns = refl

plan_selects :
    (planned.selected_reclaim_chain_ids ≡ "a" ∷ "b" ∷ [])
    × (planned.selected_reclaim_bytes ≡ 30)
    × (planned.protected_full_chains_remaining ≡ 1)
unfolding decide_plan candidates closed_oldest_first is_reclaimable chain_le selection
    selection_of_mode select_chains select_prefix shortfall_of total_bytes sort filter str_le
plan_selects = (refl, refl, refl)

plan-KeepsFloor_example : KeepsFloor chains policy planned
plan-KeepsFloor_example = plan-KeepsFloor chains (pos 5) (pos 10) (pos 20) policy plan_returns

plan-IsOldestCover_example : IsOldestCover chains 5 10 20 planned
plan-IsOldestCover_example = plan-IsOldestCover chains (pos 5) (pos 10) (pos 20) policy plan_returns

plan-proceeds_example :
    (planned.backup_possible_after_reclaim ≡ true) ↔ CanProceed 5 10 20 policy planned
plan-proceeds_example = plan-proceeds chains (pos 5) (pos 10) (pos 20) policy plan_returns

plan-authorised_example : (policy.space_reclaim_mode ≡ space_optimized) × (5 < 20 + 10)
plan-authorised_example =
    plan-authorised chains (pos 5) (pos 10) (pos 20) policy plan_returns selects
  where
    selects : planned.selected_reclaim_chain_ids ≢ []
    selects e = cc (plan_selects.0)

plan-returns_iff_example :
    ((p : CapacityReclaimPlan) × (plan chains (pos 5) (pos 10) (pos 20) policy ≡ ok p)) ↔ (
      (is_neg (pos 5) ≡ false)
      × (is_neg (pos 10) ≡ false)
      × (is_neg (pos 20) ≡ false)
      × AreDistinct {A = String} ("c" ∷ "b" ∷ "a" ∷ []))
plan-returns_iff_example = plan-returns_iff chains (pos 5) (pos 10) (pos 20) policy
