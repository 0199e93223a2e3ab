-- ===== src/Tests/RetentionPlanner.antt =====
-- `RetentionPlanner.plan` on an expired chain, a kept one and the active one.
use vmbackupd.Prelude.{
  ℕ, ◌≤◌, ◌≡◌, refl, true, false, inl, inr, Option, some, none, String, List, [], ◌∷◌, ok, arith,
  ◌∈◌, eq_iff, any, filter, subst, sym,
}
use vmbackupd.Models.{
  active, closed, full, incremental, space_optimized, RetentionPolicy, BackupChain, RestorePoint,
  BackupArtifact,
}
use vmbackupd.Retention.{RetentionPlan}
use vmbackupd.Retention.Planner.{
  plan, is_orphan, contains, validate_chains, validate_members, members_of, are_contiguous,
  parents_link, optional_eq, sequence_le, retention_plan, retained_ids, close_prefixes, extend,
  retained_limit, members_retained, newest_chains, is_populated, newest_of, newer_chain,
  active_retained, newest_retained, newer_point, expired_chains, is_expired, selected_artifacts,
  belongs_to, artifact_le, authoritative_objects, authoritative_object, artifacts_or_empty,
}
use vmbackupd.Prelude.Sort.{sort}
use vmbackupd.Retention.Planner.Closure.{HaveUniqueIds}
use vmbackupd.Retention.Planner.Guarantees.{IsUnretained, IsOutlived}
use vmbackupd.Retention.Planner.Safety.{
  plan-retains_active, plan-retains_dependencies, plan-expires-IsOutlived,
  plan-artifacts_unretained,
}

abbrev policy : RetentionPolicy
policy = record {
  restore_points_to_retain = 2;
  minimum_full_chains = 1;
  full_chains_to_retain = 1;
  space_reclaim_mode = space_optimized;
}

abbrev chain : String → BackupChain
chain x = record { id = x; vm_id = "vm"; status = closed; created_at = 0 }

abbrev current : BackupChain
current = record { id = "new"; vm_id = "vm"; status = active; created_at = 5 }

abbrev base : String → String → ℕ → RestorePoint
base x c at = record {
  id = x;
  chain_id = c;
  kind = full;
  sequence = 0;
  backup_object_id = some x;
  bundle_object_id = none;
  parent_restore_point_id = none;
  created_at = at;
}

abbrev child : RestorePoint
child = record {
  id = "n1";
  chain_id = "new";
  kind = incremental;
  sequence = 1;
  backup_object_id = none;
  bundle_object_id = none;
  parent_restore_point_id = some "n0";
  created_at = 30;
}

abbrev chains : List BackupChain
chains = chain "old" ∷ current ∷ []

abbrev points : List RestorePoint
points = child ∷ base "o0" "old" 10 ∷ base "n0" "new" 20 ∷ []

abbrev artifacts : Option (List BackupArtifact)
artifacts = some (
    record { id = "x"; object_id = "p"; published_object_id = none; restore_point_id = some "o0" }
    ∷ [])

abbrev planned : RetentionPlan
planned = retention_plan chains points policy artifacts

plan_returns : plan chains points policy artifacts ≡ ok planned
unfolding plan any is_orphan contains validate_chains validate_members members_of sort filter
    are_contiguous parents_link optional_eq sequence_le
plan_returns = refl

plan_facts :
    (planned.expired_chain_ids ≡ "old" ∷ [])
    × (planned.candidate_artifact_ids ≡ "x" ∷ [])
    × (planned.candidate_object_ids ≡ "p" ∷ [])
    × (contains planned.retained_restore_point_ids "n0" ≡ true)
    × (contains planned.retained_restore_point_ids "o0" ≡ false)
unfolding retention_plan retained_ids close_prefixes extend retained_limit contains any members_of
    sort filter sequence_le members_retained newest_chains is_populated newest_of newer_chain
    active_retained newest_retained newer_point expired_chains is_expired selected_artifacts
    belongs_to artifact_le authoritative_objects authoritative_object
plan_facts = (refl, refl, refl, refl, refl)

unique_ids : HaveUniqueIds points
unique_ids p q (inl a) (inl b) e = cc
unique_ids p q (inl a) (inr (inl b)) e = ground (arith, eq_iff "n1" "o0")
unique_ids p q (inl a) (inr (inr (inl b))) e = ground (arith, eq_iff "n1" "n0")
unique_ids p q (inl a) (inr (inr (inr b))) e = absurd b
unique_ids p q (inr (inl a)) (inl b) e = ground (arith, eq_iff "o0" "n1")
unique_ids p q (inr (inl a)) (inr (inl b)) e = cc
unique_ids p q (inr (inl a)) (inr (inr (inl b))) e = ground (arith, eq_iff "o0" "n0")
unique_ids p q (inr (inl a)) (inr (inr (inr b))) e = absurd b
unique_ids p q (inr (inr (inl a))) (inl b) e = ground (arith, eq_iff "n0" "n1")
unique_ids p q (inr (inr (inl a))) (inr (inl b)) e = ground (arith, eq_iff "n0" "o0")
unique_ids p q (inr (inr (inl a))) (inr (inr (inl b))) e = cc
unique_ids p q (inr (inr (inl a))) (inr (inr (inr b))) e = absurd b
unique_ids p q (inr (inr (inr a))) _ e = absurd a

plan-retains_active_example : "n0" ∈ planned.retained_restore_point_ids
plan-retains_active_example =
    plan-retains_active chains points policy artifacts plan_returns current (base "n0" "new" 20)
      (inr (inl refl)) refl (inr (inr (inl refl))) refl

child_retained : "n1" ∈ planned.retained_restore_point_ids
child_retained =
    plan-retains_active chains points policy artifacts plan_returns current child (inr (inl refl))
      refl (inl refl) refl

plan-retains_dependencies_example :
    ((q : RestorePoint)
      → q ∈ points
      → q.chain_id ≡ child.chain_id
      → q.sequence ≤ child.sequence
      → q.id ∈ planned.retained_restore_point_ids)
    × ((x : String)
        → child.parent_restore_point_id ≡ some x
        → x ∈ planned.retained_restore_point_ids)
plan-retains_dependencies_example =
    plan-retains_dependencies chains points policy artifacts plan_returns unique_ids child
      (inl refl) child_retained

plan-expires-IsOutlived_example :
    (c : BackupChain) × (c.id ≡ "old")
    × (c.status ≡ closed)
    × IsUnretained planned.retained_restore_point_ids points c
    × IsOutlived chains points policy planned.retained_restore_point_ids c
plan-expires-IsOutlived_example =
    plan-expires-IsOutlived chains points policy artifacts plan_returns
      ((λ e. ground (arith, eq_iff "old" "new"), tt), (tt, tt)) "old"
      (subst (λ ids. "old" ∈ ids) (sym plan_facts.0) (inl refl))

plan-artifacts_unretained_example :
    (a : BackupArtifact) × (a ∈ artifacts_or_empty artifacts)
    × (a.id ≡ "x")
    × (pid : String) × (a.restore_point_id ≡ some pid)
    × ¬ (pid ∈ planned.retained_restore_point_ids)
plan-artifacts_unretained_example =
    plan-artifacts_unretained chains points policy artifacts plan_returns "x"
      (subst (λ ids. "x" ∈ ids) (sym plan_facts.1) (inl refl))
