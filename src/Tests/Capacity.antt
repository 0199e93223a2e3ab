-- ===== src/Tests/Capacity.antt =====
-- `CapacityPlanningService.plan_job` for a machine with a closed and an active chain.
use vmbackupd.Prelude.{
  ℕ, ◌≡◌, refl, true, some, none, List, [], ◌∷◌, String, str_le, any, filter, Result, ok,
}
use vmbackupd.Prelude.Int.{pos}
use vmbackupd.Prelude.Sort.{sort}
use vmbackupd.Models.{BackupChain, active, closed, RestorePoint, full, space_optimized}
use vmbackupd.Retention.CapacityPlanner
use vmbackupd.Retention.CapacityPlanner.{
  has_duplicates, candidates, closed_oldest_first, is_reclaimable, chain_le, selection,
  selection_of_mode, select_chains, select_prefix, shortfall_of, total_bytes, decide_plan,
}
use vmbackupd.Retention.Planner.{
  members_of, sequence_le, are_contiguous, optional_eq, is_orphan, contains,
}
use vmbackupd.Capacity.{
  FullChainCapacityCollection, JobRepository, JobCapacityPlan, bundles_of, duplicate_bundles,
  member_problem, closed_chain_problem, older_chain, sum_bytes, collect_chains, collect, plan_at,
  plan_job,
}

abbrev old_chain : BackupChain
old_chain = record { id = "a"; vm_id = "v"; status = closed; created_at = 1 }

abbrev chains : List BackupChain
chains = record { id = "c"; vm_id = "v"; status = active; created_at = 2 } ∷ old_chain ∷ []

abbrev points : List RestorePoint
points =
    record {
      id = "p";
      chain_id = "a";
      kind = full;
      sequence = 0;
      backup_object_id = none;
      bundle_object_id = some "x";
      parent_restore_point_id = none;
      created_at = 1;
    }
    ∷ []

abbrev inspect : String → Result ℕ
inspect bundle = ok 10

abbrev repository : JobRepository
repository = record {
  get_job = λ id. ok (record {
    id = id;
    vm_id = "v";
    storage_destination_id = some "s";
    retention_policy = record {
      restore_points_to_retain = 7;
      minimum_full_chains = 1;
      full_chains_to_retain = 2;
      space_reclaim_mode = space_optimized;
    };
  });
  get_vm = λ id. ok (record { id = id; node_id = "n" });
  get_storage_destination = λ node id. ok (record {
    id = id;
    minimum_free_bytes = pos 2;
    minimum_free_percent = record { in_range = true; share = λ total. 0 };
  });
  list_chains = λ vm. chains;
  list_restore_points = λ vm. points;
}

abbrev collection : FullChainCapacityCollection
collection = record {
  chains =
      record { chain_id = "a"; status = closed; created_at = 1; physical_bytes = some 10 }
      ∷ record { chain_id = "c"; status = active; created_at = 2; physical_bytes = none }
      ∷ [];
  issues = [];
}

collects : collect inspect chains points ≡ ok collection
unfolding collect has_duplicates is_orphan contains any filter collect_chains duplicate_bundles
    bundles_of closed_chain_problem member_problem are_contiguous optional_eq sum_bytes members_of
    sequence_le older_chain sort str_le
collects = refl

abbrev planned : JobCapacityPlan
planned = record {
  job_id = "j";
  vm_id = "v";
  storage_destination_id = "s";
  total_bytes = 100;
  chains = collection.chains;
  inspection_issues = [];
  reclaim_plan = decide_plan collection.chains 5 2 8 (record {
    restore_points_to_retain = 7;
    minimum_full_chains = 1;
    full_chains_to_retain = 2;
    space_reclaim_mode = space_optimized;
  });
}

plan_selects : planned.reclaim_plan.selected_reclaim_chain_ids ≡ "a" ∷ []
unfolding decide_plan candidates closed_oldest_first is_reclaimable chain_le selection
    selection_of_mode select_chains select_prefix shortfall_of total_bytes sort filter str_le
plan_selects = refl

plans : plan_job inspect repository "j" (pos 5) (pos 100) (pos 8) ≡ ok planned
unfolding plan_job plan_at CapacityPlanner.plan collect has_duplicates is_orphan contains any filter
    collect_chains duplicate_bundles bundles_of closed_chain_problem member_problem are_contiguous
    optional_eq sum_bytes members_of sequence_le older_chain sort str_le
plans = refl
