-- ===== src/Retention.antt =====
-- vmbackupd/retention.py: the facts that the planners read and the plans that they return.
pub mod CapacityPlanner
pub mod Planner
use vmbackupd.Prelude.{
  ℕ, String, Bool, Option, none, some, List, str_eq, Result, ok, err, value_error, raise_if, ◌>>=◌,
  ◌>>◌,
}
use vmbackupd.Prelude.Int.{ℤ, is_neg, to_ℕ}
use vmbackupd.Models.{BackupChainStatus, chain_status_of}

pub record FullChainCapacity : Type 0 where
  pub chain_id : String
  pub status : BackupChainStatus
  pub created_at : ℕ
  pub physical_bytes : Option ℕ

abbrev optional_is_neg : Option ℤ → Bool
optional_is_neg none = Bool.false
optional_is_neg (some n) = is_neg n

abbrev optional_to_ℕ : Option ℤ → Option ℕ
optional_to_ℕ none = none
optional_to_ℕ (some n) = some (to_ℕ n)

-- `FullChainCapacity(...)` with the checks of `__post_init__`.
unfoldable pub make_full_chain_capacity : String → String → ℕ → Option ℤ → Result FullChainCapacity
unfolding chain_status_of
make_full_chain_capacity chain_id status_text created_at bytes = do
  raise_if (str_eq chain_id "") (value_error "chain_id must not be empty")
  status ← chain_status_of status_text
  raise_if (optional_is_neg bytes) (value_error "physical_bytes must be non-negative")
  ok (record {
    chain_id = chain_id;
    status = status;
    created_at = created_at;
    physical_bytes = optional_to_ℕ bytes;
  })

pub record CapacityReclaimPlan : Type 0 where
  pub backup_possible_now : Bool
  pub reclaim_required : Bool
  pub backup_possible_after_reclaim : Bool
  pub required_backup_bytes : ℕ
  pub free_bytes : ℕ
  pub reserve_bytes : ℕ
  pub usable_free_bytes : ℕ
  pub shortfall_bytes : ℕ
  pub candidate_chain_ids : List String
  pub candidate_reclaim_bytes : ℕ
  pub selected_reclaim_chain_ids : List String
  pub selected_reclaim_bytes : ℕ
  pub full_chains_before : ℕ
  pub protected_full_chains_remaining : ℕ

pub record RetentionPlan : Type 0 where
  pub retained_restore_point_ids : List String
  pub expired_chain_ids : List String
  pub candidate_backup_object_ids : List String
  pub candidate_artifact_ids : List String
  pub candidate_object_ids : List String
