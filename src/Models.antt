-- ===== src/Models.antt =====
-- vmbackupd/models.py: the enumerations and records of the domain, with the checks that their
-- constructors make. An aware `datetime` is the natural number of its instant, since the modelled
-- code only compares them; a float enters through a parameter that stands for the comparison.
use vmbackupd.Prelude.{
  ℕ, String, Bool, true, false, not, Option, ltb, str_eq, if◌then◌else◌, Result, ok, err,
  value_error, raise_if, ◌>>=◌, ◌>>◌,
}
use vmbackupd.Prelude.Int.{ℤ, is_neg, to_ℕ}

pub data RunState : Type 0 where
  scheduled queued precheck preparing backing_up transferring verifying : RunState
  finalizing recovering success cleanup failed : RunState

pub data BackupKind : Type 0 where
  full incremental : BackupKind

pub data BackupChainStatus : Type 0 where
  active closed : BackupChainStatus

pub data SpaceReclaimMode : Type 0 where
  safe space_optimized : SpaceReclaimMode

abbrev pub is_closed : BackupChainStatus → Bool
is_closed closed = true
is_closed active = false

abbrev pub is_active : BackupChainStatus → Bool
is_active active = true
is_active closed = false

abbrev pub is_full : BackupKind → Bool
is_full full = true
is_full incremental = false

abbrev pub is_incremental : BackupKind → Bool
is_incremental incremental = true
is_incremental full = false

-- `BackupChainStatus(text)`
unfoldable pub chain_status_of : String → Result BackupChainStatus
chain_status_of text =
    if str_eq text "ACTIVE"
    then ok active
    else if str_eq text "CLOSED"
    then ok closed
    else err (value_error "invalid backup chain status")

-- `SpaceReclaimMode(text)`
unfoldable pub reclaim_mode_of : String → Result SpaceReclaimMode
reclaim_mode_of text =
    if str_eq text "SAFE"
    then ok safe
    else if str_eq text "SPACE_OPTIMIZED"
    then ok space_optimized
    else err (value_error "invalid space_reclaim_mode")

-- A policy that `RetentionPolicy.__post_init__` has let through.
pub record RetentionPolicy : Type 0 where
  pub restore_points_to_retain : ℕ
  pub minimum_full_chains : ℕ
  pub full_chains_to_retain : ℕ
  pub space_reclaim_mode : SpaceReclaimMode

-- `margin_ok` is the float comparison `0 <= backup_size_margin_percent <= 100`.
unfoldable pub make_retention_policy : ℤ → ℤ → ℤ → String → Bool → Result RetentionPolicy
unfolding reclaim_mode_of
make_retention_policy points minimum target mode_text margin_ok = do
  raise_if (is_neg points) (value_error "restore_points_to_retain must be non-negative")
  raise_if (ltb (to_ℕ minimum) 1) (value_error "minimum_full_chains must be at least 1")
  raise_if (ltb (to_ℕ target) (to_ℕ minimum))
      (value_error "full_chains_to_retain must be at least minimum_full_chains")
  mode ← reclaim_mode_of mode_text
  raise_if (not margin_ok) (value_error "backup_size_margin_percent must be between 0 and 100")
  ok (record {
    restore_points_to_retain = to_ℕ points;
    minimum_full_chains = to_ℕ minimum;
    full_chains_to_retain = to_ℕ target;
    space_reclaim_mode = mode;
  })

pub record BackupChain : Type 0 where
  pub id : String
  pub vm_id : String
  pub status : BackupChainStatus
  pub created_at : ℕ

pub record RestorePoint : Type 0 where
  pub id : String
  pub chain_id : String
  pub kind : BackupKind
  pub sequence : ℕ
  pub backup_object_id : Option String
  pub bundle_object_id : Option String
  pub parent_restore_point_id : Option String
  pub created_at : ℕ

pub record BackupArtifact : Type 0 where
  pub id : String
  pub object_id : String
  pub published_object_id : Option String
  pub restore_point_id : Option String
