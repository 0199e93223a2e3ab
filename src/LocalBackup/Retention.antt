-- ===== src/LocalBackup/Retention.antt =====
-- local_backup_v2.py, `CompactLocalBackupExecutor`: what the retention deletes, before a backup for
-- its space and after one for the number of FULL chains. What `free_space` reads is a parameter.
use vmbackupd.Prelude.{
  ℕ, ◌+◌, ◌-◌, max, leb, String, Bool, true, false, not, ◌||◌, Option, none, some, List, [], ◌∷◌,
  take, length, str_eq, if◌then◌else◌, Result, ok, err,
}
use vmbackupd.Models.{SpaceReclaimMode, space_optimized, safe, RetentionPolicy}
use vmbackupd.Compact.{Point}
use vmbackupd.Replica.Executor.{Paths}
use vmbackupd.LocalBackup.Delete.{Entries, Host, delete_restore_point}
use vmbackupd.LocalBackup.Chain.{
  list_local_full_restore_points_for_reclaim, list_local_restore_points_for_full_chain,
}

abbrev pub and_go_on {ℓ} :
    {A : Type ℓ} {B : Type 0} → Result A × Host → (Host → Result B × Host) → Result B × Host
and_go_on (err e, host) next = (err e, host)
and_go_on (ok a, host) next = next host

abbrev pub is_optimized : SpaceReclaimMode → Bool
is_optimized space_optimized = true
is_optimized safe = false

module _ (paths : Paths) (resolve : String → String)
    (rmtree : String → Entries → Result (Unit {0}) × Entries) (stamp : ℕ) where
  -- `_delete_restore_point` for each.
  unfoldable pub delete_points : List Point → Host → Result (Unit {0}) × Host
  delete_points [] host = (ok tt, host)
  delete_points (p ∷ ps) host =
      and_go_on (delete_restore_point paths resolve rmtree p.id none stamp host) (delete_points ps)

  abbrev pub delete_members :
      String → String → Point → Option String → Host → Result (Unit {0}) × Host
  delete_members job_id storage_id candidate none host = delete_points (candidate ∷ []) host
  delete_members job_id storage_id candidate (some chain_id) host =
      if str_eq chain_id ""
      then delete_points (candidate ∷ []) host
      else delete_points
          (list_local_restore_points_for_full_chain host.db job_id storage_id candidate.id chain_id)
          host

  unfoldable pub delete_chain : String → String → Point → Host → Result (Unit {0}) × Host
  delete_chain job_id storage_id candidate host =
      delete_members job_id storage_id candidate candidate.chain_id host

  unfoldable pub delete_chains : String → String → List Point → Host → Result (Unit {0}) × Host
  delete_chains job_id storage_id [] host = (ok tt, host)
  delete_chains job_id storage_id (c ∷ cs) host =
      and_go_on (delete_chain job_id storage_id c host) (delete_chains job_id storage_id cs)

  unfoldable pub enforce_full_retention :
      RetentionPolicy → String → String → Host → Result (Unit {0}) × Host
  enforce_full_retention policy job_id storage_id host =
      let candidates = list_local_full_restore_points_for_reclaim host.db job_id storage_id in
      let keep = max policy.minimum_full_chains policy.full_chains_to_retain in
      delete_chains job_id storage_id (take (length candidates - keep) candidates) host

  module _ (free_space : Entries → ℕ) (required_bytes reserve_bytes : ℕ) where
    -- `free_bytes - required_bytes >= reserve_bytes`
    abbrev pub is_enough : ℕ → Bool
    is_enough free_bytes = leb (reserve_bytes + required_bytes) free_bytes

    unfoldable pub reclaim_chains : String → String → List Point → ℕ → Host → Result ℕ × Host
    reclaim_chains job_id storage_id [] free_bytes host = (ok free_bytes, host)
    reclaim_chains job_id storage_id (c ∷ cs) free_bytes host =
        and_go_on (delete_chain job_id storage_id c host) (λ h.
          let rest = reclaim_chains job_id storage_id cs (free_space h.entries) h in
          if is_enough (free_space h.entries) then (ok (free_space h.entries), h) else rest)

    unfoldable pub reclaim_for_space :
        RetentionPolicy → String → String → ℕ → Host → Result ℕ × Host
    reclaim_for_space policy job_id storage_id free_bytes host =
        let candidates = list_local_full_restore_points_for_reclaim host.db job_id storage_id in
        if is_enough free_bytes || not (is_optimized policy.space_reclaim_mode)
        then (ok free_bytes, host)
        else reclaim_chains job_id storage_id
            (take (length candidates - policy.minimum_full_chains) candidates) free_bytes host
