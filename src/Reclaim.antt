-- ===== src/Reclaim.antt =====
-- vmbackupd/reclaim_executor_v2.py over capacity_adapter_v2.py: the workflow that frees space, one
-- checkpoint at a time. A call of `execute` takes the details that the task persisted and returns
-- its status with the details to persist; what the repository and the adapters have done stays
-- done when it raises.
pub mod Phases
pub mod Deletion
pub mod Progress
pub mod Stall
use vmbackupd.Prelude.{
  ℕ, String, Bool, true, false, Option, none, some, List, [], ◌∷◌, ◌++◌, leb, str_eq, get_or,
  if◌then◌else◌, any, Result, ok, err,
}
use vmbackupd.Host.{Host}
use vmbackupd.Repository.{Candidate, ReclaimPlan, Verification, Details, Db}
use vmbackupd.Repository.Points.{get_storage_root, list_reclaim_candidates}
use vmbackupd.Purge.{PurgeResult, System, delete_restore_point}

pub data TaskStatus : Type 0 where
  checkpoint_saved space_available resumed : TaskStatus

-- Which of the task's collaborators are there; the adapters have the task's repository.
pub record Adapters : Type 0 where
  pub has_repository : Bool
  pub has_purge : Bool
  pub has_capacity : Bool

abbrev pub empty_plan : ReclaimPlan
empty_plan = record { candidates = none; selected_bytes = none; deleted = none }

abbrev pub phase_of : Details → String
phase_of d = get_or d.phase "START"

abbrev pub plan_of : Details → ReclaimPlan
plan_of d = get_or d.reclaim_plan empty_plan

abbrev pub candidates_of : Details → List Candidate
candidates_of d = get_or (plan_of d).candidates []

abbrev pub is_pending : Candidate → Bool
is_pending c = str_eq (get_or c.status "") "PENDING"

unfoldable pub start_step : Details → TaskStatus × Details
start_step d = (
  checkpoint_saved,
  record d {
    phase = some "SELECTING";
    reclaim_plan =
        some (record { candidates = some []; selected_bytes = some 0; deleted = some [] });
  },
)

unfoldable pub selecting_step : Adapters → Db → Details → TaskStatus × Details
selecting_step adapters db d =
    let found = if adapters.has_repository then list_reclaim_candidates d.storage_id db else [] in
    (
      checkpoint_saved,
      record d {
        phase = some "PLAN_READY";
        reclaim_plan = some (record (plan_of d) { candidates = some found });
      },
    )

unfoldable pub plan_ready_step : Details → TaskStatus × Details
plan_ready_step d = (checkpoint_saved, record d { phase = some "PURGING" })

abbrev pub keep_key : Option (List Candidate) → List Candidate → Option (List Candidate)
keep_key none cs = none
keep_key (some _) cs = some cs

-- The plan that PURGING stores: a plan without the key `candidates` gets none.
unfoldable pub purged_plan : ReclaimPlan → List Candidate → List String → ReclaimPlan
purged_plan plan cs gone = record plan {
  candidates = keep_key plan.candidates cs;
  deleted = some gone;
}

unfoldable pub after_purge : Details → List Candidate × List String → TaskStatus × Details
unfolding purged_plan
after_purge d (cs, gone) =
    let d' = record d { reclaim_plan = some (purged_plan (plan_of d) cs gone) } in
    if any is_pending cs
    then (checkpoint_saved, d')
    else (checkpoint_saved, record d' { phase = some "VERIFY" })

unfoldable pub verified : Details → ℕ → TaskStatus × Details
verified d free =
    let required = get_or d.required_bytes 0 in
    let d' = record d {
      verification = some (record { free_bytes = free; required_bytes = required });
    } in
    if leb required free
    then (space_available, d')
    else (checkpoint_saved, record d' { phase = some "PURGING" })

-- The candidate that was purged, in front of those behind it.
abbrev pub mark_done :
    Candidate
    → List Candidate
    → List String
    → Result PurgeResult
    → Result (List Candidate × List String)
mark_done c cs gone (err e) = err e
mark_done c cs gone (ok _) =
    ok (record c { status = some "DONE" } ∷ cs, gone ++ c.restore_point_id ∷ [])

abbrev pub keep_candidate :
    Candidate → Result (List Candidate × List String) → Result (List Candidate × List String)
keep_candidate c (err e) = err e
keep_candidate c (ok (cs, gone)) = ok (c ∷ cs, gone)

abbrev pub with_details :
    (List Candidate × List String → TaskStatus × Details)
    → Result (List Candidate × List String)
    → Result (TaskStatus × Details)
with_details after (err e) = err e
with_details after (ok r) = ok (after r)

abbrev pub verify_with : Details → Result ℕ → Result (TaskStatus × Details)
verify_with d (err e) = err e
verify_with d (ok free) = ok (verified d free)

module _ (h : Host) where
  abbrev space_of : h.World → Option String → Result ℕ
  space_of w none = ok 0
  space_of w (some root) = if str_eq root "" then ok 0 else h.free_space w root

  abbrev root_of : Db → Option String → Option String
  root_of db none = none
  root_of db (some storage_id) = get_storage_root storage_id db

  -- `CapacityAdapter(repository).get_free_bytes(storage_id)`
  unfoldable pub get_free_bytes : Option String → System h → Result ℕ
  get_free_bytes storage_id s = space_of s.world (root_of s.db storage_id)

  -- The adapter's result is not looked at.
  unfoldable pub purge_candidate : Adapters → Candidate → System h → Result PurgeResult × System h
  purge_candidate adapters c s =
      if adapters.has_purge
      then delete_restore_point h true c s
      else (ok (PurgeResult.not_deleted ""), s)

  -- The loop of PURGING, which ends at the first pending candidate.
  unfoldable pub purge_first :
      Adapters
      → List Candidate
      → List String
      → System h
      → Result (List Candidate × List String) × System h
  purge_first adapters [] gone s = (ok ([], gone), s)
  purge_first adapters (c ∷ cs) gone s =
      let rest = purge_first adapters cs gone s in
      let (result, s') = purge_candidate adapters c s in
      if is_pending c then (mark_done c cs gone result, s') else (keep_candidate c rest.0, rest.1)

  unfoldable pub purging_step :
      Adapters → Details → System h → Result (TaskStatus × Details) × System h
  purging_step adapters d s =
      let (result, s') = purge_first adapters (candidates_of d) (get_or (plan_of d).deleted []) s in
      (with_details (after_purge d) result, s')

  unfoldable pub verify_step : Adapters → Details → System h → Result (TaskStatus × Details)
  verify_step adapters d s =
      verify_with d (if adapters.has_capacity then get_free_bytes d.storage_id s else ok 0)

  -- `ReclaimRecoveryExecutor.execute`
  unfoldable pub execute : Adapters → Details → System h → Result (TaskStatus × Details) × System h
  execute adapters d s =
      let phase = phase_of d in
      if str_eq phase "START"
      then (ok (start_step d), s)
      else if str_eq phase "SELECTING"
      then (ok (selecting_step adapters s.db d), s)
      else if str_eq phase "PURGING"
      then purging_step adapters d s
      else if str_eq phase "PLAN_READY"
      then (ok (plan_ready_step d), s)
      else if str_eq phase "VERIFY"
      then (verify_step adapters d s, s)
      else (ok (space_available, d), s)
