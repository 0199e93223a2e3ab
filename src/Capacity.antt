-- ===== src/Capacity.antt =====
-- vmbackupd/capacity.py: the physical facts about full chains, collected, and the plan of a job. The
-- inspector of bundles is a parameter, a function from the identity of a bundle to its bytes, which
-- may raise; so is the repository, a record of the five queries. A float percentage is what
-- the code does with it: a test of its range and the integer part of its share.
pub mod Collection
pub mod Report
pub mod Job
use vmbackupd.Prelude.{
  ℕ, ◌+◌, max, String, Bool, true, false, not, ◌&&◌, ◌||◌, Option, none, some, List, [], ◌∷◌, ◌++◌,
  map, ltb, leb, ◌==◌, str_eq, str_le, if◌then◌else◌, filter, any, Result, ok, err, Error,
  value_error, bundle_inspection_error, capacity_planning_error, key_error, raise_if, ◌>>=◌, ◌>>◌,
}
use vmbackupd.Prelude.Sort.{sort}
use vmbackupd.Prelude.Int.{ℤ, pos, is_neg, to_ℕ}
use vmbackupd.Models.{
  BackupChain, BackupChainStatus, active, closed, RestorePoint, RetentionPolicy, is_full,
}
use vmbackupd.Retention.{FullChainCapacity, CapacityReclaimPlan}
use vmbackupd.Retention.CapacityPlanner.{has_duplicates}
use vmbackupd.Retention.CapacityPlanner
use vmbackupd.Retention.Planner.{members_of, are_contiguous, optional_eq, is_orphan, contains}

pub record CapacityInspectionIssue : Type 0 where
  pub chain_id : String
  pub reason : String

pub record FullChainCapacityCollection : Type 0 where
  pub chains : List FullChainCapacity
  pub issues : List CapacityInspectionIssue

-- The bundles of the points that have one.
abbrev pub add_bundle : Option String → List String → List String
add_bundle none bundles = bundles
add_bundle (some b) bundles = b ∷ bundles

unfoldable pub bundles_of : List RestorePoint → List String
bundles_of [] = []
bundles_of (p ∷ ps) = add_bundle p.bundle_object_id (bundles_of ps)

-- The bundles that more than one restore point refers to.
unfoldable pub duplicate_bundles : List String → List String
duplicate_bundles [] = []
duplicate_bundles (b ∷ bs) =
    let rest = duplicate_bundles bs in if contains bs b then b ∷ rest else rest

abbrev pub bundle_problem : List String → Option String → Option String → Option String
bundle_problem duplicates none rest = some "closed chain restore point has no published bundle"
bundle_problem duplicates (some b) rest =
    if contains duplicates b then some "published bundle identity is reused" else rest

-- The loop of `_closed_chain_problem`.
unfoldable pub member_problem : List String → Option String → List RestorePoint → Option String
member_problem duplicates expected [] = none
member_problem duplicates expected (p ∷ ps) =
    let rest = member_problem duplicates (some p.id) ps in
    if not (optional_eq p.parent_restore_point_id expected)
    then some "closed chain restore point dependency is invalid"
    else bundle_problem duplicates p.bundle_object_id rest

unfoldable pub closed_chain_problem : List String → List RestorePoint → Option String
closed_chain_problem duplicates [] = some "closed chain has no restore points"
closed_chain_problem duplicates (p ∷ ps) =
    if not (is_full p.kind) || not (p.sequence == 0)
    then some "closed chain does not start with FULL sequence 0"
    else if not (are_contiguous 0 (p ∷ ps))
    then some "closed chain restore point sequence is not contiguous"
    else member_problem duplicates none (p ∷ ps)

-- `key=lambda value: (value.created_at, value.id)`
unfoldable pub older_chain : BackupChain → BackupChain → Bool
older_chain c d =
    ltb c.created_at d.created_at || (c.created_at == d.created_at && str_le c.id d.id)

abbrev pub fact_of : BackupChain → Option ℕ → FullChainCapacity
fact_of c bytes = record {
  chain_id = c.id;
  status = c.status;
  created_at = c.created_at;
  physical_bytes = bytes;
}

abbrev pub issues_of : BackupChain → Option String → List CapacityInspectionIssue
issues_of c none = []
issues_of c (some problem) = record { chain_id = c.id; reason = problem } ∷ []

abbrev pub is_negative_or_above : ℤ → ℕ → Bool
is_negative_or_above n limit = is_neg n || ltb limit (to_ℕ n)

module _ (inspect : String → Result ℕ) where
  abbrev pub add_bytes : Result ℕ → Result ℕ → Result ℕ
  add_bytes (err e) rest = err e
  add_bytes (ok n) (err e) = err e
  add_bytes (ok n) (ok m) = ok (n + m)

  abbrev pub bytes_with : Option String → Result ℕ → Result ℕ
  bytes_with none rest = rest
  bytes_with (some b) rest = add_bytes (inspect b) rest

  -- The sum over the members that have a bundle.
  unfoldable pub sum_bytes : List RestorePoint → Result ℕ
  sum_bytes [] = ok 0
  sum_bytes (p ∷ ps) = bytes_with p.bundle_object_id (sum_bytes ps)

  -- `except BundleInspectionError`: any other exception goes on.
  abbrev pub caught : Result ℕ → Result (Option ℕ × Option String)
  caught (ok n) = ok (some n, none)
  caught (err (bundle_inspection_error text)) = ok (none, some text)
  caught (err e) = err e

  abbrev pub size_members : Option String → List RestorePoint → Result (Option ℕ × Option String)
  size_members (some problem) members = ok (none, some problem)
  size_members none members = caught (sum_bytes members)

  -- The bytes and the problem of a chain; an ACTIVE chain is not inspected.
  abbrev pub size_status :
      BackupChainStatus → List String → List RestorePoint → Result (Option ℕ × Option String)
  size_status active duplicates members = ok (none, none)
  size_status closed duplicates members =
      size_members (closed_chain_problem duplicates members) members

  abbrev pub add_fact :
      BackupChain
      → Result (Option ℕ × Option String)
      → Result FullChainCapacityCollection
      → Result FullChainCapacityCollection
  add_fact c (err e) rest = err e
  add_fact c (ok sized) (err e) = err e
  add_fact c (ok sized) (ok rest) = ok (record {
    chains = fact_of c sized.0 ∷ rest.chains;
    issues = issues_of c sized.1 ++ rest.issues;
  })

  unfoldable pub collect_chains :
      List String → List RestorePoint → List BackupChain → Result FullChainCapacityCollection
  collect_chains duplicates points [] = ok (record { chains = []; issues = [] })
  collect_chains duplicates points (c ∷ cs) =
      add_fact c (size_status c.status duplicates (members_of points c.id))
        (collect_chains duplicates points cs)

  -- `FullChainCapacityCollector.collect`
  unfoldable pub collect : List BackupChain → List RestorePoint → Result FullChainCapacityCollection
  collect chains points = do
    raise_if (has_duplicates (map (λ c. c.id) chains)) (value_error "duplicate backup chain IDs")
    raise_if (any (is_orphan chains) points)
        (value_error "restore point has no supplied chain metadata")
    collect_chains (duplicate_bundles (bundles_of points)) points (sort older_chain chains)

pub record Percent : Type 0 where
  -- `0 <= percent <= 100`
  pub in_range : Bool
  -- `int(total * percent / 100)`
  pub share : ℕ → ℕ

pub record StorageDestination : Type 0 where
  pub id : String
  pub minimum_free_bytes : ℤ
  pub minimum_free_percent : Percent

pub record BackupJob : Type 0 where
  pub id : String
  pub vm_id : String
  pub storage_destination_id : Option String
  pub retention_policy : RetentionPolicy

pub record Vm : Type 0 where
  pub id : String
  pub node_id : String

-- The queries of `SQLiteRepository` that the service makes.
pub record JobRepository : Type 0 where
  pub get_job : String → Result BackupJob
  pub get_vm : String → Result Vm
  pub get_storage_destination : String → String → Result StorageDestination
  pub list_chains : String → List BackupChain
  pub list_restore_points : String → List RestorePoint

pub record JobCapacityPlan : Type 0 where
  pub job_id : String
  pub vm_id : String
  pub storage_destination_id : String
  pub total_bytes : ℕ
  pub chains : List FullChainCapacity
  pub inspection_issues : List CapacityInspectionIssue
  pub reclaim_plan : CapacityReclaimPlan

-- `except KeyError`
abbrev pub missing_destination : Result StorageDestination → Result StorageDestination
missing_destination (err (key_error text)) =
    err (capacity_planning_error "backup job storage destination is missing")
missing_destination found = found

abbrev pub destination_id : Option String → Result String
destination_id none = err (capacity_planning_error "backup job has no storage destination")
destination_id (some id) = ok id

abbrev pub reserve_of : StorageDestination → ℕ → ℕ
reserve_of d total = max (to_ℕ d.minimum_free_bytes) (d.minimum_free_percent.share total)

module _ (inspect : String → Result ℕ) (repository : JobRepository) where
  -- The part of `plan_job` that follows the lookup of the destination.
  unfoldable pub plan_at : BackupJob → Vm → StorageDestination → ℤ → ℕ → ℤ → Result JobCapacityPlan
  plan_at job vm destination free total required = do
    raise_if
        (is_neg destination.minimum_free_bytes || not destination.minimum_free_percent.in_range)
        (capacity_planning_error "storage destination reserve policy is invalid")
    collection ←
        collect inspect (repository.list_chains vm.id) (repository.list_restore_points vm.id)
    reclaim_plan ←
        CapacityPlanner.plan collection.chains free (pos (reserve_of destination total)) required
          job.retention_policy
    ok (record {
      job_id = job.id;
      vm_id = vm.id;
      storage_destination_id = destination.id;
      total_bytes = total;
      chains = collection.chains;
      inspection_issues = collection.issues;
      reclaim_plan = reclaim_plan;
    })

  -- `CapacityPlanningService.plan_job`
  unfoldable pub plan_job : String → ℤ → ℤ → ℤ → Result JobCapacityPlan
  plan_job job_id free total required = do
    raise_if (leb (to_ℕ total) 0) (capacity_planning_error "total_bytes must be positive")
    raise_if (is_negative_or_above free (to_ℕ total))
        (capacity_planning_error "free_bytes must be between zero and total_bytes")
    raise_if (is_neg required)
        (capacity_planning_error "required_backup_bytes must be non-negative")
    job ← repository.get_job job_id
    vm ← repository.get_vm job.vm_id
    storage_id ← destination_id job.storage_destination_id
    destination ← missing_destination (repository.get_storage_destination vm.node_id storage_id)
    plan_at job vm destination free (to_ℕ total) required
