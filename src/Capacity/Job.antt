-- ===== src/Capacity/Job.antt =====
-- vmbackupd/capacity.py, `CapacityPlanningService.plan_job`: what a plan for a job may give up.
use vmbackupd.Prelude.{
  min, length-map, value_error, key_error, runtime_error, domain_invariant_error,
  invalid_transition, bundle_inspection_error, type_error, backup_catalog_error, integrity_error, ℕ,
  ◌+◌, ◌≤◌, ◌<◌, ◌≡◌, sym, ap, subst, ◌∙◌, inl, inr, true, false, max, ◌||◌, not, arith, leb,
  Option, some, none, String, mem-of_map, Bool-cases, ◌∈◌, is_some, length, Result, Result-cases,
  ok, err, capacity_planning_error, ◌>>=◌,
}
use vmbackupd.Prelude.Int.{ℤ, pos, is_neg, to_ℕ}
use vmbackupd.Models.{BackupChain, active, closed}
use vmbackupd.Retention.{FullChainCapacity, CapacityReclaimPlan}
use vmbackupd.Retention.CapacityPlanner
use vmbackupd.Retention.CapacityPlanner.Guarantees.{plan-IsOldestCover, plan-KeepsFloor}
use vmbackupd.Retention.Planner.{members_of}
use vmbackupd.Capacity.{
  FullChainCapacityCollection, sum_bytes, collect, StorageDestination, BackupJob, Vm, JobRepository,
  JobCapacityPlan, missing_destination, destination_id, reserve_of, is_negative_or_above, plan_at,
  plan_job,
}
use vmbackupd.Capacity.Collection.{IsSound}
use vmbackupd.Capacity.Report.{collect-IsFact, collect-length, IsFact}

of_destination_id :
    (o : Option String) (storage_id : String)
    → destination_id o ≡ ok storage_id
    → o ≡ some storage_id
of_destination_id none storage_id h = cc
of_destination_id (some x) storage_id h = cc

of_missing :
    (r : Result StorageDestination) (d : StorageDestination)
    → missing_destination r ≡ ok d
    → r ≡ ok d
of_missing (ok x) d h = h
of_missing (err (value_error text)) d h = cc
of_missing (err (key_error text)) d h = cc
of_missing (err (runtime_error text)) d h = cc
of_missing (err (domain_invariant_error text)) d h = cc
of_missing (err (capacity_planning_error text)) d h = cc
of_missing (err (invalid_transition text)) d h = cc
of_missing (err (bundle_inspection_error text)) d h = cc
of_missing (err (type_error text)) d h = cc
of_missing (err (backup_catalog_error code text)) d h = cc
of_missing (err (integrity_error text)) d h = cc

module _ (inspect : String → Result ℕ) (repository : JobRepository) where
  -- A chain of the virtual machine that is closed, sound and measured.
  abbrev pub IsMeasured : String → String → Type 0
  IsMeasured vm_id chain_id =
      (c : BackupChain) × (c ∈ repository.list_chains vm_id)
      × (c.id ≡ chain_id)
      × (c.status ≡ closed)
      × IsSound (repository.list_restore_points vm_id)
          (members_of (repository.list_restore_points vm_id) c.id)
      × (n : ℕ) × (sum_bytes inspect (members_of (repository.list_restore_points vm_id) c.id)
          ≡ ok n)

  sized-IsMeasured :
      (vm_id : String) (f : FullChainCapacity)
      → IsFact inspect (repository.list_restore_points vm_id) (repository.list_chains vm_id) f
      → f.status ≡ closed
      → is_some f.physical_bytes ≡ true
      → IsMeasured vm_id f.chain_id
  sized-IsMeasured vm_id f (c, bytes, problem, m, q, inl (a, b, p)) st sized =
      let clash : active ≡ closed = sym a ∙ sym (ap (λ z. z.status) q) ∙ st in cc
  sized-IsMeasured vm_id f (c, bytes, problem, m, q, inr (cl, inl (reason, b, p))) st sized =
      let unsized : f.physical_bytes ≡ none = ap (λ z. z.physical_bytes) q ∙ b in
      let clash : false ≡ true = rw unsized at sized in cc
  sized-IsMeasured vm_id f (c, bytes, problem, m, q, inr (cl, inr (n, b, p, sound, s))) st sized =
      (c, m, sym (ap (λ z. z.chain_id) q), cl, sound, n, s)

  -- What a plan for a job promises: what it selects, the room it makes, and the chains it leaves.
  pub record IsCareful (job : BackupJob) (vm : Vm) (destination : StorageDestination)
      (free total required : ℕ) (p : CapacityReclaimPlan) : Type 0 where
    pub measured :
        (chain_id : String) → chain_id ∈ p.selected_reclaim_chain_ids → IsMeasured vm.id chain_id
    pub room :
        0 < length p.selected_reclaim_chain_ids
        → required
            + max
                (to_ℕ destination.minimum_free_bytes)
                (destination.minimum_free_percent.share total)
          ≤ free + p.selected_reclaim_bytes
    pub floor :
        min (length (repository.list_chains vm.id)) job.retention_policy.minimum_full_chains
          + length p.selected_reclaim_chain_ids
        ≤ length (repository.list_chains vm.id)

  planned-IsCareful :
      (job : BackupJob) (vm : Vm) (destination : StorageDestination) (free : ℤ) (total : ℕ)
      (required : ℤ) (col : FullChainCapacityCollection) (p : CapacityReclaimPlan)
      → collect inspect (repository.list_chains vm.id) (repository.list_restore_points vm.id)
        ≡ ok col
      → CapacityPlanner.plan col.chains free
          (pos (reserve_of destination total))
          required
          job.retention_policy
        ≡ ok p
      → IsCareful job vm destination (to_ℕ free) total (to_ℕ required) p
  planned-IsCareful job vm destination free total required col p k h =
      let reserve = pos (reserve_of destination total) in
      let cover = plan-IsOldestCover col.chains free reserve required job.retention_policy h in
      let (sum_up, least) =
        plan-KeepsFloor col.chains free reserve required job.retention_policy h in
      let counted : length col.chains ≡ length (repository.list_chains vm.id) =
        collect-length inspect (repository.list_restore_points vm.id) (repository.list_chains vm.id)
          col k in
      let chosen_ids : length p.selected_reclaim_chain_ids ≡ length cover.chosen =
        ap length cover.names ∙ length-map cover.chosen (λ c. c.chain_id) in
      record {
        measured = λ chain_id m.
            let (f, n, e) =
              mem-of_map (λ (c : FullChainCapacity). c.chain_id) chain_id cover.chosen
                (subst (λ l. chain_id ∈ l) cover.names m) in
            let (w, st, sized) = (cover.split f).1 (inl n) in
            subst (IsMeasured vm.id) (sym e) (
              sized-IsMeasured vm.id f
                (collect-IsFact inspect (repository.list_restore_points vm.id)
                  (repository.list_chains vm.id) col k f w)
                st sized);
        room = λ some_selected.
            omega (arith, cover.covers (omega (arith, chosen_ids, some_selected)), cover.freed);
        floor = omega (arith, sum_up, least, counted);
      }

  plan_at-IsCareful :
      (job : BackupJob) (vm : Vm) (destination : StorageDestination) (free : ℤ) (total : ℕ)
      (required : ℤ) (p : JobCapacityPlan)
      → plan_at inspect repository job vm destination free total required ≡ ok p
      → IsCareful job vm destination (to_ℕ free) total (to_ℕ required) p.reclaim_plan
  unfolding plan_at
  plan_at-IsCareful job vm destination free total required p h =
      let bad =
        is_neg destination.minimum_free_bytes || not destination.minimum_free_percent.in_range in
      let found =
        collect inspect (repository.list_chains vm.id) (repository.list_restore_points vm.id) in
      elim (Bool-cases bad) [
        | inl t ↦ let h' : err _ ≡ ok p = rw t at h in cc
        | inr f ↦ elim (Result-cases found) [
          | inr (e, k) ↦ let h' : err e ≡ ok p = rw (f, k) at h in cc
          | inl (col, k) ↦
              let planned =
                CapacityPlanner.plan col.chains free (pos (reserve_of destination total)) required
                  job.retention_policy in
              elim (Result-cases planned) [
                | inr (e, q) ↦ let h' : err e ≡ ok p = rw (f, k, q) at h in cc
                | inl (reclaim, q) ↦
                    let full : JobCapacityPlan = record {
                      job_id = job.id;
                      vm_id = vm.id;
                      storage_destination_id = destination.id;
                      total_bytes = total;
                      chains = col.chains;
                      inspection_issues = col.issues;
                      reclaim_plan = reclaim;
                    } in
                    let h' : ok full ≡ ok p = rw (f, k, q) at h in
                    let same : full ≡ p = cc in
                    subst
                      (λ z.
                        IsCareful job vm destination (to_ℕ free) total (to_ℕ required)
                          z.reclaim_plan)
                      same
                      (planned-IsCareful job vm destination free total required col reclaim k q)
              ]
        ]
      ]

  abbrev pub PlansFor : String → ℤ → ℤ → ℤ → JobCapacityPlan → Type 0
  PlansFor job_id free total required p =
      (job : BackupJob) × (vm : Vm) × (storage_id : String) × (destination : StorageDestination)
      × (repository.get_job job_id ≡ ok job)
      × (repository.get_vm job.vm_id ≡ ok vm)
      × (job.storage_destination_id ≡ some storage_id)
      × (repository.get_storage_destination vm.node_id storage_id ≡ ok destination)
      × IsCareful job vm destination (to_ℕ free) (to_ℕ total) (to_ℕ required) p.reclaim_plan

  abbrev looks_up : String → ℤ → ℕ → ℤ → Result JobCapacityPlan
  looks_up job_id free total required = do
    job ← repository.get_job job_id
    vm ← repository.get_vm job.vm_id
    storage_id ← destination_id job.storage_destination_id
    destination ← missing_destination (repository.get_storage_destination vm.node_id storage_id)
    plan_at inspect repository job vm destination free total required

  looked_up :
      (job_id : String) (free total required : ℤ) (p : JobCapacityPlan)
      → looks_up job_id free (to_ℕ total) required ≡ ok p
      → PlansFor job_id free total required p
  looked_up job_id free total required p h = elim (Result-cases (repository.get_job job_id)) [
    | inr (e, k) ↦ let h' : err e ≡ ok p = rw k at h in cc
    | inl (job, k) ↦ elim (Result-cases (repository.get_vm job.vm_id)) [
      | inr (e, l) ↦ let h' : err e ≡ ok p = rw (k, l) at h in cc
      | inl (vm, l) ↦ elim (Result-cases (destination_id job.storage_destination_id)) [
        | inr (e, m) ↦ let h' : err e ≡ ok p = rw (k, l, m) at h in cc
        | inl (id, m) ↦
            elim (Result-cases
              (missing_destination (repository.get_storage_destination vm.node_id id))) [
                | inr (e, n) ↦ let h' : err e ≡ ok p = rw (k, l, m, n) at h in cc
                | inl (destination, n) ↦ (
                  job,
                  vm,
                  id,
                  destination,
                  k,
                  l,
                  of_destination_id job.storage_destination_id id m,
                  of_missing (repository.get_storage_destination vm.node_id id) destination n,
                  plan_at-IsCareful job vm destination free (to_ℕ total) required p
                      (rw (k, l, m, n) at h),
                )
              ]
      ]
    ]
  ]

  -- If a plan for a job is returned, it is for the job, the virtual machine and the destination
  -- that are stored; every chain that it selects is a closed chain of that machine, sound and with
  -- the bytes of its bundles measured; if it selects any, the free bytes with the selected ones
  -- hold the backup and the greater of both reserves of the destination; and of the machine's
  -- chains at least `minimum_full_chains`, or all where there are fewer, are not selected.
  pub plan_job-PlansFor :
      (job_id : String) (free total required : ℤ) (p : JobCapacityPlan)
      → plan_job inspect repository job_id free total required ≡ ok p
      → PlansFor job_id free total required p
  unfolding plan_job
  plan_job-PlansFor job_id free total required p h = elim (Bool-cases (leb (to_ℕ total) 0)) [
    | inl t ↦ let h' : err _ ≡ ok p = rw t at h in cc
    | inr a ↦ elim (Bool-cases (is_negative_or_above free (to_ℕ total))) [
      | inl t ↦ let h' : err _ ≡ ok p = rw (a, t) at h in cc
      | inr b ↦ elim (Bool-cases (is_neg required)) [
        | inl t ↦ let h' : err _ ≡ ok p = rw (a, b, t) at h in cc
        | inr c ↦ looked_up job_id free total required p (rw (a, b, c) at h)
      ]
    ]
  ]
