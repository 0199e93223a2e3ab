-- ===== src/Retention/Planner/Safety.antt =====
-- The promises of `RetentionPlanner.plan`, for any plan that it returns.
use vmbackupd.Prelude.{
  AreDistinct, ◌≤◌, ◌≡◌, sym, ap, subst, ◌∙◌, inl, inr, true, Option, some, String, List, ◌++◌, map,
  arith, Option-cases, take, ◌∈◌, filter, mem-of_filter, mem-of_map, mem-All, ok,
}
use vmbackupd.Prelude.Sort.{mem-of_sort}
use vmbackupd.Models.{BackupChain, closed, active, RestorePoint, BackupArtifact, RetentionPolicy}
use vmbackupd.Retention.{RetentionPlan}
use vmbackupd.Retention.Planner.{
  newest_chains, newest_retained, members_of, active_retained, members_retained, expired_chains,
  retained_ids, belongs_to, artifact_le, artifacts_or_empty, selected_artifacts, retention_plan,
  plan,
}
use vmbackupd.Retention.Planner.Members.{
  contains_iff, mem-members_of, mem-active_retained, mem-of_members_retained,
}
use vmbackupd.Retention.Planner.Closure.{HaveUniqueIds, close_prefixes-IsPrefixClosed}
use vmbackupd.Retention.Planner.Links.{parent-of_valid, plan-eq-ok, plan-valid, chain-of_point}
use vmbackupd.Retention.Planner.Guarantees.{
  mem-retained_ids, IsUnretained, expired-facts, IsOutlived, expired-IsOutlived,
}

owner-of_artifact :
    (ids : List String) (a : BackupArtifact)
    → belongs_to ids a ≡ true
    → (pid : String) × (a.restore_point_id ≡ some pid) × (pid ∈ ids)
unfolding belongs_to
owner-of_artifact ids a h = elim (Option-cases a.restore_point_id) [
  | inl e ↦ ground arith
  | inr (pid, e) ↦ (pid, e, (contains_iff ids pid).0 (ground arith))
]

module _ (chains : List BackupChain) (points : List RestorePoint) (policy : RetentionPolicy)
    (artifacts : Option (List BackupArtifact)) {r : RetentionPlan}
    (planned : plan chains points policy artifacts ≡ ok r) where
  retained-eq : r.retained_restore_point_ids ≡ retained_ids chains points policy
  unfolding retention_plan
  retained-eq =
      ap (λ (s : RetentionPlan). s.retained_restore_point_ids)
        (plan-eq-ok chains points policy artifacts planned)

  -- Every restore point of an ACTIVE chain is retained.
  pub plan-retains_active :
      (c : BackupChain) (p : RestorePoint)
      → c ∈ chains
      → c.status ≡ active
      → p ∈ points
      → p.chain_id ≡ c.id
      → p.id ∈ r.retained_restore_point_ids
  plan-retains_active c p m a k e =
      subst (λ ids. p.id ∈ ids) (sym retained-eq)
        (mem-retained_ids chains points policy p.id (
          inl
            (mem-active_retained points chains c p m a ((mem-members_of points c.id p).1 (k, e)))))

  -- If restore point ids are unique, then with a point every point of its chain that is not after
  -- it is retained, and the parent that a retained point names is retained.
  pub plan-retains_dependencies :
      HaveUniqueIds points
      → (p : RestorePoint) → p ∈ points
      → p.id ∈ r.retained_restore_point_ids
      → ((q : RestorePoint)
          → q ∈ points
          → q.chain_id ≡ p.chain_id
          → q.sequence ≤ p.sequence
          → q.id ∈ r.retained_restore_point_ids)
        × ((x : String) → p.parent_restore_point_id ≡ some x → x ∈ r.retained_restore_point_ids)
  unfolding retained_ids
  plan-retains_dependencies unique p m k =
      let (c, u, v) = chain-of_point chains points policy artifacts planned p m in
      let closed_ids =
        close_prefixes-IsPrefixClosed points unique chains
          (members_retained points (take policy.full_chains_to_retain (newest_chains points chains))
            ++ (active_retained points chains ++ newest_retained points policy))
          c u in
      let k' : p.id ∈ retained_ids chains points policy = subst (λ ids. p.id ∈ ids) retained-eq k in
      let in_chain : p.chain_id ≡ c.id = ((mem-members_of points c.id p).0 v).1 in
      (
        λ q n e b.
            subst (λ ids. q.id ∈ ids) (sym retained-eq)
              (closed_ids p q v ((mem-members_of points c.id q).1 (n, e ∙ in_chain)) b k'),
        λ x e.
            let (q, w, i, b) =
              parent-of_valid chains points c p x
                (plan-valid chains points policy artifacts planned) u v e in
            subst (λ ids. x ∈ ids) (sym retained-eq)
              (subst (λ z. z ∈ retained_ids chains points policy) i (closed_ids p q v w b k')),
      )

  expired-of_id :
      (x : String)
      → x ∈ r.expired_chain_ids
      → (c : BackupChain) × (c ∈ expired_chains chains points policy) × (x ≡ c.id)
  unfolding retention_plan
  expired-of_id x m =
      mem-of_map (λ (c : BackupChain). c.id) x (expired_chains chains points policy)
        (subst (λ ids. x ∈ ids)
          (ap (λ (s : RetentionPlan). s.expired_chain_ids)
            (plan-eq-ok chains points policy artifacts planned))
          m)

  -- If chain ids are unique, then a chain that is offered as expired is a CLOSED chain none of whose
  -- points is retained, and as many different chains as the policy asks for, none of them older and
  -- none without restore points, have all their points retained.
  pub plan-expires-IsOutlived :
      AreDistinct (map (λ d. d.id) chains)
      → (x : String) → x ∈ r.expired_chain_ids
      → (c : BackupChain) × (c.id ≡ x)
        × (c.status ≡ closed)
        × IsUnretained r.retained_restore_point_ids points c
        × IsOutlived chains points policy r.retained_restore_point_ids c
  plan-expires-IsOutlived unique x m =
      let (c, u, e) = expired-of_id x m in
      let (_, s, free) = expired-facts chains points policy c u in
      (
        c,
        sym e,
        s,
        subst (λ ids. IsUnretained ids points c) (sym retained-eq) free,
        subst (λ ids. IsOutlived chains points policy ids c) (sym retained-eq)
            (expired-IsOutlived chains points policy c unique u),
      )

  -- An artifact that is offered for deletion is one of those given, and belongs to a restore point
  -- that is not retained.
  pub plan-artifacts_unretained :
      (x : String)
      → x ∈ r.candidate_artifact_ids
      → (a : BackupArtifact) × (a ∈ artifacts_or_empty artifacts)
        × (a.id ≡ x)
        × (pid : String) × (a.restore_point_id ≡ some pid)
        × ¬ (pid ∈ r.retained_restore_point_ids)
  unfolding retention_plan selected_artifacts
  plan-artifacts_unretained x m =
      let expired = expired_chains chains points policy in
      let owned = members_retained points expired in
      let m' : x ∈ map (λ a. a.id) (selected_artifacts chains points policy artifacts) =
        subst (λ ids. x ∈ ids)
          (ap (λ (s : RetentionPlan). s.candidate_artifact_ids)
            (plan-eq-ok chains points policy artifacts planned))
          m in
      let (a, u, e) =
        mem-of_map (λ (a : BackupArtifact). a.id) x
          (selected_artifacts chains points policy artifacts) m' in
      let (v, t) =
        mem-of_filter (belongs_to owned) a (artifacts_or_empty artifacts) (
          mem-of_sort artifact_le a (filter (belongs_to owned) (artifacts_or_empty artifacts)) u) in
      let (pid, f, w) = owner-of_artifact owned a t in
      let (c, cm, p, pm, pe) = mem-of_members_retained points expired pid w in
      let free = (expired-facts chains points policy c cm).2 in
      (
        a,
        v,
        sym e,
        pid,
        f,
        λ j.
            mem-All (λ q. ¬ (q.id ∈ retained_ids chains points policy)) p (members_of points c.id)
              free pm
              (subst (λ z. z ∈ retained_ids chains points policy) pe
                (subst (λ ids. pid ∈ ids) retained-eq j)),
      )
