-- ===== src/Retention/Planner/Links.antt =====
-- What the validation of `RetentionPlanner.plan` establishes of the chains: every point belongs to
-- a chain given, and the parent that a point names is an earlier member of its chain.
use vmbackupd.Prelude.{
  ◌≤◌, ◌≡◌, refl, sym, subst, ◌⊎◌, inl, inr, true, false, not, Option, some, none, String, List, [],
  ◌∷◌, map, arith, leb, leb→le, ◌∈◌, str_eq, eq_iff, filter, any, any-false, mem-of_map, mem-All,
  ok,
}
use vmbackupd.Prelude.Sort.{IsSorted, IsOrder, sort-IsSorted}
use vmbackupd.Models.{BackupChain, RestorePoint, BackupArtifact, RetentionPolicy}
use vmbackupd.Retention.{RetentionPlan}
use vmbackupd.Retention.Planner.{
  contains, optional_eq, members_of, sequence_le, parents_link, validate_members, validate_chains,
  is_orphan, retention_plan, plan,
}
use vmbackupd.Retention.Planner.Members.{contains_iff, mem-members_of}

sequence_le-IsOrder : IsOrder sequence_le
unfolding sequence_le
sequence_le-IsOrder = record { total = λ p q. ground arith; trans = λ p q r h k. ground arith }

members_of-IsSorted :
    (points : List RestorePoint) (c : String) → IsSorted sequence_le (members_of points c)
unfolding members_of
members_of-IsSorted points c =
    sort-IsSorted sequence_le-IsOrder (filter (λ p. str_eq p.chain_id c) points)

optional_eq-some :
    (o e : Option String) (x : String) → optional_eq o e ≡ true → o ≡ some x → e ≡ some x
unfolding optional_eq
optional_eq-some none e x h k = cc
optional_eq-some (some y) none x h k = cc
optional_eq-some (some y) (some z) x h k = let e : y ≡ z = (eq_iff y z).0 h in cc

-- The parent that a member names is expected from outside or is a member that is not after it.
parent-of_link :
    (e : Option String) (ms : List RestorePoint) (p : RestorePoint) (x : String)
    → parents_link e ms ≡ true
    → IsSorted sequence_le ms
    → p ∈ ms
    → p.parent_restore_point_id ≡ some x
    → (e ≡ some x) ⊎ ((q : RestorePoint) × (q ∈ ms) × (q.id ≡ x) × (q.sequence ≤ p.sequence))
unfolding parents_link sequence_le
parent-of_link e [] p x h s m k = absurd m
parent-of_link e (d ∷ ds) p x h s (inl q) k = inl (
    optional_eq-some d.parent_restore_point_id e x (ground arith)
      (subst (λ z. z.parent_restore_point_id ≡ some x) q k))
parent-of_link e (d ∷ ds) p x h s (inr m) k =
    elim (parent-of_link (some d.id) ds p x (ground arith) s.1 m k) [
      | inl j ↦
          let l : leb d.sequence p.sequence ≡ true =
            mem-All (λ y. leb d.sequence y.sequence ≡ true) p ds s.0 m in
          inr (d, inl refl, cc, leb→le d.sequence p.sequence l)
      | inr (q, u, i, b) ↦ inr (q, inr u, i, b)
    ]

links-of_valid :
    (ms : List RestorePoint) → validate_members ms ≡ ok tt → parents_link none ms ≡ true
unfolding validate_members
links-of_valid [] h = unfold parents_link in refl
links-of_valid (p ∷ ps) h = ground arith

valid-of_chains :
    (cs : List BackupChain) (points : List RestorePoint) (c : BackupChain)
    → validate_chains cs points ≡ ok tt
    → c ∈ cs
    → validate_members (members_of points c.id) ≡ ok tt
unfolding validate_chains
valid-of_chains [] points c h m = absurd m
valid-of_chains (d ∷ ds) points c h (inl e) =
    subst (λ z. validate_members (members_of points z.id) ≡ ok tt) (sym e) (ground arith)
valid-of_chains (d ∷ ds) points c h (inr m) = valid-of_chains ds points c (ground arith) m

-- The parent of a point of a valid chain is a point of that chain that is not after it.
pub parent-of_valid :
    (cs : List BackupChain) (points : List RestorePoint) (c : BackupChain) (p : RestorePoint)
    (x : String)
    → validate_chains cs points ≡ ok tt
    → c ∈ cs
    → p ∈ members_of points c.id
    → p.parent_restore_point_id ≡ some x
    → (q : RestorePoint) × (q ∈ members_of points c.id) × (q.id ≡ x) × (q.sequence ≤ p.sequence)
parent-of_valid cs points c p x h m k e =
    let ms = members_of points c.id in
    elim (parent-of_link none ms p x (links-of_valid ms (valid-of_chains cs points c h m))
      (members_of-IsSorted points c.id) k e) [ inl j ↦ cc | inr r ↦ r ]

module _ (chains : List BackupChain) (points : List RestorePoint) (policy : RetentionPolicy)
    (artifacts : Option (List BackupArtifact)) {r : RetentionPlan}
    (planned : plan chains points policy artifacts ≡ ok r) where
  pub plan-eq-ok : r ≡ retention_plan chains points policy artifacts
  unfolding plan
  plan-eq-ok = ground arith

  pub plan-valid : validate_chains chains points ≡ ok tt
  unfolding plan
  plan-valid = ground arith

  no_orphans : any (is_orphan chains) points ≡ false
  unfolding plan
  no_orphans = ground arith

  -- Every point has its chain among those given.
  pub chain-of_point :
      (p : RestorePoint)
      → p ∈ points
      → (c : BackupChain) × (c ∈ chains) × (p ∈ members_of points c.id)
  unfolding is_orphan
  chain-of_point p m =
      let o : not (contains (map (λ c. c.id) chains) p.chain_id) ≡ false =
        any-false (is_orphan chains) p points no_orphans m in
      let (c, u, e) =
        mem-of_map (λ (c : BackupChain). c.id) p.chain_id chains
          ((contains_iff (map (λ c. c.id) chains) p.chain_id).0 (ground arith)) in
      (c, u, (mem-members_of points c.id p).1 (m, e))
