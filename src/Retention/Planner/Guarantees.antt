-- ===== src/Retention/Planner/Guarantees.antt =====
-- What `RetentionPlanner.plan` promises: what it retains, and that what it offers for deletion is
-- not retained and is older than the chains that the policy keeps.
use vmbackupd.Prelude.{
  AreDistinct, map, ℕ, zero, suc, ◌≤◌, ◌≡◌, refl, sym, ap, ◌∙◌, ◌⊎◌, inl, inr, true, false, String,
  List, [], ◌∷◌, ◌++◌, arith, leb→le, length, take, drop, ◌∈◌, All, filter, any, any-false,
  mem-of_filter, mem-append_left, mem-append_right, mem-All, All-of_mem, mem-take, mem-take_or_drop,
}
use vmbackupd.Prelude.Sort.{
  filter-AreDistinct, take-AreDistinct, sort-AreDistinct, IsSorted, IsOrder, sort-IsSorted,
  take-le-drop, mem-of_sort,
}
use vmbackupd.Models.{BackupChain, closed, RestorePoint, RetentionPolicy}
use mathlib.Core.Bool.{false≢true}
use vmbackupd.Retention.Planner.{
  starts_full, contains, members_of, active_retained, members_retained, newest_retained,
  newest_chains, newest_of, newer_chain, is_populated, is_expired, expired_chains, retained_ids,
}
use vmbackupd.Retention.Planner.Members.{contains_iff, mem-members_retained}
use vmbackupd.Retention.Planner.Closure.{mem-close_prefixes}

-- What is retained before the prefixes are closed stays retained.
pub mem-retained_ids :
    (chains : List BackupChain) (points : List RestorePoint) (policy : RetentionPolicy) (x : String)
    → (x ∈ active_retained points chains)
      ⊎ (x
          ∈ members_retained points
              (take policy.full_chains_to_retain (newest_chains points chains)))
    → x ∈ retained_ids chains points policy
unfolding retained_ids
mem-retained_ids chains points policy x h =
    let kept =
      members_retained points (take policy.full_chains_to_retain (newest_chains points chains)) in
    let active_ids = active_retained points chains in
    let newest = newest_retained points policy in
    mem-close_prefixes points chains (kept ++ (active_ids ++ newest)) x (elim h [
      | inl a ↦
          mem-append_right x kept (active_ids ++ newest) (mem-append_left x active_ids newest a)
      | inr k ↦ mem-append_left x kept (active_ids ++ newest) k
    ])

newer_chain-IsOrder : (points : List RestorePoint) → IsOrder (newer_chain points)
unfolding newer_chain
newer_chain-IsOrder points = record {
  total = λ c d. ground arith;
  trans = λ c d e h k. ground arith;
}

newest_chains-IsSorted :
    (points : List RestorePoint) (chains : List BackupChain)
    → IsSorted (newer_chain points) (newest_chains points chains)
unfolding newest_chains
newest_chains-IsSorted points chains =
    sort-IsSorted (newer_chain-IsOrder points) (filter (is_populated points) chains)

mem-of_newest_chains :
    (points : List RestorePoint) (chains : List BackupChain) (c : BackupChain)
    → c ∈ newest_chains points chains
    → (c ∈ chains) × (is_populated points c ≡ true)
unfolding newest_chains
mem-of_newest_chains points chains c m =
    mem-of_filter (is_populated points) c chains
      (mem-of_sort (newer_chain points) c (filter (is_populated points) chains) m)

-- No point of the chain is among the ids.
abbrev pub IsUnretained : List String → List RestorePoint → BackupChain → Type 0
IsUnretained retained points c = All (λ p. ¬ (p.id ∈ retained)) (members_of points c.id)

pub expired-facts :
    (chains : List BackupChain) (points : List RestorePoint) (policy : RetentionPolicy)
    (c : BackupChain)
    → c ∈ expired_chains chains points policy
    → (c ∈ newest_chains points chains)
      × (c.status ≡ closed)
      × IsUnretained (retained_ids chains points policy) points c
unfolding expired_chains is_expired
expired-facts chains points policy c m =
    let retained = retained_ids chains points policy in
    let (u, t) = mem-of_filter (is_expired retained points) c (newest_chains points chains) m in
    (
      u,
      ground arith,
      All-of_mem (λ p. ¬ (p.id ∈ retained)) (members_of points c.id)
          (λ p k j.
            let none_kept : any (λ q. contains retained q.id) (members_of points c.id) ≡ false =
              ground arith in
            let f : contains retained p.id ≡ false =
              any-false (λ q. contains retained q.id) p (members_of points c.id) none_kept k in
            false≢true (sym f ∙ (contains_iff retained p.id).1 j)),
    )

-- The chains that the policy keeps, as a chain that has expired sees them: as many as the policy
-- asks for, each with all its points retained, and none older than the expired one.
pub record IsOutlived (chains : List BackupChain) (points : List RestorePoint)
    (policy : RetentionPolicy) (retained : List String) (c : BackupChain) : Type 0 where
  pub kept : List BackupChain
  pub count : length kept ≡ policy.full_chains_to_retain
  -- No chain is counted twice.
  pub distinct : AreDistinct (map (λ d. d.id) kept)
  pub populated : All (λ d. (p : RestorePoint) × (p ∈ members_of points d.id)) kept
  pub given : All (λ d. d ∈ chains) kept
  pub retains : All (λ d. All (λ p. p.id ∈ retained) (members_of points d.id)) kept
  pub newer : All (λ d. newest_of points c ≤ newest_of points d) kept

take-full : {A : Type 0} (n : ℕ) (xs : List A) (x : A) → x ∈ drop n xs → length (take n xs) ≡ n
take-full zero xs x h = refl
take-full (suc n) [] x h = absurd h
take-full (suc n) (y ∷ ys) x h = ap suc (take-full n ys x h)

kept-members_retained :
    (chains : List BackupChain) (points : List RestorePoint) (policy : RetentionPolicy)
    (d : BackupChain)
    → d ∈ take policy.full_chains_to_retain (newest_chains points chains)
    → All (λ p. p.id ∈ retained_ids chains points policy) (members_of points d.id)
kept-members_retained chains points policy d m =
    All-of_mem (λ p. p.id ∈ retained_ids chains points policy) (members_of points d.id)
      (λ p k. mem-retained_ids chains points policy p.id (
        inr (
          mem-members_retained points
            (take policy.full_chains_to_retain (newest_chains points chains)) d p m k)))

populated-member :
    (points : List RestorePoint) (c : BackupChain)
    → is_populated points c ≡ true
    → (p : RestorePoint) × (p ∈ members_of points c.id)
unfolding is_populated
populated-member points c h = first (members_of points c.id) h
  where
    first : (ms : List RestorePoint) → starts_full ms ≡ true → (p : RestorePoint) × (p ∈ ms)
    first [] h = cc
    first (p ∷ ps) h = (p, inl refl)

pub expired-IsOutlived :
    (chains : List BackupChain) (points : List RestorePoint) (policy : RetentionPolicy)
    (c : BackupChain)
    → AreDistinct (map (λ d. d.id) chains)
    → c ∈ expired_chains chains points policy
    → IsOutlived chains points policy (retained_ids chains points policy) c
unfolding newer_chain newest_chains
expired-IsOutlived chains points policy c unique m =
    let (u, _, free) = expired-facts chains points policy c m in
    let n = policy.full_chains_to_retain in
    let newest = newest_chains points chains in
    let retained = retained_ids chains points policy in
    let dropped : c ∈ drop n newest = elim (mem-take_or_drop n c newest u) [
      | inl k ↦
          let (p, j) = populated-member points c (mem-of_newest_chains points chains c u).1 in
          absurd (
            mem-All (λ q. ¬ (q.id ∈ retained)) p (members_of points c.id) free j
              (mem-All (λ q. q.id ∈ retained) p (members_of points c.id)
                (kept-members_retained chains points policy c k) j))
      | inr k ↦ k
    ] in
    record {
      kept = take n newest;
      count = take-full n newest c dropped;
      distinct =
          take-AreDistinct (λ d. d.id) n newest
            (sort-AreDistinct (λ d. d.id) (newer_chain points) (filter (is_populated points) chains)
              (filter-AreDistinct (λ d. d.id) (is_populated points) chains unique));
      populated =
          All-of_mem (λ d. (p : RestorePoint) × (p ∈ members_of points d.id)) (take n newest)
            (λ d k.
              populated-member points d
                (mem-of_newest_chains points chains d (mem-take n d newest k)).1);
      given =
          All-of_mem (λ d. d ∈ chains) (take n newest)
            (λ d k. (mem-of_newest_chains points chains d (mem-take n d newest k)).0);
      retains =
          All-of_mem (λ d. All (λ p. p.id ∈ retained) (members_of points d.id)) (take n newest)
            (kept-members_retained chains points policy);
      newer =
          All-of_mem (λ d. newest_of points c ≤ newest_of points d) (take n newest)
            (λ d k. leb→le (newest_of points c) (newest_of points d) (
              take-le-drop (newer_chain points) n newest d c (newest_chains-IsSorted points chains)
                k dropped));
    }
