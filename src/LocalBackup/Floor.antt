-- ===== src/LocalBackup/Floor.antt =====
-- local_backup_v2.py: the FULL chains that the retention may not delete.
use vmbackupd.Prelude.{
  ℕ, zero, suc, ◌-◌, max, String, Bool, true, not, ◌&&◌, ◌||◌, ◌≡◌, ◌≢◌, refl, sym, subst, ◌∙◌, inl,
  inr, Option, some, List, [], ◌∷◌, map, arith, Bool-cases, both, ◌∈◌, All, AreDistinct, All-of_mem,
  mem-All, mem-map, mem-take, mem-drop, take, drop, filter, mem-of_filter, length,
  find_by-of_distinct, min, Result,
}
use vmbackupd.Prelude.Sort.{mem-of_sort}
use vmbackupd.Models.{RetentionPolicy, BackupKind, full, incremental, is_full}
use vmbackupd.Compact.{Point, Catalog}
use vmbackupd.Compact.Points.{point_id, find_point, point_le}
use vmbackupd.Replica.Executor.{Paths}
use vmbackupd.LocalBackup.Delete.{Entries, Host}
use vmbackupd.LocalBackup.Chain.{is_local, list_local_full_restore_points_for_reclaim}
use vmbackupd.LocalBackup.Effects.{IsRmtree}
use vmbackupd.LocalBackup.Retention.{
  is_optimized, enforce_full_retention, is_enough, reclaim_for_space,
}
use vmbackupd.LocalBackup.Kept.{IsOther, chains-IsKept, reclaimed-IsKept, IsApart, IsKept}

-- What stands before a place and what stands behind it are different.
distinct-take-drop :
    (g : Point → Option String) (n : ℕ) (xs : List Point) (x y : Point)
    → AreDistinct (map g xs)
    → x ∈ take n xs
    → y ∈ drop n xs
    → g x ≢ g y
distinct-take-drop g zero xs x y d m k = absurd m
distinct-take-drop g (suc n) [] x y d m k = absurd m
distinct-take-drop g (suc n) (z ∷ zs) x y d (inl e) k =
    subst (λ w. g w ≢ g y) (sym e)
      (mem-All (λ w. g z ≢ w) (g y) (map g zs) d.0 (mem-map g y zs (mem-drop n y zs k)))
distinct-take-drop g (suc n) (z ∷ zs) x y d (inr m) k = distinct-take-drop g n zs x y d.1 m k

length-drop : (n : ℕ) (xs : List Point) → length (drop n xs) ≡ length xs - n
length-drop zero xs = omega arith
length-drop (suc n) [] = omega arith
length-drop (suc n) (x ∷ xs) = omega (arith, length-drop n xs)

length-kept : (k : ℕ) (xs : List Point) → length (drop (length xs - k) xs) ≡ min k (length xs)
length-kept k xs = omega (arith, length-drop (length xs - k) xs)

mem-candidates :
    (db : Catalog) (job_id storage_id : String) (p : Point)
    → p ∈ list_local_full_restore_points_for_reclaim db job_id storage_id
    → (p ∈ db.points) × (p.kind ≡ full)
unfolding list_local_full_restore_points_for_reclaim
mem-candidates db job_id storage_id p m =
    let test : Point → Bool = λ q. is_local db job_id storage_id q && is_full q.kind in
    let (k, t) =
      mem-of_filter test p db.points (mem-of_sort point_le p (filter test db.points) m) in
    (k, of_full p.kind (both (is_local db job_id storage_id p) (is_full p.kind) t).1)
  where
    of_full : (k : BackupKind) → is_full k ≡ true → k ≡ full
    of_full full h = refl
    of_full incremental h = cc

module _ (paths : Paths) (resolve : String → String)
    (rmtree : String → Entries → Result (Unit {0}) × Entries) (is_rmtree : IsRmtree paths rmtree)
    (stamp : ℕ) (job_id storage_id : String) (host : Host) (apart : IsApart host.db) where
  abbrev full_candidates : List Point
  full_candidates = list_local_full_restore_points_for_reclaim host.db job_id storage_id

  -- A candidate behind the deleted ones stands as it was, if the catalogue has kept it.
  kept_row :
      (f : Point) (db : Catalog) (m : f ∈ full_candidates)
      → IsKept host.db apart f
          (mem-candidates host.db job_id storage_id f m).0
          (mem-candidates host.db job_id storage_id f m).1
          db
      → find_point db f.id ≡ some f
  unfolding find_point
  kept_row f db m k =
      k.same
      ∙ find_by-of_distinct point_id (host.db).points f apart.ids
          (mem-candidates host.db job_id storage_id f m).0

  others :
      (n : ℕ) (f : Point) (m : f ∈ full_candidates)
      → AreDistinct (map (λ p. p.chain_id) full_candidates)
      → f ∈ drop n full_candidates
      → All
          (IsOther host.db apart f
            (mem-candidates host.db job_id storage_id f m).0
            (mem-candidates host.db job_id storage_id f m).1
            paths
            resolve
            rmtree
            is_rmtree
            stamp)
          (take n full_candidates)
  others n f m distinct k = All-of_mem _ (take n full_candidates) (λ c w. (
    (mem-candidates host.db job_id storage_id c (mem-take n c full_candidates w)).0,
    distinct-take-drop (λ p. p.chain_id) n full_candidates c f distinct w k,
  ))

  -- The retention after a backup leaves the newest FULL restore points of the job on its storage, as
  -- many as the greater of the policy's minimum and target, and the reclaim for a backup's space
  -- leaves at least as many as the minimum, or all if there are not so many: whatever is raised on
  -- the way, each of these is found afterwards as it was. The ids of the rows are distinct, a FULL
  -- has no parent, the FULLs of the job have a chain id each, and `rmtree` keeps to its directory.
  pub retention-IsKept :
      (policy : RetentionPolicy) (free_space : Entries → ℕ)
      (required_bytes reserve_bytes free_bytes : ℕ)
      → AreDistinct (map (λ p. p.chain_id) full_candidates)
      → let keep = max policy.minimum_full_chains policy.full_chains_to_retain in
        let enforced =
          enforce_full_retention paths resolve rmtree stamp policy job_id storage_id host in
        let reclaimed =
          reclaim_for_space paths resolve rmtree stamp free_space required_bytes reserve_bytes
            policy job_id storage_id free_bytes host in
        All
          (λ f. find_point enforced.1.db f.id ≡ some f)
          (drop (length full_candidates - keep) full_candidates)
        × (length (drop (length full_candidates - keep) full_candidates)
            ≡ min keep (length full_candidates))
        × All
            (λ f. find_point reclaimed.1.db f.id ≡ some f)
            (drop (length full_candidates - policy.minimum_full_chains) full_candidates)
        × (length (drop (length full_candidates - policy.minimum_full_chains) full_candidates)
            ≡ min policy.minimum_full_chains (length full_candidates))
  unfolding enforce_full_retention reclaim_for_space
  retention-IsKept policy free_space required_bytes reserve_bytes free_bytes distinct =
      let keep = max policy.minimum_full_chains policy.full_chains_to_retain in
      let n = length full_candidates - keep in
      let l = length full_candidates - policy.minimum_full_chains in
      (
        All-of_mem _ (drop n full_candidates) (λ f w.
            let m = mem-drop n f full_candidates w in
            let (a, b) = mem-candidates host.db job_id storage_id f m in
            kept_row f _ m (
              chains-IsKept host.db apart f a b paths resolve rmtree is_rmtree stamp job_id
                storage_id (take n full_candidates) host (others n f m distinct w)
                (record { rows = λ p k. k; same = refl }))),
        length-kept keep full_candidates,
        All-of_mem _ (drop l full_candidates) (λ f w.
            let m = mem-drop l f full_candidates w in
            let (a, b) = mem-candidates host.db job_id storage_id f m in
            kept_row f _ m
              (elim (Bool-cases (
                is_enough paths resolve rmtree stamp free_space required_bytes reserve_bytes
                  free_bytes
                || not (is_optimized policy.space_reclaim_mode))) [
                  | inl e ↦ rw e (record { rows = λ p k. k; same = refl })
                  | inr e ↦ rw e (
                      reclaimed-IsKept host.db apart f a b paths resolve rmtree is_rmtree stamp
                        free_space required_bytes reserve_bytes job_id storage_id
                        (take l full_candidates) free_bytes host (others l f m distinct w)
                        (record { rows = λ p k. k; same = refl }))
                ])),
        length-kept policy.minimum_full_chains full_candidates,
      )
