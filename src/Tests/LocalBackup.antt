-- ===== src/Tests/LocalBackup.antt =====
-- The deletion and the retention of local backups on the host of Tests.Compact.
use vmbackupd.Prelude.{
  any, true, ◌-◌, ◌≡◌, refl, sym, subst, inl, inr, ◌⊎◌, none, some, List, [], ◌∷◌, ◌∈◌, All,
  AreDistinct, map, drop, length, max, min, filter, find_by, lookup, ok,
}
use vmbackupd.Prelude.Sort.{sort, insert, IsSorted}
use vmbackupd.Models.{RetentionPolicy, space_optimized, full}
use vmbackupd.Compact.{Point}
use vmbackupd.Compact.Points.{find_point, find_run, point_le}
use vmbackupd.Compact.Records.{get_storage_destination, find_storage}
use vmbackupd.Replica.Executor.{is_below}
use vmbackupd.LocalBackup.Delete.{
  delete_restore_point, get_local_restore_point_delete_candidate, validated_bundle_path, deletable,
  delete_local_restore_point_catalog, remove_bundle,
}
use vmbackupd.Replica.Deletes.{enqueue_replica_deletes_v2, enqueue_items, published_at, write_tasks}
use vmbackupd.LocalBackup.Deletion.{IsSpared}
use vmbackupd.LocalBackup.Effects.{IsOwn, IsInStorageOf, delete_restore_point-IsConfined}
use vmbackupd.LocalBackup.Deleted.{IsDeleted, delete_restore_point-IsDeleted}
use vmbackupd.LocalBackup.Chain.{
  is_local, full_last, list_local_full_restore_points_for_reclaim,
  list_local_restore_points_for_full_chain,
}
use vmbackupd.LocalBackup.Closed.{IsDescendant, list_local_restore_points_for_full_chain-IsClosed}
use vmbackupd.LocalBackup.Retention.{enforce_full_retention, reclaim_for_space}
use vmbackupd.LocalBackup.Kept.{IsApart}
use vmbackupd.LocalBackup.Floor.{retention-IsKept}
use vmbackupd.Tests.Compact.{
  differ, some_differ, first, second, third, db, paths, entries, host, resolve, rmtree,
  rmtree-IsRmtree,
}

delete_restore_point-IsConfined_example :
    IsSpared "p1" db (delete_restore_point paths resolve rmtree "p1" none 9 host).1.db
    × IsOwn paths resolve rmtree rmtree-IsRmtree "p1" none 9 host
        (delete_restore_point paths resolve rmtree "p1" none 9 host).1.db
    × ((lookup (delete_restore_point paths resolve rmtree "p1" none 9 host).1.entries "/b/2"
          ≡ lookup entries "/b/2")
        ⊎ IsInStorageOf paths resolve rmtree rmtree-IsRmtree db "p1" "/b/2")
delete_restore_point-IsConfined_example =
    delete_restore_point-IsConfined paths resolve rmtree rmtree-IsRmtree "p1" none 9 host "/b/2"

points_of_db :
    (P : Point → Type 0) → P first → P second → P third → (p : Point) → p ∈ db.points → P p
points_of_db P a b c p (inl e) = subst P (sym e) a
points_of_db P a b c p (inr (inl e)) = subst P (sym e) b
points_of_db P a b c p (inr (inr (inl e))) = subst P (sym e) c
points_of_db P a b c p (inr (inr (inr k))) = absurd k

deletes_first : (delete_restore_point paths resolve rmtree "p1" none 9 host).0 ≡ ok "/b/1"
unfolding delete_restore_point deletable get_local_restore_point_delete_candidate
    get_storage_destination find_storage validated_bundle_path is_below remove_bundle
    delete_local_restore_point_catalog find_point find_run find_by lookup enqueue_replica_deletes_v2
    enqueue_items published_at write_tasks any
deletes_first = refl

delete_restore_point-IsDeleted_example :
    IsDeleted paths resolve rmtree rmtree-IsRmtree 9 host "p1" "/b/1"
      (delete_restore_point paths resolve rmtree "p1" none 9 host).1
delete_restore_point-IsDeleted_example =
    delete_restore_point-IsDeleted paths resolve rmtree rmtree-IsRmtree 9 host "p1" "/b/1" none
      (points_of_db (λ p. AreDistinct (map (λ i. i.0) p.replicas)) (tt, tt) (tt, tt) tt)
      deletes_first

list_local_restore_points_for_full_chain-IsClosed_example :
    let chosen = list_local_restore_points_for_full_chain db "j" "s" "p1" "c1" in
    (first ∈ chosen → (first ∈ db.points) × (is_local db "j" "s" first ≡ true))
    × (IsDescendant "p1" (filter (is_local db "j" "s") db.points) first → first ∈ chosen)
    × IsSorted (full_last "p1") chosen
list_local_restore_points_for_full_chain-IsClosed_example =
    list_local_restore_points_for_full_chain-IsClosed db "j" "s" "p1" "c1" first

abbrev policy : RetentionPolicy
policy = record {
  restore_points_to_retain = 0;
  minimum_full_chains = 1;
  full_chains_to_retain = 2;
  space_reclaim_mode = space_optimized;
}

db-IsApart : IsApart db
db-IsApart = record {
  ids = ((differ refl, (differ refl, tt)), ((differ refl, tt), (tt, tt)));
  roots =
      points_of_db (λ p. p.kind ≡ full → p.parent_restore_point_id ≡ none) (λ h. refl) (λ h. refl)
        (λ h. refl);
}

abbrev fulls : List Point
fulls = list_local_full_restore_points_for_reclaim db "j" "s"

fulls-eq : fulls ≡ first ∷ second ∷ third ∷ []
unfolding list_local_full_restore_points_for_reclaim sort insert filter is_local find_run find_by
    point_le
fulls-eq = refl

apart_chains : AreDistinct (map (λ p. p.chain_id) fulls)
apart_chains =
    subst (λ l. AreDistinct (map (λ p. p.chain_id) l)) (sym fulls-eq)
      ((some_differ refl, (some_differ refl, tt)), ((some_differ refl, tt), (tt, tt)))

retention-IsKept_example :
    let enforced = enforce_full_retention paths resolve rmtree 9 policy "j" "s" host in
    let reclaimed = reclaim_for_space paths resolve rmtree 9 (λ es. 7) 5 5 policy "j" "s" 6 host in
    All (λ f. find_point enforced.1.db f.id ≡ some f) (drop (length fulls - max 1 2) fulls)
    × (length (drop (length fulls - max 1 2) fulls) ≡ min (max 1 2) (length fulls))
    × All (λ f. find_point reclaimed.1.db f.id ≡ some f) (drop (length fulls - 1) fulls)
    × (length (drop (length fulls - 1) fulls) ≡ min 1 (length fulls))
retention-IsKept_example =
    retention-IsKept paths resolve rmtree rmtree-IsRmtree 9 "j" "s" host db-IsApart policy (λ es. 7)
      5 5 6 apart_chains
