-- ===== src/Tests/Replica.antt =====
-- The replica queue and its executors on the catalogue of Tests.Compact.
use vmbackupd.Prelude.{
  ◌≤◌, String, ◌≡◌, refl, sym, subst, inl, inr, none, some, List, [], ◌∷◌, ◌∈◌, arith, AreDistinct,
  map, Option-cases, mem-of_lookup, mem-of_find_by, filter, find_by, lookup,
}
use vmbackupd.Prelude.Sort.{sort, insert}
use vmbackupd.Compact.{DeleteTask, Run}
use vmbackupd.Compact.Points.{
  run_id_of, find_point, find_run, is_on_node, is_ssh_destination, point_le,
}
use vmbackupd.Replica.Queue.{
  ReplicaWork, work_of, judge, replica_parent_state, scan_replicas, scan_points, available_points,
  claim_next_replica_v2,
}
use vmbackupd.Replica.Claim.{IsClaimed, claim_next_replica_v2-IsClaimed}
use vmbackupd.Replica.Executor.{run_once}
use vmbackupd.Replica.Progress.{IsBounded, AreBounded, run_once-AreBounded}
use vmbackupd.Replica.Settled.{attempt, IsOutcome, run_once-IsOutcome}
use vmbackupd.Replica.Tries.{tries}
use vmbackupd.Replica.Deletes.{
  claim_next_replica_delete_v2, delete_once, enqueue_replica_deletes_v2, run_tasks,
}
use vmbackupd.Replica.Due.{task_at, IsKeyed}
use vmbackupd.Replica.Attempts.{IsStep, delete_once-IsStep}
use vmbackupd.Replica.Cap.{IsCapped, AreCapped, start, recorded, attempted, Reaches-AreCapped}
use vmbackupd.Tests.Compact.{
  differ, waiting, sent, second, open_task, db, paths, client, delete_client,
}

abbrev work : ReplicaWork
work = work_of second "d1" waiting

claims_second : (claim_next_replica_v2 "n" 5 db).0 ≡ some work
unfolding claim_next_replica_v2 available_points scan_points scan_replicas judge
    replica_parent_state is_ssh_destination find_run find_point is_on_node sort insert filter
    find_by lookup point_le
claims_second = refl

claim_next_replica_v2-IsClaimed_example : IsClaimed "n" 5 db work (claim_next_replica_v2 "n" 5 db).1
claim_next_replica_v2-IsClaimed_example =
    claim_next_replica_v2-IsClaimed "n" 5 db work claims_second

db-AreBounded : AreBounded db
db-AreBounded p (inl e) item m = item_of (subst (λ z. item ∈ z.replicas) e m)
  where
    item_of : item ∈ (("d1", sent) ∷ []) → IsBounded item.1
    item_of (inl q) = subst (λ z. IsBounded z.1) (sym q) (omega arith)
    item_of (inr k) = absurd k
db-AreBounded p (inr (inl e)) item m = item_of (subst (λ z. item ∈ z.replicas) e m)
  where
    item_of : item ∈ (("d1", waiting) ∷ []) → IsBounded item.1
    item_of (inl q) = subst (λ z. IsBounded z.1) (sym q) (omega arith)
    item_of (inr k) = absurd k
db-AreBounded p (inr (inr (inl e))) item m = absurd (subst (λ z. item ∈ z.replicas) e m)
db-AreBounded p (inr (inr (inr k))) item m = absurd k

run_once-AreBounded_example : AreBounded (run_once paths client "n" 5 db).1
run_once-AreBounded_example = run_once-AreBounded paths client "n" 5 db db-AreBounded

run_once-IsOutcome_example :
    IsOutcome paths client "n" 5 work
      (attempt paths client "n" 5 work (claim_next_replica_v2 "n" 5 db).1)
      (run_once paths client "n" 5 db)
run_once-IsOutcome_example = run_once-IsOutcome paths client "n" 5 work db claims_second

tasks_of_db :
    (P : List (String × DeleteTask) → Type 0)
    → P []
    → P (("d1", open_task) ∷ [])
    → (r : Run) → r ∈ db.runs
    → P r.replica_delete_tasks
tasks_of_db P a b r (inl e) = subst (λ z. P z.replica_delete_tasks) (sym e) a
tasks_of_db P a b r (inr (inl e)) = subst (λ z. P z.replica_delete_tasks) (sym e) a
tasks_of_db P a b r (inr (inr (inl e))) = subst (λ z. P z.replica_delete_tasks) (sym e) b
tasks_of_db P a b r (inr (inr (inr k))) = absurd k

db-IsKeyed : IsKeyed db
db-IsKeyed = record {
  runs = ((differ refl, (differ refl, tt)), ((differ refl, tt), (tt, tt)));
  tasks = tasks_of_db (λ l. AreDistinct (map (λ i. i.0) l)) tt (tt, tt);
}

delete_once-IsStep_example : IsStep delete_client "n" 5 6 db (delete_once delete_client "n" 5 6 db)
delete_once-IsStep_example = delete_once-IsStep delete_client "n" 5 6 db db-IsKeyed

open-IsCapped : (item : String × DeleteTask) → item ∈ (("d1", open_task) ∷ []) → IsCapped item.1
open-IsCapped item (inl e) =
    subst (λ (z : String × DeleteTask). IsCapped z.1) (sym e) (omega arith, λ k. omega arith)
open-IsCapped item (inr k) = absurd k

db-AreCapped : AreCapped db
unfolding run_tasks lookup find_run
db-AreCapped run_id destination_id t h = elim (Option-cases (find_by run_id_of db.runs run_id)) [
  | inl e ↦ let h' : none ≡ some t = rw e at h in cc
  | inr (r, e) ↦
      tasks_of_db (λ l. lookup l destination_id ≡ some t → IsCapped t) (λ k. cc)
        (λ k.
          open-IsCapped (destination_id, t)
            (mem-of_lookup (("d1", open_task) ∷ []) destination_id t k))
        r (mem-of_find_by run_id_of db.runs run_id r e).0 (rw e at h)
]

no_tombstone : task_at db "r1" "d1" ≡ none
unfolding run_tasks lookup find_run find_by
no_tombstone = refl

Reaches-AreCapped_example :
    AreCapped (delete_once delete_client "n" 7 8 (enqueue_replica_deletes_v2 "p1" 5 db).1).1
    × (tries "r1" "d1" 0
          (claim_next_replica_delete_v2 "n" 7 (enqueue_replica_deletes_v2 "p1" 5 db).1).0
        ≤ 3)
Reaches-AreCapped_example =
    Reaches-AreCapped delete_client "n" "r1" "d1" db
      (delete_once delete_client "n" 7 8 (enqueue_replica_deletes_v2 "p1" 5 db).1).1
      (tries "r1" "d1" 0
        (claim_next_replica_delete_v2 "n" 7 (enqueue_replica_deletes_v2 "p1" 5 db).1).0)
      (attempted 7 8 (recorded "p1" 5 start)) db-IsKeyed db-AreCapped no_tombstone
