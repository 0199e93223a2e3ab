-- ===== src/Replica/Queue.antt =====
-- repository_v2.py, `claim_next_replica_v2`: the oldest replica that may be sent. The rows are read
-- once, before the loop; the parent of an incremental is looked up in the database as the loop has
-- left it.
use vmbackupd.Prelude.{
  ℕ, suc, String, Bool, false, ◌&&◌, ◌||◌, not, Option, none, some, List, [], ◌∷◌, str_eq,
  if◌then◌else◌, filter, lookup,
}
use Prim.Native.String.{◌++◌}
use vmbackupd.Prelude.Sort.{sort}
use vmbackupd.Models.{is_incremental}
use vmbackupd.Compact.{Replica, Point, Catalog}
use vmbackupd.Compact.Points.{find_point, is_on_node, is_ssh_destination, write_replica, point_le}

-- What the claim returns, without the stamps.
pub record ReplicaWork : Type 0 where
  pub task_id : String
  pub restore_point_id : String
  pub destination_id : String
  pub attempts : ℕ

-- `a in {"PENDING", "BLOCKED"}`
abbrev pub is_waiting : String → Bool
is_waiting state = str_eq state "PENDING" || str_eq state "BLOCKED"

abbrev replica_state : Option Replica → String
replica_state none = "NOT_CONFIGURED"
replica_state (some value) = value.state

abbrev pub parent_state : String → Option Point → String
parent_state destination_id none = "MISSING"
parent_state destination_id (some parent) =
    if str_eq parent.status "AVAILABLE"
    then replica_state (lookup parent.replicas destination_id)
    else "MISSING"

-- `_replica_parent_state_v2`, none if the point names no parent.
unfoldable pub replica_parent_state : Catalog → Option String → String → Option String
replica_parent_state db none destination_id = none
replica_parent_state db (some parent_id) destination_id =
    if str_eq parent_id ""
    then none
    else some (parent_state destination_id (find_point db parent_id))

abbrev pub is_success : Option String → Bool
is_success none = false
is_success (some state) = str_eq state "SUCCESS"

abbrev state_or_missing : Option String → String
state_or_missing none = "MISSING"
state_or_missing (some state) = if str_eq state "" then "MISSING" else state

abbrev pub blocked : ℕ → Option String → Replica → Replica
blocked stamp parent value = record value {
  state = "BLOCKED";
  updated_at = stamp;
  last_error =
      some
        ("PARENT_REPLICA_UNAVAILABLE: direct parent replica state is " ++ state_or_missing parent);
}

abbrev pub transferring : ℕ → Replica → Replica
transferring stamp value = record value {
  state = "TRANSFERRING";
  attempts = suc value.attempts;
  updated_at = stamp;
  last_error = none;
}

-- What the body of the loop does with one replica of a point.
pub data Verdict : Type 0 where
  skip claim : Verdict
  block : Option String → Verdict

unfoldable pub judge : Catalog → String → Point → String → Replica → Verdict
judge db node p destination_id value =
    let parent = replica_parent_state db p.parent_restore_point_id destination_id in
    if not (is_waiting value.state)
    then skip
    else if not (is_ssh_destination db node destination_id)
    then skip
    else if is_incremental p.kind && not (is_success parent)
    then block parent
    else claim

abbrev pub work_of : Point → String → Replica → ReplicaWork
work_of p destination_id value = record {
  task_id = value.task_id;
  restore_point_id = p.id;
  destination_id = destination_id;
  attempts = suc value.attempts;
}

-- What a claim has found, or the database in which the search goes on.
pub data Search : Type 0 where
  found : ReplicaWork → Catalog → Search
  going_on : Catalog → Search

abbrev pub apply_verdict : ℕ → Catalog → Point → String → Replica → Verdict → Search
apply_verdict stamp db p destination_id value skip = going_on db
apply_verdict stamp db p destination_id value (block parent) =
    going_on (write_replica p.id destination_id (blocked stamp parent value) db)
apply_verdict stamp db p destination_id value claim =
    found (work_of p destination_id value)
      (write_replica p.id destination_id (transferring stamp value) db)

abbrev pub and_then : Search → (Catalog → Search) → Search
and_then (found work db) next = found work db
and_then (going_on db) next = next db

-- The inner loop, over `replicas.items()`.
unfoldable pub scan_replicas : String → ℕ → Point → List (String × Replica) → Catalog → Search
scan_replicas node stamp p [] db = going_on db
scan_replicas node stamp p (item ∷ items) db =
    and_then (apply_verdict stamp db p item.0 item.1 (judge db node p item.0 item.1))
      (scan_replicas node stamp p items)

unfoldable pub scan_points : String → ℕ → List Point → Catalog → Search
scan_points node stamp [] db = going_on db
scan_points node stamp (p ∷ ps) db =
    and_then (scan_replicas node stamp p p.replicas db) (scan_points node stamp ps)

-- The rows of the query.
unfoldable pub available_points : String → Catalog → List Point
available_points node db =
    sort point_le (filter (λ p. is_on_node db node p && str_eq p.status "AVAILABLE") db.points)

abbrev pub claimed : Search → Option ReplicaWork × Catalog
claimed (found work db) = (some work, db)
claimed (going_on db) = (none, db)

unfoldable pub claim_next_replica_v2 : String → ℕ → Catalog → Option ReplicaWork × Catalog
claim_next_replica_v2 node stamp db = claimed (scan_points node stamp (available_points node db) db)
