-- ===== src/Replica/Updates.antt =====
-- repository_v2.py: `update_replica_v2`, `update_replica_transfer_plan_v2` and
-- `update_replica_progress_v2`, three changes of the replica of a point for a destination.
use vmbackupd.Prelude.{
  ℕ, String, Option, none, some, lookup, Result, ok, err, domain_invariant_error,
}
use vmbackupd.Prelude.Int.{ℤ, to_ℕ}
use vmbackupd.Compact.{Replica, Point, Catalog}
use vmbackupd.Compact.Points.{find_point, write_replica}
use vmbackupd.Compact.Records.{missing_key}

abbrev pub change_found :
    String → String → (Replica → Replica) → Catalog → Option Replica → Result Replica × Catalog
change_found id destination_id change db none =
    (err (domain_invariant_error "REPLICA_STATUS_NOT_FOUND"), db)
change_found id destination_id change db (some value) =
    (ok (change value), write_replica id destination_id (change value) db)

abbrev pub change_point :
    String → String → (Replica → Replica) → Catalog → Option Point → Result Replica × Catalog
change_point id destination_id change db none = (err (missing_key id), db)
change_point id destination_id change db (some p) =
    change_found id destination_id change db (lookup p.replicas destination_id)

-- What the three operations share.
unfoldable pub change_replica :
    String → String → (Replica → Replica) → Catalog → Result Replica × Catalog
change_replica id destination_id change db =
    change_point id destination_id change db (find_point db id)

abbrev pub or_else {ℓ} : {A : Type ℓ} → Option A → Option A → Option A
or_else none old = old
or_else (some new) old = some new

unfoldable pub update_replica_v2 :
    String
    → String
    → String
    → ℕ
    → Option String
    → Option String
    → Option ℕ
    → Catalog
    → Result Replica × Catalog
unfolding change_replica
update_replica_v2 id destination_id state stamp last_error remote_object verified_at =
    change_replica id destination_id (λ value. record value {
      state = state;
      updated_at = stamp;
      last_error = last_error;
      remote_bundle_object_id = or_else remote_object value.remote_bundle_object_id;
      verified_at = or_else verified_at value.verified_at;
    })

-- `max(0, int(n))` is `to_ℕ`.
unfoldable pub update_replica_transfer_plan_v2 :
    String → String → String → ℤ → ℤ → Option String → ℕ → Catalog → Result Replica × Catalog
unfolding change_replica
update_replica_transfer_plan_v2 id destination_id mode payload total seed stamp =
    change_replica id destination_id (λ value. record value {
      transport_mode = some mode;
      source_payload_bytes = some (to_ℕ payload);
      bytes_processed = some 0;
      bytes_total = some (to_ℕ total);
      seed_restore_point_id = seed;
      updated_at = stamp;
    })

unfoldable pub update_replica_progress_v2 :
    String → String → ℤ → ℤ → ℕ → Catalog → Result Replica × Catalog
unfolding change_replica
update_replica_progress_v2 id destination_id processed total stamp =
    change_replica id destination_id (λ value. record value {
      bytes_processed = some (to_ℕ processed);
      bytes_total = some (to_ℕ total);
      updated_at = stamp;
    })
