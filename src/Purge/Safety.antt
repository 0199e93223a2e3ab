-- ===== src/Purge/Safety.antt =====
-- What a purge can touch: nothing of the host but the bundle inside the storage of its restore
-- point, and never the last restore point that succeeded.
use vmbackupd.Prelude.{
  ◌<◌, ◌≡◌, ◌↔◌, refl, inl, inr, true, Option, some, none, String, arith, leb, Bool-cases,
  Option-cases, length, str_eq,
}
use vmbackupd.Repository.{ArtifactRow, Candidate, Db}
use vmbackupd.Repository.Points.{
  RestorePointView, get_restore_point, list_successful_restore_points,
}
use vmbackupd.Purge.Plan.{plan_point, plan_artifact, can_delete_point}
use vmbackupd.Purge.{allowed, plan_delete, can_delete, resolve_artifact}

plan_artifact-allowed :
    (point_id : String) (o : Option ArtifactRow)
    → ((i : String) × (a : ArtifactRow) × (plan_artifact point_id o ≡ allowed i a))
      ↔ ((a : ArtifactRow) × (o ≡ some a))
plan_artifact-allowed point_id none = (λ e. cc (e.2), λ e. cc (e.1))
plan_artifact-allowed point_id (some a) = (λ e. (a, refl), λ e. (point_id, a, refl))

plan_point-allowed_iff :
    (c : Candidate) (o : Option RestorePointView) (db : Db)
    → ((i : String) × (a : ArtifactRow) × (plan_point c o db ≡ allowed i a)) ↔ (
        (can_delete_point o db ≡ true)
        × (a : ArtifactRow) × (resolve_artifact (some db) c ≡ some a))
plan_point-allowed_iff c none db = (λ e. cc (e.2), λ e. cc (e.0))
plan_point-allowed_iff c (some p) db = elim (Bool-cases (str_eq p.status "SUCCESS")) [
  | inr no_success ↦ rw no_success (λ e. cc (e.2), λ e. cc (e.0))
  | inl succeeded ↦
      rw succeeded (elim (Bool-cases (leb (length (list_successful_restore_points db)) 1)) [
        | inl last ↦ rw last (λ e. cc (e.2), λ e. cc (e.0))
        | inr more ↦ rw more (
            let artifact_iff =
              plan_artifact-allowed c.restore_point_id (resolve_artifact (some db) c) in
            (λ e. (let (a, m) = artifact_iff.0 e in (refl, a, m)), λ e. artifact_iff.1 (e.1, e.2)))
      ])
]

-- A plan allows a deletion exactly when `can_delete` says so and the run of the restore point has
-- a bundle.
pub plan_delete-allowed_iff :
    (repository : Option Db) (c : Candidate)
    → ((i : String) × (a : ArtifactRow) × (plan_delete repository c ≡ allowed i a)) ↔ (
        (can_delete repository c ≡ true)
        × (a : ArtifactRow) × (resolve_artifact repository c ≡ some a))
unfolding plan_delete can_delete
plan_delete-allowed_iff none c = (λ e. cc (e.2), λ e. cc (e.0))
plan_delete-allowed_iff (some db) c =
    plan_point-allowed_iff c (get_restore_point c.restore_point_id db) db

-- An allowed plan names the candidate, and at least two restore points have succeeded.
pub allowed-facts :
    (repository : Option Db) (c : Candidate) (i : String) (a : ArtifactRow)
    → plan_delete repository c ≡ allowed i a
    → (i ≡ c.restore_point_id)
      × (db : Db) × (repository ≡ some db)
      × (1 < length (list_successful_restore_points db))
unfolding plan_delete
allowed-facts none c i a e = cc
allowed-facts (some db) c i a e =
    let o = get_restore_point c.restore_point_id db in
    elim (Option-cases o) [
      | inl n ↦ ground arith
      | inr (p, q) ↦ elim (Option-cases (resolve_artifact (some db) c)) [
        | inl n ↦ ground arith
        | inr (b, m) ↦ (ground arith, db, refl, ground arith)
      ]
    ]
