-- ===== src/Purge/Effects.antt =====
-- The effects of a purge: on the host, only the removal of a path inside the storage of the restore
-- point; in the catalogue, exactly what the result says, and never the last success.
use vmbackupd.Prelude.{
  ◌≡◌, refl, subst, ◌⊎◌, inl, inr, Bool, true, Option, some, none, String, List, arith, Bool-cases,
  str_eq, if◌then◌else◌, Result, ok, err,
}
use vmbackupd.Host.{Host}
use vmbackupd.Repository.{ArtifactRow, Candidate, Db}
use vmbackupd.Repository.Points.{RestorePointView, get_restore_point, get_storage_root}
use vmbackupd.Purge.Plan.{non_empty, validate_target, validate_for_point}
use vmbackupd.Purge.Safety.{allowed-facts}
use vmbackupd.Purge.{
  PlanDelete, refused, allowed, plan_delete, is_inside, validate_artifact_path, System, delete_path,
  delete_validated, delete_planned, delete_restore_point,
}

module _ (h : Host) where
  abbrev pub Removes : h.World → List String → h.World → Type 0
  Removes w target w' = (w' ≡ (h.rmtree w target).0) ⊎ (w' ≡ (h.unlink w target).0)

  delete_path-world :
      (w : h.World) (target : List String)
      → ((delete_path h w target).0 ≡ w) ⊎ Removes w target (delete_path h w target).0
  unfolding delete_path
  delete_path-world w target = elim (Bool-cases (h.exists w target)) [
    | inr gone ↦ rw gone (inl refl)
    | inl there ↦ rw there (elim (Bool-cases (h.is_dir w target)) [
      | inl dir ↦ rw dir (inr (inl refl))
      | inr file ↦ rw file (inr (inr refl))
    ])
  ]

  non_empty-some : (o : Option String) (x : String) → non_empty o ≡ some x → o ≡ some x
  non_empty-some none x e = cc
  non_empty-some (some y) x e = ground arith

  validate_target-inside :
      (w : h.World) (o path : Option String) (target : List String)
      → validate_target h w o path ≡ ok (some target)
      → (root : String) × (o ≡ some root) × (is_inside (h.resolve w root) target ≡ true)
  validate_target-inside w none path target e = cc
  validate_target-inside w (some root) none target e = cc
  validate_target-inside w (some root) (some path) target e =
      elim (Bool-cases (is_inside (h.resolve w root) (h.resolve w path))) [
        | inl t ↦
            let same : h.resolve w path ≡ target = ground arith in
            (root, refl, subst (λ p. is_inside (h.resolve w root) p ≡ true) same t)
        | inr f ↦ ground arith
      ]

  -- The restore point, its storage's root, and a path inside that root.
  abbrev pub IsInStorage : System h → String → List String → Type 0
  IsInStorage s point_id target =
      (p : RestorePointView) × (root : String) × (get_restore_point point_id s.db ≡ some p)
      × (get_storage_root p.storage_destination_id s.db ≡ some root)
      × (is_inside (h.resolve s.world root) target ≡ true)

  validate_for_point-inside :
      (s : System h) (o : Option RestorePointView) (path : Option String) (target : List String)
      → validate_for_point h s.world s.db o path ≡ ok (some target)
      → (p : RestorePointView) × (root : String) × (o ≡ some p)
        × (get_storage_root p.storage_destination_id s.db ≡ some root)
        × (is_inside (h.resolve s.world root) target ≡ true)
  validate_for_point-inside s none path target e = cc
  validate_for_point-inside s (some p) path target e =
      elim (Bool-cases (str_eq p.storage_destination_id "")) [
        | inl empty ↦ cc (rw empty at e)
        | inr named ↦
            let e' : validate_target h s.world
                  (non_empty (get_storage_root p.storage_destination_id s.db)) path
                ≡ ok (some target) =
              rw named at e in
            let (root, q, t) =
              validate_target-inside s.world
                (non_empty (get_storage_root p.storage_destination_id s.db)) path target e' in
            (p, root, refl, non_empty-some _ root q, t)
      ]

  -- What a purge of a restore point does to the host.
  abbrev pub IsContained : System h → String → h.World → Type 0
  IsContained s point_id w' =
      (w' ≡ s.world)
      ⊎ ((target : List String) × IsInStorage s point_id target × Removes s.world target w')

  delete_validated-IsContained :
      (i : String) (a : ArtifactRow) (s : System h) (v : Result (Option (List String)))
      → validate_artifact_path h s.world s.db i a.path ≡ v
      → IsContained s i (delete_validated h i a v s).1.world
  unfolding delete_validated validate_artifact_path
  delete_validated-IsContained i a s (err e) q = inl refl
  delete_validated-IsContained i a s (ok none) q = inl refl
  delete_validated-IsContained i a s (ok (some target)) q =
      elim (delete_path-world s.world target) [
        | inl same ↦ inl same
        | inr gone ↦
            inr
              (target, validate_for_point-inside s (get_restore_point i s.db) a.path target q, gone)
      ]

  delete_planned-IsContained :
      (point_id : String) (plan : PlanDelete) (s : System h)
      → ((i : String) (a : ArtifactRow) → plan ≡ allowed i a → i ≡ point_id)
      → IsContained s point_id (delete_planned h plan s).1.world
  unfolding delete_planned
  delete_planned-IsContained point_id (refused reason) s named = inl refl
  delete_planned-IsContained point_id (allowed i a) s named =
      subst
        (λ x.
          IsContained s x
            (delete_validated h i a (validate_artifact_path h s.world s.db i a.path) s).1.world)
        (named i a refl) (delete_validated-IsContained i a s _ refl)

  -- Whatever the outcome, purging a restore point leaves the host as it was, or removes one path,
  -- and that path lies strictly inside the root of the storage of the restore point's run.
  pub delete_restore_point-IsContained :
      (has_repository : Bool) (c : Candidate) (s : System h)
      → IsContained s c.restore_point_id (delete_restore_point h has_repository c s).1.world
  unfolding delete_restore_point
  delete_restore_point-IsContained has_repository c s =
      let repository : Option Db = if has_repository then some s.db else none in
      delete_planned-IsContained c.restore_point_id (plan_delete repository c) s
        (λ i a e. (allowed-facts repository c i a e).0)
