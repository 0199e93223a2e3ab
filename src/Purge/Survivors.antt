-- ===== src/Purge/Survivors.antt =====
-- A purge never takes the last restore point that succeeded.
use vmbackupd.Prelude.{
  suc, ◌≤◌, ◌<◌, ◌≡◌, ◌≢◌, refl, sym, ap, subst, ◌⊎◌, inl, inr, Bool, true, false, Option, some,
  none, String, List, [], ◌∷◌, map, arith, Bool-cases, length, All, str_eq, eq_iff, if◌then◌else◌,
  filter, length-map, Result, ok, err,
}
use vmbackupd.Prelude.{AreDistinct}
use mathlib.Core.Path.{ap₂}
use vmbackupd.Host.{Host}
use vmbackupd.Repository.{PointRow, ArtifactRow, Candidate, Db}
use vmbackupd.Repository.Points.{
  list_successful_restore_points, delete_backup_artifact, mark_restore_point_deleted,
}
use vmbackupd.Purge.Safety.{allowed-facts}
use vmbackupd.Purge.Catalogue.{mark, mark_other, append_purge_event-SameRows}
use vmbackupd.Purge.{
  PlanDelete, refused, allowed, plan_delete, validate_artifact_path, DeleteStatus, success,
  not_found, failed, System, delete_path, record_outcome, delete_validated, delete_planned,
  delete_restore_point,
}

abbrev has_succeeded : PointRow → Bool
has_succeeded p = str_eq p.status "SUCCESS"

unmarked : (i : String) (ps : List PointRow) → All (λ p. i ≢ p.id) ps → map (mark i) ps ≡ ps
unmarked i [] a = refl
unmarked i (p ∷ ps) a = ap₂ (λ q qs. q ∷ qs) (mark_other i p (λ e. a.0 (sym e))) (unmarked i ps a.1)

All-of_map :
    (i : String) (ps : List PointRow)
    → All (λ x. i ≢ x) (map (λ p. p.id) ps)
    → All (λ p. i ≢ p.id) ps
All-of_map i [] a = tt
All-of_map i (p ∷ ps) a = (a.0, All-of_map i ps a.1)

-- Marking one id takes at most one success away.
length-mark :
    (i : String) (ps : List PointRow)
    → AreDistinct (map (λ p. p.id) ps)
    → length (filter has_succeeded ps) ≤ suc (length (filter has_succeeded (map (mark i) ps)))
unfolding filter
length-mark i [] d = omega arith
length-mark i (p ∷ ps) d = elim (Bool-cases (str_eq p.id i)) [
  | inl t ↦
      let e : p.id ≡ i = (eq_iff p.id i).0 t in
      let same : map (mark i) ps ≡ ps =
        unmarked i ps (subst (λ x. All (λ q. x ≢ q.id) ps) e (All-of_map p.id ps d.0)) in
      rw (t, same) (ground arith)
  | inr f ↦ rw f (ground (arith, length-mark i ps d.1))
]

-- The restore points after a purge: as they were, or with one id marked.
abbrev OneMarked : Db → Db → Type 0
OneMarked d d' = (d'.points ≡ d.points) ⊎ ((i : String) × (d'.points ≡ map (mark i) d.points))

record_outcome-points :
    (i : String) (a : ArtifactRow) (status : DeleteStatus) (db : Db)
    → OneMarked db (record_outcome i a status db).1
unfolding record_outcome mark_restore_point_deleted delete_backup_artifact
record_outcome-points i a success db =
    inr (i, ap (map (mark i)) (append_purge_event-SameRows i "PURGE_COMPLETED" none db).0)
record_outcome-points i a (not_found text) db =
    inr (i, ap (map (mark i)) (append_purge_event-SameRows i "PURGE_FILE_MISSING" (some text) db).0)
record_outcome-points i a (failed text) db =
    inl (append_purge_event-SameRows i "PURGE_FAILED" (some text) db).0

same_db : (b : Bool) (d d' : Db) → (if b then some d else none) ≡ some d' → d' ≡ d
same_db true d d' e = cc
same_db false d d' e = cc

module _ (h : Host) where
  delete_validated-points :
      (i : String) (a : ArtifactRow) (v : Result (Option (List String))) (s : System h)
      → OneMarked s.db (delete_validated h i a v s).1.db
  unfolding delete_validated
  delete_validated-points i a (err e) s = inl refl
  delete_validated-points i a (ok none) s = inl (append_purge_event-SameRows i _ _ s.db).0
  delete_validated-points i a (ok (some target)) s =
      record_outcome-points i a (delete_path h s.world target).1 s.db

  delete_planned-points :
      (plan : PlanDelete) (s : System h)
      → ((delete_planned h plan s).1.db.points ≡ s.db.points)
        ⊎ ((i : String) × (a : ArtifactRow) × (plan ≡ allowed i a)
            × OneMarked s.db (delete_planned h plan s).1.db)
  unfolding delete_planned
  delete_planned-points (refused reason) s = inl refl
  delete_planned-points (allowed i a) s =
      inr
        (i, a, refl, delete_validated-points i a (validate_artifact_path h s.world s.db i a.path) s)

  survives-mark :
      (d d' : Db)
      → AreDistinct (map (λ p. p.id) d.points)
      → 1 < length (list_successful_restore_points d)
      → OneMarked d d'
      → 0 < length (list_successful_restore_points d')
  unfolding list_successful_restore_points
  survives-mark d d' u many (inl e) =
      rw e (omega (arith, length-map (filter has_succeeded d.points) (λ (p : PointRow). p.id)))
  survives-mark d d' u many (inr (i, e)) = rw e (
      omega (
        arith,
        length-mark i d.points u,
        length-map (filter has_succeeded d.points) (λ (p : PointRow). p.id),
        length-map (filter has_succeeded (map (mark i) d.points)) (λ (p : PointRow). p.id),
      ))

  -- If restore point ids are unique and some restore point has succeeded, then after any purge,
  -- whatever its outcome, some restore point still has the status SUCCESS.
  pub delete_restore_point-survivor :
      (has_repository : Bool) (c : Candidate) (s : System h)
      → AreDistinct (map (λ p. p.id) s.db.points)
      → 0 < length (list_successful_restore_points s.db)
      → 0 < length (list_successful_restore_points (delete_restore_point h has_repository c s).1.db)
  unfolding delete_restore_point
  delete_restore_point-survivor has_repository c s u some_success =
      let repository : Option Db = if has_repository then some s.db else none in
      elim (delete_planned-points (plan_delete repository c) s) [
        | inl e ↦ unfold list_successful_restore_points in rw e some_success
        | inr (i, a, p, m) ↦
            let (_, db, q, many) = allowed-facts repository c i a p in
            survives-mark s.db (delete_planned h (plan_delete repository c) s).1.db u
              (subst (λ d. 1 < length (list_successful_restore_points d))
                (same_db has_repository s.db db q) many)
              m
      ]
