-- ===== src/Purge/Catalogue.antt =====
-- What a purge does to the catalogue: exactly what its result says, and there is always a restore
-- point left that succeeded.
use vmbackupd.Prelude.{
  ◌⊎◌, length, length-map, ap, ◌≡◌, ◌≢◌, ◌↔◌, refl, sym, subst, ◌∙◌, inl, inr, Bool, not, Option,
  some, none, String, List, map, Bool-cases, ◌∈◌, str_eq, eq_iff, if◌then◌else◌, filter, mem-filter,
  mem-of_filter, mem-map, mem-of_map, Result, ok, err,
}
use mathlib.Core.Bool.{false≢true}
use vmbackupd.Host.{Host}
use vmbackupd.Repository.{PointRow, ArtifactRow, Candidate, Db}
use vmbackupd.Repository.Points.{
  purge_event_of, find_point, append_purge_event, delete_backup_artifact,
  mark_restore_point_deleted,
}
use vmbackupd.Repository.Runs.{append_event}
use vmbackupd.Purge.Safety.{allowed-facts}
use vmbackupd.Purge.{
  PlanDelete, refused, allowed, plan_delete, validate_artifact_path, DeleteStatus, success,
  not_found, failed, PurgeResult, not_deleted, deleted, System, delete_path, record_outcome,
  delete_validated, delete_planned, delete_restore_point,
}

-- The rows are the same.
abbrev pub SameRows : Db → Db → Type 0
SameRows d d' = (d'.points ≡ d.points) × (d'.artifacts ≡ d.artifacts)

purge_event-SameRows :
    (o : Option PointRow) (event_type : String) (text : Option String) (db : Db)
    → SameRows db (purge_event_of o event_type text db)
unfolding append_event
purge_event-SameRows none event_type text db = (refl, refl)
purge_event-SameRows (some p) event_type text db = (refl, refl)

pub append_purge_event-SameRows :
    (i event_type : String) (text : Option String) (db : Db)
    → SameRows db (append_purge_event i event_type text db)
unfolding append_purge_event
append_purge_event-SameRows i event_type text db =
    purge_event-SameRows (find_point db.points i) event_type text db

-- The row of the restore point has become DELETED and the row of the artifact is gone; no other row
-- is changed, added or lost.
pub record IsRemoved (i artifact_id : String) (d d' : Db) : Type 0 where
  pub marked : (p : PointRow) → p ∈ d'.points → p.id ≡ i → p.status ≡ "DELETED"
  pub becomes :
      (p : PointRow) → p ∈ d.points → p.id ≡ i → record p { status = "DELETED" } ∈ d'.points
  pub no_new :
      (p : PointRow)
      → p ∈ d'.points
      → (q : PointRow) × (q ∈ d.points) × ((p ≡ q) ⊎ (p ≡ record q { status = "DELETED" }))
  pub as_many : length d'.points ≡ length d.points
  pub others : (p : PointRow) → p ∈ d.points → p.id ≢ i → p ∈ d'.points
  pub artifacts :
      (a : ArtifactRow) → (a ∈ d'.artifacts) ↔ ((a ∈ d.artifacts) × (a.id ≢ artifact_id))

-- `mark_restore_point_deleted` on one row.
abbrev pub mark : String → PointRow → PointRow
mark i p = if str_eq p.id i then record p { status = "DELETED" } else p

mark-deleted : (i : String) (p : PointRow) → (mark i p).id ≡ i → (mark i p).status ≡ "DELETED"
mark-deleted i p e = elim (Bool-cases (str_eq p.id i)) [
  | inl t ↦ rw t
  | inr f ↦ let e' : p.id ≡ i = rw f at e in absurd (false≢true (sym f ∙ (eq_iff p.id i).1 e'))
]

pub mark_other : (i : String) (p : PointRow) → p.id ≢ i → mark i p ≡ p
mark_other i p ne = elim (Bool-cases (str_eq p.id i)) [
  | inl t ↦ absurd (ne ((eq_iff p.id i).0 t))
  | inr f ↦ rw f
]

marked_or_same :
    (i : String) (q p : PointRow) → p ≡ mark i q → (p ≡ q) ⊎ (p ≡ record q { status = "DELETED" })
marked_or_same i q p s = elim (Bool-cases (str_eq q.id i)) [
  | inl t ↦ inr (rw t at s)
  | inr f ↦ inl (rw f at s)
]

remaining_iff :
    (artifact_id : String) (a : ArtifactRow) (rows : List ArtifactRow)
    → (a ∈ filter (λ b. not (str_eq b.id artifact_id)) rows) ↔ ((a ∈ rows) × (a.id ≢ artifact_id))
remaining_iff artifact_id a rows =
    let keep : ArtifactRow → Bool = λ b. not (str_eq b.id artifact_id) in
    (
      λ m.
          let (k, t) = mem-of_filter keep a rows m in
          (k, λ e. cc (t, (eq_iff a.id artifact_id).1 e)),
      λ h. mem-filter keep a rows h.0 (elim (Bool-cases (str_eq a.id artifact_id)) [
        | inl t ↦ absurd (h.1 ((eq_iff a.id artifact_id).0 t))
        | inr f ↦ rw f
      ]),
    )

removal-IsRemoved :
    (i artifact_id event_type : String) (text : Option String) (db : Db)
    → IsRemoved i artifact_id db (
        mark_restore_point_deleted i
          (delete_backup_artifact artifact_id (append_purge_event i event_type text db)))
unfolding mark_restore_point_deleted delete_backup_artifact
removal-IsRemoved i artifact_id event_type text db =
    let (same_points, same_artifacts) = append_purge_event-SameRows i event_type text db in
    record {
      marked = λ p m e.
          let (q, _, s) =
            mem-of_map (mark i) p (append_purge_event i event_type text db).points m in
          subst (λ z. z.status ≡ "DELETED") (sym s)
            (mark-deleted i q (subst (λ (z : PointRow). z.id ≡ i) s e));
      becomes = λ p m e.
          subst (λ z. z ∈ map (mark i) (append_purge_event i event_type text db).points)
            (rw ((eq_iff p.id i).1 e))
            (mem-map (mark i) p (append_purge_event i event_type text db).points
              (subst (λ l. p ∈ l) (sym same_points) m));
      no_new = λ p m.
          let (q, k, s) =
            mem-of_map (mark i) p (append_purge_event i event_type text db).points m in
          (q, subst (λ l. q ∈ l) same_points k, marked_or_same i q p s);
      as_many =
          length-map (append_purge_event i event_type text db).points (mark i)
          ∙ ap length same_points;
      others = λ p m ne.
          subst (λ z. z ∈ map (mark i) (append_purge_event i event_type text db).points)
            (mark_other i p ne)
            (mem-map (mark i) p (append_purge_event i event_type text db).points
              (subst (λ l. p ∈ l) (sym same_points) m));
      artifacts = λ a.
          subst
            (λ l.
              (a ∈ filter (λ b. not (str_eq b.id artifact_id)) l)
              ↔ ((a ∈ db.artifacts) × (a.id ≢ artifact_id)))
            (sym same_artifacts) (remaining_iff artifact_id a db.artifacts);
    }

-- The catalogue after each result of a purge of the restore point `i`.
abbrev pub AgreesWith : String → Result PurgeResult → Db → Db → Type 0
AgreesWith i (err e) d d' = d' ≡ d
AgreesWith i (ok (not_deleted reason)) d d' = SameRows d d'
AgreesWith i (ok (deleted j artifact_id status)) d d' = (j ≡ i) × IsRemoved i artifact_id d d'

record_outcome-AgreesWith :
    (i : String) (a : ArtifactRow) (status : DeleteStatus) (db : Db)
    → AgreesWith i (ok (record_outcome i a status db).0) db (record_outcome i a status db).1
unfolding record_outcome
record_outcome-AgreesWith i a success db = (refl, removal-IsRemoved i a.id _ _ db)
record_outcome-AgreesWith i a (not_found text) db = (refl, removal-IsRemoved i a.id _ _ db)
record_outcome-AgreesWith i a (failed text) db = append_purge_event-SameRows i _ _ db

module _ (h : Host) where
  delete_validated-AgreesWith :
      (i : String) (a : ArtifactRow) (v : Result (Option (List String))) (s : System h)
      → AgreesWith i (delete_validated h i a v s).0 s.db (delete_validated h i a v s).1.db
  unfolding delete_validated
  delete_validated-AgreesWith i a (err e) s = refl
  delete_validated-AgreesWith i a (ok none) s = append_purge_event-SameRows i _ _ s.db
  delete_validated-AgreesWith i a (ok (some target)) s =
      record_outcome-AgreesWith i a (delete_path h s.world target).1 s.db

  delete_planned-AgreesWith :
      (point_id : String) (plan : PlanDelete) (s : System h)
      → ((i : String) (a : ArtifactRow) → plan ≡ allowed i a → i ≡ point_id)
      → AgreesWith point_id (delete_planned h plan s).0 s.db (delete_planned h plan s).1.db
  unfolding delete_planned
  delete_planned-AgreesWith point_id (refused reason) s named = (refl, refl)
  delete_planned-AgreesWith point_id (allowed i a) s named =
      let v = validate_artifact_path h s.world s.db i a.path in
      subst
        (λ x. AgreesWith x (delete_validated h i a v s).0 s.db (delete_validated h i a v s).1.db)
        (named i a refl) (delete_validated-AgreesWith i a v s)

  -- The catalogue after a purge is what its result says: after an exception it is untouched; if
  -- the result is "not deleted" all restore points and artifacts are as before; if it is "deleted"
  -- then it names the candidate, whose row stays and has become DELETED, the reported artifact is
  -- gone, and no other restore point or artifact is changed, added or lost.
  pub delete_restore_point-AgreesWith :
      (has_repository : Bool) (c : Candidate) (s : System h)
      → AgreesWith c.restore_point_id
          (delete_restore_point h has_repository c s).0
          s.db
          (delete_restore_point h has_repository c s).1.db
  unfolding delete_restore_point
  delete_restore_point-AgreesWith has_repository c s =
      let repository : Option Db = if has_repository then some s.db else none in
      delete_planned-AgreesWith c.restore_point_id (plan_delete repository c) s
        (λ i a e. (allowed-facts repository c i a e).0)
