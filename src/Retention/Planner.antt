-- ===== src/Retention/Planner.antt =====
-- vmbackupd/retention.py, `RetentionPlanner.plan`: the restore points that the policy retains and
-- the chains, objects and artifacts that it offers for deletion. `members_by_chain[chain.id]` is
-- `members_of`; the set of retained ids is a list, of which only membership is used. Sequences are
-- naturals, as the catalogue stores them.
pub mod Members
pub mod Closure
pub mod Links
pub mod Guarantees
pub mod Safety
use vmbackupd.Prelude.{
  ℕ, ◌+◌, String, Bool, true, false, not, ◌&&◌, ◌||◌, Option, none, some, List, [], ◌∷◌, ◌++◌, map,
  ltb, leb, ◌==◌, max, str_eq, str_le, if◌then◌else◌, is_some, get_or, take, filter, any, Result,
  ok, err, value_error, raise_if, ◌>>=◌, ◌>>◌,
}
use vmbackupd.Prelude.Sort.{sort}
use vmbackupd.Models.{
  BackupChain, RestorePoint, BackupArtifact, RetentionPolicy, is_closed, is_active, is_full,
  is_incremental,
}
use vmbackupd.Retention.{RetentionPlan}

-- `x in ids`
unfoldable pub contains : List String → String → Bool
contains ids x = any (str_eq x) ids

unfoldable pub optional_eq : Option String → Option String → Bool
optional_eq none none = true
optional_eq (some x) (some y) = str_eq x y
optional_eq _ _ = false

abbrev pub ids_of : List RestorePoint → List String
ids_of = map (λ p. p.id)

unfoldable pub sequence_le : RestorePoint → RestorePoint → Bool
sequence_le p q = leb p.sequence q.sequence

-- `members_by_chain[chain_id]`, sorted by sequence.
unfoldable pub members_of : List RestorePoint → String → List RestorePoint
members_of points chain_id = sort sequence_le (filter (λ p. str_eq p.chain_id chain_id) points)

-- `[point.sequence for point in members] == list(range(n, n + len(members)))`
unfoldable pub are_contiguous : ℕ → List RestorePoint → Bool
are_contiguous n [] = true
are_contiguous n (p ∷ ps) = let rest = are_contiguous (n + 1) ps in p.sequence == n && rest

unfoldable pub parents_link : Option String → List RestorePoint → Bool
parents_link expected [] = true
parents_link expected (p ∷ ps) =
    let rest = parents_link (some p.id) ps in optional_eq p.parent_restore_point_id expected && rest

unfoldable pub validate_members : List RestorePoint → Result (Unit {0})
validate_members [] = ok tt
validate_members (p ∷ ps) = do
  raise_if (not (is_full p.kind) || not (p.sequence == 0))
      (value_error "every populated chain must start with FULL at sequence 0")
  raise_if (not (are_contiguous 0 (p ∷ ps)))
      (value_error "backup chain sequences must be contiguous")
  raise_if (not (parents_link none (p ∷ ps)))
      (value_error "restore point dependency chain is invalid")

unfoldable pub validate_chains : List BackupChain → List RestorePoint → Result (Unit {0})
validate_chains [] points = ok tt
validate_chains (c ∷ cs) points = do
  validate_members (members_of points c.id)
  validate_chains cs points

unfoldable pub is_orphan : List BackupChain → RestorePoint → Bool
is_orphan chains p = not (contains (map (λ c. c.id) chains) p.chain_id)

-- `sorted(restore_points, key=created_at, reverse=True)`
unfoldable pub newer_point : RestorePoint → RestorePoint → Bool
newer_point p q = leb q.created_at p.created_at

unfoldable pub newest_retained : List RestorePoint → RetentionPolicy → List String
newest_retained points policy =
    if any (λ p. is_incremental p.kind) points
    then ids_of (take policy.restore_points_to_retain (sort newer_point points))
    else []

unfoldable pub active_retained : List RestorePoint → List BackupChain → List String
active_retained points [] = []
active_retained points (c ∷ cs) =
    let rest = active_retained points cs in
    if is_active c.status then ids_of (members_of points c.id) ++ rest else rest

starts_full : List RestorePoint → Bool
starts_full [] = false
starts_full (p ∷ ps) = is_full p.kind

unfoldable pub is_populated : List RestorePoint → BackupChain → Bool
unfolding starts_full
is_populated points c = starts_full (members_of points c.id)

-- `max(p.created_at for p in members)`
abbrev latest : List RestorePoint → ℕ
latest [] = 0
latest (p ∷ ps) = max p.created_at (latest ps)

unfoldable pub newest_of : List RestorePoint → BackupChain → ℕ
newest_of points c = latest (members_of points c.id)

unfoldable pub newer_chain : List RestorePoint → BackupChain → BackupChain → Bool
newer_chain points c d = leb (newest_of points d) (newest_of points c)

unfoldable pub newest_chains : List RestorePoint → List BackupChain → List BackupChain
newest_chains points chains = sort (newer_chain points) (filter (is_populated points) chains)

unfoldable pub members_retained : List RestorePoint → List BackupChain → List String
members_retained points [] = []
members_retained points (c ∷ cs) = ids_of (members_of points c.id) ++ members_retained points cs

-- The largest sequence of a retained member.
unfoldable pub retained_limit : List String → List RestorePoint → Option ℕ
retained_limit retained [] = none
retained_limit retained (p ∷ ps) =
    let rest = retained_limit retained ps in
    if contains retained p.id then some (max p.sequence (get_or rest p.sequence)) else rest

unfoldable pub add_prefix : Option ℕ → List String → List RestorePoint → List String
add_prefix none retained members = retained
add_prefix (some limit) retained members =
    ids_of (filter (λ p. leb p.sequence limit) members) ++ retained

-- Retaining a member retains the whole prefix of its chain.
unfoldable pub extend : List String → List RestorePoint → List String
unfolding add_prefix
extend retained members = add_prefix (retained_limit retained members) retained members

unfoldable pub close_prefixes : List String → List RestorePoint → List BackupChain → List String
close_prefixes retained points [] = retained
close_prefixes retained points (c ∷ cs) =
    close_prefixes (extend retained (members_of points c.id)) points cs

unfoldable pub retained_ids : List BackupChain → List RestorePoint → RetentionPolicy → List String
retained_ids chains points policy =
    close_prefixes
      (members_retained points (take policy.full_chains_to_retain (newest_chains points chains))
        ++ (active_retained points chains ++ newest_retained points policy))
      points chains

unfoldable pub is_expired : List String → List RestorePoint → BackupChain → Bool
is_expired retained points c =
    is_closed c.status && not (any (λ p. contains retained p.id) (members_of points c.id))

unfoldable pub backup_objects : List RestorePoint → List String
backup_objects [] = []
backup_objects (p ∷ ps) =
    let rest = backup_objects ps in elim p.backup_object_id [ none ↦ rest | some o ↦ o ∷ rest ]

unfoldable pub legacy_objects : List RestorePoint → List BackupChain → List String
legacy_objects points [] = []
legacy_objects points (c ∷ cs) = backup_objects (members_of points c.id) ++ legacy_objects points cs

unfoldable pub belongs_to : List String → BackupArtifact → Bool
belongs_to points a = elim a.restore_point_id [ none ↦ false | some p ↦ contains points p ]

-- The order of `key=lambda artifact: (artifact.restore_point_id or "", artifact.id)`.
unfoldable pub artifact_le : BackupArtifact → BackupArtifact → Bool
artifact_le a b =
    let p = get_or a.restore_point_id "" in
    let q = get_or b.restore_point_id "" in
    (str_le p q && not (str_le q p)) || (str_eq p q && str_le a.id b.id)

-- `artifact.published_object_id or artifact.object_id`
unfoldable pub authoritative_object : BackupArtifact → String
authoritative_object a = elim a.published_object_id [
  | none ↦ a.object_id
  | some o ↦ if str_eq o "" then a.object_id else o
]

abbrev pub artifacts_or_empty : Option (List BackupArtifact) → List BackupArtifact
artifacts_or_empty artifacts = get_or artifacts []

unfoldable pub authoritative_objects :
    Option (List BackupArtifact) → List BackupArtifact → List String → List String
authoritative_objects none selected legacy = legacy
authoritative_objects (some _) selected legacy = map authoritative_object selected

unfoldable pub expired_chains :
    List BackupChain → List RestorePoint → RetentionPolicy → List BackupChain
expired_chains chains points policy =
    filter (is_expired (retained_ids chains points policy) points) (newest_chains points chains)

unfoldable pub selected_artifacts :
    List BackupChain
    → List RestorePoint
    → RetentionPolicy
    → Option (List BackupArtifact)
    → List BackupArtifact
selected_artifacts chains points policy artifacts =
    let expired_points = members_retained points (expired_chains chains points policy) in
    sort artifact_le (filter (belongs_to expired_points) (artifacts_or_empty artifacts))

unfoldable pub retention_plan :
    List BackupChain
    → List RestorePoint
    → RetentionPolicy
    → Option (List BackupArtifact)
    → RetentionPlan
retention_plan chains points policy artifacts =
    let expired = expired_chains chains points policy in
    let legacy = legacy_objects points expired in
    let selected = selected_artifacts chains points policy artifacts in
    record {
      retained_restore_point_ids = retained_ids chains points policy;
      expired_chain_ids = map (λ c. c.id) expired;
      candidate_backup_object_ids = legacy;
      candidate_artifact_ids = map (λ a. a.id) selected;
      candidate_object_ids = authoritative_objects artifacts selected legacy;
    }

unfoldable pub plan :
    List BackupChain
    → List RestorePoint
    → RetentionPolicy
    → Option (List BackupArtifact)
    → Result RetentionPlan
plan chains points policy artifacts = do
  raise_if (any (is_orphan chains) points)
      (value_error "restore point has no supplied chain metadata")
  validate_chains chains points
  ok (retention_plan chains points policy artifacts)
