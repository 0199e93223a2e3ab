-- ===== src/LocalBackup/Chain.antt =====
-- repository_v2.py: the lists of restore points from which the local retention chooses what goes.
use vmbackupd.Prelude.{
  ℕ, zero, suc, String, Bool, false, not, ◌&&◌, ◌||◌, ltb, leb, ◌==◌, Option, none, some, List, [],
  ◌∷◌, ◌++◌, map, str_eq, if◌then◌else◌, filter, any, get_or, length,
}
use vmbackupd.Prelude.Sort.{sort}
use vmbackupd.Models.{is_full}
use vmbackupd.Compact.{Point, Run, Catalog}
use vmbackupd.Compact.Points.{find_run, point_le}

abbrev run_is_of : String → String → Option Run → Bool
run_is_of job_id storage_id none = false
run_is_of job_id storage_id (some r) =
    str_eq r.job_id job_id && str_eq r.storage_destination_id storage_id

-- `AVAILABLE`, of a run of the job on the storage.
unfoldable pub is_local : Catalog → String → String → Point → Bool
is_local db job_id storage_id p =
    run_is_of job_id storage_id (find_run db p.job_run_id) && str_eq p.status "AVAILABLE"

unfoldable pub list_local_full_restore_points_for_reclaim : Catalog → String → String → List Point
list_local_full_restore_points_for_reclaim db job_id storage_id =
    sort point_le (filter (λ p. is_local db job_id storage_id p && is_full p.kind) db.points)

abbrev pub is_in : List String → String → Bool
is_in ids id = any (str_eq id) ids

abbrev pub parent_in : List String → Option String → Bool
parent_in ids none = false
parent_in ids (some id) = is_in ids id

-- The rows that a round of the recursive query adds.
unfoldable pub children : List Point → List String → List Point
children rows ids =
    filter (λ p. parent_in ids p.parent_restore_point_id && not (is_in ids p.id)) rows

-- `WITH RECURSIVE descendants`: rounds until one adds nothing.
unfoldable pub descendants : ℕ → List Point → List String → List String
unfolding children
descendants zero rows ids = ids
descendants (suc fuel) rows ids = descendants fuel rows (map (λ p. p.id) (children rows ids) ++ ids)

abbrev pub chain_is : String → Option String → Bool
chain_is chain_id none = false
chain_is chain_id (some c) = str_eq c chain_id

-- `-1` for the FULL itself, else the sequence, one higher.
abbrev pub rank : String → Point → ℕ
rank full_id p = if str_eq p.id full_id then 0 else suc (get_or p.sequence 0)

unfoldable pub deepest_first : String → Point → Point → Bool
deepest_first full_id p q =
    ltb (rank full_id q) (rank full_id p)
    || ((rank full_id p == rank full_id q) && leb q.created_at p.created_at)

-- `result.sort(key=lambda value: value["id"] == full_restore_point_id)`
abbrev pub full_last : String → Point → Point → Bool
full_last full_id p q = not (str_eq p.id full_id) || str_eq q.id full_id

unfoldable pub list_local_restore_points_for_full_chain :
    Catalog → String → String → String → String → List Point
list_local_restore_points_for_full_chain db job_id storage_id full_id chain_id =
    let rows = filter (is_local db job_id storage_id) db.points in
    let ids = descendants (length rows) rows (full_id ∷ []) in
    sort (full_last full_id) (
      sort (deepest_first full_id)
        (filter (λ p. is_in ids p.id || chain_is chain_id p.chain_id) rows))
