-- ===== src/Compact/Records.antt =====
-- repository_v2.py: the records by id, which raise `KeyError` for an id that is not there.
use vmbackupd.Prelude.{
  String, Option, none, some, List, str_eq, ◌&&◌, if◌then◌else◌, find_by, Result, ok, err, Error,
  key_error,
}
use Prim.Native.String.{◌++◌}
use vmbackupd.Compact.{Run, Job, Vm, Storage, Catalog}
use vmbackupd.Compact.Points.{find_run}

-- `raise KeyError(key)`, with the text that `str` gives it.
abbrev pub missing_key : String → Error
missing_key key = key_error ("'" ++ (key ++ "'"))

abbrev pub or_missing {ℓ} : {A : Type ℓ} → String → Option A → Result A
or_missing key none = err (missing_key key)
or_missing key (some a) = ok a

unfoldable pub get_run : Catalog → String → Result Run
get_run db id = or_missing id (find_run db id)

unfoldable pub get_job : Catalog → String → Result Job
get_job db id = or_missing id (find_by (λ j. j.id) db.jobs id)

unfoldable pub get_vm : Catalog → String → Result Vm
get_vm db id = or_missing id (find_by (λ v. v.id) db.vms id)

-- The first row that has both the node and the id.
unfoldable pub find_storage : String → String → List Storage → Option Storage
find_storage node id List.[] = none
find_storage node id (List.◌∷◌ s ss) =
    let rest = find_storage node id ss in
    if str_eq s.node_id node && str_eq s.id id then some s else rest

unfoldable pub get_storage_destination : Catalog → String → String → Result Storage
get_storage_destination db node id = or_missing id (find_storage node id db.storages)
