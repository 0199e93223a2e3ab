-- ===== src/Compact/Points.antt =====
-- repository_v2.py: rows of the compact schema by their id, the joins to the node, and the updates of
-- one replica of a restore point.
use vmbackupd.Prelude.{
  String, Bool, true, false, ◌&&◌, ◌||◌, ltb, ◌==◌, Option, none, some, str_eq, str_le, find_by,
  update_by, assign,
}
use vmbackupd.Compact.{StorageType, local, ssh, Replica, Point, Run, Job, Vm, Storage, Catalog}

abbrev pub point_id : Point → String
point_id p = p.id

abbrev pub run_id_of : Run → String
run_id_of r = r.id

unfoldable pub find_point : Catalog → String → Option Point
find_point db id = find_by point_id db.points id

unfoldable pub find_run : Catalog → String → Option Run
find_run db id = find_by run_id_of db.runs id

abbrev node_of_vm : Option Vm → Option String
node_of_vm none = none
node_of_vm (some vm) = some vm.node_id

abbrev node_of_job : Catalog → Option Job → Option String
node_of_job db none = none
node_of_job db (some job) = node_of_vm (find_by (λ v. v.id) db.vms job.vm_id)

abbrev pub node_of_run : Catalog → Option Run → Option String
node_of_run db none = none
node_of_run db (some run) = node_of_job db (find_by (λ j. j.id) db.jobs run.job_id)

abbrev pub is_node : String → Option String → Bool
is_node node none = false
is_node node (some n) = str_eq n node

-- `JOIN job_runs JOIN backup_jobs JOIN vms WHERE v.node_id=?`
unfoldable pub is_on_node : Catalog → String → Point → Bool
is_on_node db node p = is_node node (node_of_run db (find_run db p.job_run_id))

abbrev pub is_ssh : StorageType → Bool
is_ssh ssh = true
is_ssh local = false

abbrev ssh_storage : String → Option Storage → Bool
ssh_storage node none = false
ssh_storage node (some s) = str_eq s.node_id node && is_ssh s.storage_type

-- The row `id=? AND node_id=?` exists and has the type SSH.
unfoldable pub is_ssh_destination : Catalog → String → String → Bool
is_ssh_destination db node id = ssh_storage node (find_by (λ s. s.id) db.storages id)

abbrev pub set_replica : String → Replica → Point → Point
set_replica destination_id value p = record p { replicas = assign destination_id value p.replicas }

-- `UPDATE restore_points SET metadata_json=?`, with one replica changed.
unfoldable pub write_replica : String → String → Replica → Catalog → Catalog
write_replica id destination_id value db = record db {
  points = update_by point_id (set_replica destination_id value) id db.points;
}

-- `ORDER BY created_at,id`
unfoldable pub point_le : Point → Point → Bool
point_le p q = ltb p.created_at q.created_at || (p.created_at == q.created_at && str_le p.id q.id)
