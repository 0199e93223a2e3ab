-- ===== src/Tests/Compact.antt =====
-- A catalogue of the compact schema with three FULL restore points, one of them with a replica that
-- waits, and with a tombstone; a client, and a file system.
use vmbackupd.Prelude.{
  ℕ, String, Bool, true, false, not, ◌||◌, ◌≡◌, ◌≢◌, refl, sym, ap, subst, ◌∙◌, inl, inr, none,
  some, List, [], ◌∷◌, filter, lookup, Bool-cases, str_eq, eq_iff, if◌then◌else◌, get_or, Result,
  ok, err, runtime_error,
}
use mathlib.Core.Bool.{false≢true}
use vmbackupd.Prelude.Int.{pos}
use vmbackupd.Models.{full}
use vmbackupd.Compact.{local, ssh, Replica, DeleteTask, Point, Run, Catalog}
use vmbackupd.Replica.Executor.{Paths, selected, advanced, Client, is_below}
use vmbackupd.Replica.Deletes.{DeleteClient}
use vmbackupd.LocalBackup.Delete.{Entries, Host}
use vmbackupd.LocalBackup.Effects.{IsRmtree}

pub differ : {s t : String} → str_eq s t ≡ false → s ≢ t
differ {s} {t} n e = false≢true (sym n ∙ (eq_iff s t).1 e)

pub some_differ : {s t : String} → str_eq s t ≡ false → some s ≢ some t
some_differ {s} {t} n e = differ n (ap (λ o. get_or o s) e)

abbrev pub waiting : Replica
waiting = record {
  task_id = "t1";
  state = "PENDING";
  attempts = 0;
  last_error = none;
  remote_bundle_object_id = none;
  updated_at = 1;
  verified_at = none;
  bytes_processed = some 3;
  bytes_total = some 10;
  transport_mode = none;
  seed_restore_point_id = none;
  source_payload_bytes = none;
}

abbrev pub sent : Replica
sent = record waiting { state = "SUCCESS"; remote_bundle_object_id = some "o2" }

abbrev point : String → String → String → String → ℕ → List (String × Replica) → Point
point id run chain bundle created replicas = record {
  id = id;
  job_run_id = run;
  kind = full;
  status = "AVAILABLE";
  created_at = created;
  chain_id = some chain;
  sequence = some 0;
  parent_restore_point_id = none;
  bundle_object_id = some bundle;
  replicas = replicas;
}

abbrev pub first : Point
first = point "p1" "r1" "c1" "/b/1" 1 (("d1", sent) ∷ [])

abbrev pub second : Point
second = point "p2" "r2" "c2" "/b/2" 2 (("d1", waiting) ∷ [])

abbrev pub third : Point
third = point "p3" "r3" "c3" "/b/3" 3 []

abbrev pub open_task : DeleteTask
open_task = record {
  restore_point_id = "p0";
  destination_id = "d1";
  remote_storage_id = "rs";
  remote_bundle_object_id = "o0";
  kind = full;
  sequence = 0;
  chain_id = some "c0";
  state = "PENDING";
  attempts = 1;
  max_attempts = 3;
  last_error = none;
  next_attempt_at = 4;
  created_at = 1;
  updated_at = 1;
}

abbrev run : String → List (String × DeleteTask) → Run
run id tasks = record {
  id = id;
  job_id = "j";
  storage_destination_id = "s";
  state = "SUCCESS";
  created_at = 1;
  replica_delete_tasks = tasks;
  replica_delete_enqueue_error = none;
}

abbrev pub db : Catalog
db = record {
  points = first ∷ second ∷ third ∷ [];
  runs = run "r1" [] ∷ run "r2" [] ∷ run "r3" (("d1", open_task) ∷ []) ∷ [];
  jobs = record { id = "j"; vm_id = "v" } ∷ [];
  vms = record { id = "v"; node_id = "n" } ∷ [];
  storages =
      record {
        id = "s";
        node_id = "n";
        storage_type = local;
        backup_data_root = "/b";
        remote_storage_id = none;
      }
      ∷ record {
        id = "d1";
        node_id = "n";
        storage_type = ssh;
        backup_data_root = "";
        remote_storage_id = some "rs";
      }
      ∷ [];
  artifacts = record { id = "a1"; job_run_id = "r1" } ∷ [];
  restore_operations = "p3" ∷ [];
}

abbrev pub paths : Paths
paths = record {
  is_absolute = λ s. not (str_eq s "" || str_eq s "o2");
  parts = λ s.
      if str_eq s "/b"
      then "/" ∷ "b" ∷ []
      else if str_eq s "/b/1"
      then "/" ∷ "b" ∷ "1" ∷ []
      else if str_eq s "/b/2"
      then "/" ∷ "b" ∷ "2" ∷ []
      else s ∷ [];
}

abbrev pub client : Client
client = record {
  plan = λ work p vm destination. ok (pos 8 ∷ []);
  has_plan_callback = true;
  transfer = λ work payloads destination. (
    selected (pos 6 ∷ []) none ∷ advanced (pos 4) 1000 ∷ advanced (pos 9) 1500 ∷ [],
    ok (
        some (record {
          transfer_id = some work.task_id;
          storage_id = some "rs";
          restore_point_id = some "p2";
          status = none;
          bundle_object_id = none;
        })),
  );
  publish = λ task_id id destination. ok (
      some (record {
        transfer_id = some task_id;
        storage_id = some "rs";
        restore_point_id = some id;
        status = some "PUBLISHED";
        bundle_object_id = some "o2";
      }));
}

abbrev pub delete_client : DeleteClient
delete_client = record { delete = λ destination storage id object. err (runtime_error "down") }

abbrev pub entries : Entries
entries = ("/b", true) ∷ ("/b/1", true) ∷ ("/b/2", true) ∷ []

abbrev pub host : Host
host = record { db = db; entries = entries }

abbrev pub resolve : String → String
resolve s = s

abbrev pub rmtree : String → Entries → Result (Unit {0}) × Entries
rmtree target es =
    (ok tt, filter (λ item. not (is_below (paths.parts target) (paths.parts item.0))) es)

is_below_refl : (xs : List String) → is_below xs xs ≡ true
unfolding is_below
is_below_refl [] = refl
is_below_refl (x ∷ xs) = rw ((eq_iff x x).1 refl, is_below_refl xs)

abbrev is_left : String → String × Bool → Bool
is_left target item = not (is_below (paths.parts target) (paths.parts item.0))

stays :
    (target path : String) (es : Entries)
    → is_below (paths.parts target) (paths.parts path) ≡ false
    → lookup (filter (is_left target) es) path ≡ lookup es path
unfolding lookup filter
stays target path [] h = refl
stays target path (e ∷ es) h = elim (Bool-cases (str_eq e.0 path)) [
  | inl q ↦
      let left : is_left target e ≡ true =
        subst (λ z. not (is_below (paths.parts target) (paths.parts z)) ≡ true)
          (sym ((eq_iff e.0 path).0 q)) (ap not h) in
      rw (left, q)
  | inr n ↦ elim (Bool-cases (is_left target e)) [
    | inl t ↦ rw (t, n) (stays target path es h)
    | inr t ↦ rw (t, n) (stays target path es h)
  ]
]

goes : (target : String) (es : Entries) → lookup (filter (is_left target) es) target ≡ none
unfolding lookup filter
goes target [] = refl
goes target (e ∷ es) = elim (Bool-cases (str_eq e.0 target)) [
  | inl q ↦
      let left : is_left target e ≡ false =
        subst (λ z. not (is_below (paths.parts target) (paths.parts z)) ≡ false)
          (sym ((eq_iff e.0 target).0 q)) (ap not (is_below_refl (paths.parts target))) in
      rw left (goes target es)
  | inr n ↦ elim (Bool-cases (is_left target e)) [
    | inl t ↦ rw (t, n) (goes target es)
    | inr t ↦ rw t (goes target es)
  ]
]

pub rmtree-IsRmtree : IsRmtree paths rmtree
rmtree-IsRmtree = record { confined = stays; removed = λ target es h. goes target es }
