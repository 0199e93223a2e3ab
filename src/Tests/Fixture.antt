-- ===== src/Tests/Fixture.antt =====
-- A host with one volume, and a database with two successful backups on it.
use vmbackupd.Prelude.{
  ℕ, suc, true, false, none, some, [], ◌∷◌, String, str_eq, if◌then◌else◌, ok, err, runtime_error,
}
use vmbackupd.Host.{Host}
use vmbackupd.Repository.{JobRun, PointRow, ArtifactRow, Candidate, Details, RecoveryTask, Db}
use vmbackupd.Purge.{System}
use vmbackupd.Reclaim.{Adapters}
use vmbackupd.Runtime.{ExecutionResult, Executor}

-- The world counts the removals.
abbrev pub host : Host
host = record {
  World = ℕ;
  resolve = λ w text. if str_eq text "/srv" then "srv" ∷ [] else "srv" ∷ text ∷ [];
  exists = λ w path. true;
  is_dir = λ w path. false;
  rmtree = λ w path. (w, none);
  unlink = λ w path. (suc w, none);
  free_space = λ w text. ok 50;
}

abbrev pub run_of : String → String → JobRun
run_of id state = record {
  id = id;
  storage_destination_id = "s";
  state = state;
  created_at = 1;
  execution_phase = some "RUNNING";
  recovery_required = false;
  recovery_reason = none;
  error = none;
}

abbrev pub point_of : String → String → PointRow
point_of id run_id = record { id = id; job_run_id = run_id; status = "SUCCESS"; created_at = 1 }

abbrev pub bundle_of : String → String → ArtifactRow
bundle_of id run_id = record { id = id; job_run_id = run_id; kind = "BUNDLE"; path = some id }

abbrev pub pending_details : Details
pending_details = record {
  phase = some "PURGING";
  storage_id = some "s";
  required_bytes = some 40;
  reclaim_plan = some (record {
    candidates = some (
        record { restore_point_id = "p"; status = some "PENDING" }
        ∷ record { restore_point_id = "q"; status = none }
        ∷ []);
    selected_bytes = none;
    deleted = none;
  });
  verification = none;
}

abbrev pub new_details : Details
new_details = record {
  phase = none;
  storage_id = some "s";
  required_bytes = some 60;
  reclaim_plan = none;
  verification = none;
}

abbrev pub task : RecoveryTask
task = record {
  id = "t";
  run_id = "r";
  task_type = "RECLAIM";
  state = "PENDING";
  details = pending_details;
  error = none;
}

abbrev pub db : Db
db = record {
  runs = run_of "r" "PREPARING" ∷ run_of "u" "SUCCESS" ∷ [];
  points = point_of "p" "r" ∷ point_of "q" "u" ∷ [];
  artifacts = bundle_of "a" "r" ∷ bundle_of "b" "u" ∷ [];
  events = [];
  tasks = task ∷ [];
  storages = record { id = "s"; backup_data_root = some "/srv" } ∷ [];
}

abbrev pub system : System host
system = record { db = db; world = 0 }

abbrev pub first : Candidate
first = record { restore_point_id = "p"; status = some "PENDING" }

abbrev pub adapters : Adapters
adapters = record { has_repository = true; has_purge = true; has_capacity = true }

abbrev pub unreachable : ExecutionResult
unreachable = record {
  status = "FAILED";
  failure_class = some "REMOTE";
  component = none;
  message = none;
  retryable = true;
}

-- An executor that raises when it advances a run, and finds the destination unreachable.
abbrev pub executor : Executor host
executor = record {
  advance = λ run_id s. (err (runtime_error "lost"), s);
  prepare = λ run_id s. (unreachable, s);
  execute = λ run_id s. (unreachable, s);
}
