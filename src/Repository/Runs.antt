-- ===== src/Repository/Runs.antt =====
-- repository_v2.py: runs and their events.
use vmbackupd.Prelude.{
  String, Bool, true, not, ◌||◌, Option, none, some, List, [], ◌∷◌, ◌++◌, map, str_eq, leb,
  if◌then◌else◌, filter,
}
use vmbackupd.Prelude.Sort.{sort}
use vmbackupd.Repository.{JobRun, EventData, state_changed, failure, action, Db}

-- `SELECT ... WHERE id=?` on the primary key.
unfoldable pub find_run : List JobRun → String → Option JobRun
find_run [] run_id = none
find_run (r ∷ rs) run_id =
    let rest = find_run rs run_id in if str_eq r.id run_id then some r else rest

-- `UPDATE job_runs SET ... WHERE id=?`
unfoldable pub update_run : (JobRun → JobRun) → String → List JobRun → List JobRun
update_run change run_id = map (λ r. if str_eq r.id run_id then change r else r)

unfoldable pub append_event : String → String → EventData → Db → Db
append_event run_id event_type content db = record db {
  events =
      db.events ++ record { job_run_id = run_id; event_type = event_type; content = content } ∷ [];
}

unfoldable pub set_state : String → String → Db → Db
set_state run_id state db = record db {
  runs = update_run (λ r. record r { state = state }) run_id db.runs;
}

unfoldable pub record_transition : String → String → String → Db → Db
record_transition run_id old new = append_event run_id "STATE_CHANGED" (state_changed old new)

unfoldable pub record_failure : String → String → String → String → Bool → String → String → Db → Db
record_failure run_id class component text retryable decision reason =
    append_event run_id "FAILURE" (failure class component text retryable decision reason)

abbrev pub state_of_run : Option JobRun → Option String
state_of_run none = none
state_of_run (some r) = some r.state

unfoldable pub get_state : String → Db → Option String
get_state run_id db = state_of_run (find_run db.runs run_id)

abbrev pub is_ended : String → Bool
is_ended state = str_eq state "SUCCESS" || (str_eq state "FAILED" || str_eq state "COMPLETED")

-- Runs in no final state, oldest first.
unfoldable pub list_active_runs : Db → List JobRun
list_active_runs db =
    sort (λ r s. leb r.created_at s.created_at) (filter (λ r. not (is_ended r.state)) db.runs)

abbrev pub set_error : Option String → JobRun → JobRun
set_error none r = r
set_error (some text) r = record r { error = some text }

-- Its `get_run` raises for an unknown run; the runtime calls it for runs that it has just listed.
unfoldable pub transition_run : String → String → Option String → Db → Db
transition_run run_id state text db = record db {
  runs = update_run (λ r. record (set_error text r) { state = state }) run_id db.runs;
}

-- `merge_run_context` with the two keys of an uncertain execution.
unfoldable pub mark_recovery_required : String → String → Db → Db
mark_recovery_required run_id reason db = record db {
  runs =
      update_run (λ r. record r { recovery_required = true; recovery_reason = some reason }) run_id
        db.runs;
}

unfoldable pub resume_run_after_recovery : String → Db → Db
unfolding set_state append_event
resume_run_after_recovery run_id db =
    append_event run_id "RECOVERY_RECLAIM_COMPLETED" (action "resume_backup")
      (set_state run_id "SCHEDULED" db)
