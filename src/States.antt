-- ===== src/States.antt =====
-- vmbackupd/state_machine.py and vmbackupd/state_machine_v2.py: the rules for the state of a run.
pub mod Legacy
pub mod V2
