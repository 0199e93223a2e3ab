-- ===== src/Tests/Schedule.antt =====
-- A weekly schedule whose instants count days: a full backup on each Monday.
use vmbackupd.Prelude.{◌≡◌, ◌<◌, refl, [], ◌∷◌, ok}
use vmbackupd.Schedule.{
  Zone, ChainSchedule, search_full, next_full_after, next_after, advance, advance_cursor,
}
use vmbackupd.Schedule.Slots.{
  IsSlot, next_full_after-IsSlot, HasCaughtUp, advance_cursor-HasCaughtUp,
}

abbrev zone : Zone
zone = record { local_day = λ value. value; local_candidate = λ day time. ok day }

abbrev schedule : ChainSchedule
schedule = record { full_weekday = 0; full_time = "02:00"; incremental_times = "03:00" ∷ [] }

next_monday : next_full_after zone schedule 1 ≡ ok 8
unfolding next_full_after search_full
next_monday = refl

next_full_after-IsSlot_example : IsSlot zone schedule 1 1 15 8
next_full_after-IsSlot_example = next_full_after-IsSlot zone schedule 1 8 next_monday

catches_up : advance_cursor zone schedule "FULL" 1 16 ≡ ok (3, 22)
unfolding advance_cursor advance next_after next_full_after search_full
catches_up = refl

advance_cursor-HasCaughtUp_example :
    (0 < 3) × HasCaughtUp (next_after zone schedule "FULL") 16 0 1 (3, 22)
advance_cursor-HasCaughtUp_example =
    advance_cursor-HasCaughtUp zone schedule "FULL" 1 16 (3, 22) catches_up
