-- ===== src/Schedule.antt =====
-- vmbackupd/chain_schedule_v2.py: the slots of full and incremental backups. An instant is a natural
-- number, a local date its ordinal. What the time zone database answers is a parameter: the local
-- date of an instant, and the instant of a wall-clock time on a date, as `_local_candidate` finds it.
pub mod Slots
use vmbackupd.Prelude.{
  ℕ, zero, suc, ◌+◌, String, Bool, true, false, not, List, [], ◌∷◌, ltb, leb, ◌==◌, str_eq,
  if◌then◌else◌, Result, ok, err, Error, value_error, raise_if, ◌>>=◌, ◌>>◌,
}
use Prim.Native.Nat.{◌%◌}

pub record Zone : Type 0 where
  -- `value.astimezone(zone).date().toordinal()`
  pub local_day : ℕ → ℕ
  pub local_candidate : ℕ → String → Result ℕ

pub record ChainSchedule : Type 0 where
  pub full_weekday : ℕ
  pub full_time : String
  pub incremental_times : List String

-- `date.weekday()` of an ordinal.
abbrev pub weekday : ℕ → ℕ
weekday day = (day + 6) % 7

-- The candidate, if it is after the instant, and otherwise what comes of the rest of the search.
abbrev pub first_after : ℕ → Result ℕ → Result ℕ → Result ℕ
first_after value (err e) rest = err e
first_after value (ok candidate) rest = if ltb value candidate then ok candidate else rest

module _ (zone : Zone) (schedule : ChainSchedule) where
  -- The loop of `next_full_after` over the days that are left.
  unfoldable pub search_full : ℕ → ℕ → ℕ → Result ℕ
  search_full value zero day = err (value_error "cannot determine next FULL schedule slot")
  search_full value (suc n) day =
      let rest = search_full value n (suc day) in
      if weekday day == schedule.full_weekday
      then first_after value (zone.local_candidate day schedule.full_time) rest
      else rest

  unfoldable pub next_full_after : ℕ → Result ℕ
  next_full_after value = search_full value 15 (zone.local_day value)

  unfoldable pub search_times : ℕ → ℕ → List String → Result ℕ → Result ℕ
  search_times value day [] rest = rest
  search_times value day (t ∷ ts) rest =
      first_after value (zone.local_candidate day t) (search_times value day ts rest)

  unfoldable pub search_incremental : ℕ → ℕ → ℕ → Result ℕ
  search_incremental value zero day =
      err (value_error "cannot determine next INCREMENTAL schedule slot")
  search_incremental value (suc n) day =
      search_times value day schedule.incremental_times (search_incremental value n (suc day))

  unfoldable pub next_incremental_after : ℕ → Result ℕ
  next_incremental_after value = search_incremental value 3700 (zone.local_day value)

  unfoldable pub next_after : String → ℕ → Result ℕ
  next_after kind value =
      if str_eq kind "FULL" then next_full_after value else next_incremental_after value

-- The loop of `advance_cursor`, with the number of slots that it may still represent.
unfoldable pub advance : (ℕ → Result ℕ) → ℕ → ℕ → ℕ → ℕ → Result (ℕ × ℕ)
advance step now zero represented current =
    if leb current now
    then err (value_error "schedule backlog is unreasonably large")
    else ok (represented, current)
advance step now (suc n) represented current =
    if leb current now
    then step current >>= (λ next. advance step now n (suc represented) next)
    else ok (represented, current)

unfoldable pub advance_cursor : Zone → ChainSchedule → String → ℕ → ℕ → Result (ℕ × ℕ)
advance_cursor zone schedule kind cursor now = do
  raise_if (ltb now cursor) (value_error "schedule cursor is not due")
  advance (next_after zone schedule kind) now 100000 0 cursor
