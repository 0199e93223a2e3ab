-- ===== src/Schedule/Slots.antt =====
-- vmbackupd/chain_schedule_v2.py: the slot after an instant, and the slots that a late cursor missed.
use vmbackupd.Prelude.{
  ℕ, zero, suc, ◌+◌, ◌≤◌, ◌<◌, ◌≡◌, refl, sym, subst, ◌⊎◌, inl, inr, false, String, arith, ltb, leb,
  ◌==◌, ==→eq, Bool-cases, Result, Result-cases, ok, err,
}
use vmbackupd.Schedule.{
  Zone, ChainSchedule, weekday, search_full, next_full_after, next_after, advance, advance_cursor,
}

module _ (zone : Zone) (schedule : ChainSchedule) where
  -- The first of the days that has a slot after the instant.
  abbrev pub IsSlot : ℕ → ℕ → ℕ → ℕ → Type 0
  IsSlot value first days slot =
      (value < slot)
      × (day : ℕ) × (first ≤ day)
      × (day < first + days)
      × (weekday day ≡ schedule.full_weekday)
      × (zone.local_candidate day schedule.full_time ≡ ok slot)
      × ((earlier : ℕ)
          → first ≤ earlier
          → earlier < day
          → weekday earlier ≡ schedule.full_weekday
          → (c : ℕ) × (zone.local_candidate earlier schedule.full_time ≡ ok c) × (c ≤ value))

  later :
      (value first days slot : ℕ)
      → (weekday first ≡ schedule.full_weekday
          → (c : ℕ) × (zone.local_candidate first schedule.full_time ≡ ok c) × (c ≤ value))
      → IsSlot value (suc first) days slot
      → IsSlot value first (suc days) slot
  later value first days slot at (after, day, lo, hi, w, c, before) = (
    after,
    day,
    omega arith,
    omega arith,
    w,
    c,
    λ earlier a b v. elim (eq_or_lt first earlier a) [
      | inl e ↦
          subst (λ z. (c : ℕ) × (zone.local_candidate z schedule.full_time ≡ ok c) × (c ≤ value)) e
            (at (subst (λ z. weekday z ≡ schedule.full_weekday) (sym e) v))
      | inr l ↦ before earlier l b v
    ],
  )
    where
      eq_or_lt : (a b : ℕ) → a ≤ b → (a ≡ b) ⊎ (suc a ≤ b)
      eq_or_lt a b h = ground arith

  search_full-IsSlot :
      (value days first slot : ℕ)
      → search_full zone schedule value days first ≡ ok slot
      → IsSlot value first days slot
  unfolding search_full
  search_full-IsSlot value zero first slot h = cc
  search_full-IsSlot value (suc n) first slot h =
      elim (Bool-cases (weekday first == schedule.full_weekday)) [
        | inr f ↦
            later value first n slot (λ e. absurd (ground arith))
              (search_full-IsSlot value n (suc first) slot (rw f at h))
        | inl t ↦ elim (Result-cases (zone.local_candidate first schedule.full_time)) [
          | inr (e, k) ↦ let h' : err e ≡ ok slot = rw (t, k) at h in cc
          | inl (c, k) ↦ elim (Bool-cases (ltb value c)) [
            | inl now ↦
                let h' : ok c ≡ ok slot = rw (t, k, now) at h in
                let same : c ≡ slot = cc in
                (
                  subst (λ z. value < z) same (ground arith),
                  first,
                  omega arith,
                  omega arith,
                  ==→eq (weekday first) schedule.full_weekday t,
                  subst (λ z. zone.local_candidate first schedule.full_time ≡ ok z) same k,
                  λ earlier a b v. absurd (omega arith),
                )
            | inr past ↦
                later value first n slot (λ e. (c, k, ground arith))
                  (search_full-IsSlot value n (suc first) slot (rw (t, k, past) at h))
          ]
        ]
      ]

  -- A slot that `next_full_after` returns is after the instant, and it is the slot of the first day,
  -- from the local date of the instant on and within fifteen days, that has the weekday of the
  -- schedule and whose slot is after the instant: the slots of the earlier such days are not.
  pub next_full_after-IsSlot :
      (value slot : ℕ)
      → next_full_after zone schedule value ≡ ok slot
      → IsSlot value (zone.local_day value) 15 slot
  unfolding next_full_after
  next_full_after-IsSlot value slot h = search_full-IsSlot value 15 (zone.local_day value) slot h

-- From the first instant so many steps, each from an instant that is due, lead to the last.
abbrev pub Steps : (ℕ → Result ℕ) → ℕ → ℕ → ℕ → ℕ → Type 0
Steps step now zero first last = first ≡ last
Steps step now (suc n) first last =
    (first ≤ now) × (next : ℕ) × (step first ≡ ok next) × Steps step now n next last

abbrev pub HasCaughtUp : (ℕ → Result ℕ) → ℕ → ℕ → ℕ → ℕ × ℕ → Type 0
HasCaughtUp step now represented current out =
    (n : ℕ) × (out.0 ≡ represented + n) × Steps step now n current out.1 × (now < out.1)

module _ (step : ℕ → Result ℕ) (now : ℕ) where
  stays :
      (represented current : ℕ) (out : ℕ × ℕ)
      → leb current now ≡ false
      → ok (represented, current) ≡ ok out
      → HasCaughtUp step now represented current out
  stays represented current out f h =
      let same : (represented, current) ≡ out = cc in
      subst (HasCaughtUp step now represented current) same (0, omega arith, refl, ground arith)

  advance-HasCaughtUp :
      (fuel represented current : ℕ) (out : ℕ × ℕ)
      → advance step now fuel represented current ≡ ok out
      → HasCaughtUp step now represented current out
  unfolding advance
  advance-HasCaughtUp zero represented current out h = elim (Bool-cases (leb current now)) [
    | inl t ↦ let h' : err _ ≡ ok out = rw t at h in cc
    | inr f ↦ stays represented current out f (rw f at h)
  ]
  advance-HasCaughtUp (suc fuel) represented current out h = elim (Bool-cases (leb current now)) [
    | inr f ↦ stays represented current out f (rw f at h)
    | inl t ↦ elim (Result-cases (step current)) [
      | inr (e, k) ↦ let h' : err e ≡ ok out = rw (t, k) at h in cc
      | inl (next, k) ↦
          let (n, count, path, after) =
            advance-HasCaughtUp fuel (suc represented) next out (rw (t, k) at h) in
          (suc n, omega (arith, count), (ground arith, next, k, path), after)
    ]
  ]

-- A cursor that is returned is after the present, and the number that is returned with it counts
-- the slots from the given cursor on that were due, each the next one after the slot before, of
-- which the given cursor is the first.
pub advance_cursor-HasCaughtUp :
    (zone : Zone) (schedule : ChainSchedule) (kind : String) (cursor now : ℕ) (out : ℕ × ℕ)
    → advance_cursor zone schedule kind cursor now ≡ ok out
    → (0 < out.0) × HasCaughtUp (next_after zone schedule kind) now 0 cursor out
unfolding advance_cursor
advance_cursor-HasCaughtUp zone schedule kind cursor now out h =
    elim (Bool-cases (ltb now cursor)) [
      | inl t ↦ let h' : err _ ≡ ok out = rw t at h in cc
      | inr f ↦
          let caught_up =
            advance-HasCaughtUp (next_after zone schedule kind) now 100000 0 cursor out
              (rw f at h) in
          (
            some_due (next_after zone schedule kind) cursor now out (ground arith) caught_up,
            caught_up,
          )
    ]
  where
    some_due :
        (step : ℕ → Result ℕ) (cursor now : ℕ) (out : ℕ × ℕ)
        → cursor ≤ now
        → HasCaughtUp step now 0 cursor out
        → 0 < out.0
    some_due step cursor now out le (zero, count, path, after) = absurd (omega (arith, path, after))
    some_due step cursor now out le (suc n, count, path, after) = omega (arith, count)
