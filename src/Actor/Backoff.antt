-- ===== src/Actor/Backoff.antt =====
-- header/actor-zeta/actor/cooperative_actor.hpp, `exponential_backoff` and `cas_attempt`: how long a
-- loop waits before it tries its exchange again, and when it gives up.
use actor_zeta.Base.{
  ℕ, suc, ◌-◌, ◌^◌, ◌≤◌, ◌≡◌, refl, true, Option, none, some, ltb, if◌then◌else◌, Bool-cases, inl,
  inr, arith,
}

pub data Wait : Type 0 where
  spin yield_thread : Wait
  sleep : (microseconds : ℕ) → Wait

abbrev pub spin_phase_end : ℕ
spin_phase_end = 4

abbrev pub yield_phase_end : ℕ
yield_phase_end = 10

abbrev pub max_sleep : ℕ
max_sleep = 1000

abbrev pub max_shift : ℕ
max_shift = 10

abbrev pub max_attempts : ℕ
max_attempts = 1000

-- `none` is a shift that an `int` cannot hold, which the language leaves undefined.
abbrev pub shift_one : ℕ → Option ℕ
shift_one exponent = if ltb exponent 31 then some (2 ^ exponent) else none

-- The microseconds of the third phase.
unfoldable pub sleep_us : ℕ → Option ℕ
sleep_us attempt =
    let exponent = attempt - yield_phase_end in
    elim (if ltb exponent max_shift then shift_one exponent else some max_sleep) [
      | none ↦ none
      | some computed ↦ some (if ltb computed max_sleep then computed else max_sleep)
    ]

-- For attempts that are not negative.
unfoldable pub exponential_backoff : ℕ → Option Wait
unfolding sleep_us
exponential_backoff attempt =
    if ltb attempt spin_phase_end
    then some spin
    else if ltb attempt yield_phase_end
    then some yield_thread
    else elim (sleep_us attempt) [ none ↦ none | some us ↦ some (sleep us) ]

-- The wait and the new count; `none` is the abort.
unfoldable pub cas_attempt : ℕ → Option (Option Wait × ℕ)
unfolding exponential_backoff
cas_attempt attempts =
    let next = suc attempts in
    if ltb next max_attempts then some (exponential_backoff attempts, next) else none

-- However often a loop has tried, the wait is defined, and no sleep is longer than a millisecond.
backoff_bounded : (attempt : ℕ) → (us : ℕ) × (sleep_us attempt ≡ some us) × (us ≤ max_sleep)
unfolding sleep_us
backoff_bounded attempt =
    let exponent = attempt - yield_phase_end in
    elim (Bool-cases (ltb exponent max_shift)) [
      | inl e ↦
          let small : ltb exponent 31 ≡ true = ground arith in
          let capped = if ltb (2 ^ exponent) max_sleep then 2 ^ exponent else max_sleep in
          (capped, rw (sleep_us, e, small) refl, ground arith)
      | inr e ↦ (max_sleep, rw (sleep_us, e) refl, omega arith)
    ]
