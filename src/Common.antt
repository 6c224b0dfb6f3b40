-- ===== src/Common.antt =====
-- src/common.c: the clock, in microseconds on 64 bits, and the waits that poll it.
pub mod Delay
use motor_test.Base.{ℕ, zero, suc, ◌+◌, ◌-◌, ◌*◌, ◌/◌, ◌%◌, ◌^◌, if◌then◌else◌, ltb, List, [], ◌∷◌}
use motor_test.Base.{Option, some, none}

-- What `gettimeofday` stores, each field as its conversion to `uint64_t`.
pub record TimeVal : Type 0 where
  pub tv_sec : ℕ
  pub tv_usec : ℕ

unfoldable pub timebase64_get : TimeVal → ℕ
timebase64_get tv = (tv.tv_sec * 1000000 + tv.tv_usec) % 2 ^ 64

-- The time since `time_base`, on 64 bits.
unfoldable pub timebase64_diff_us : TimeVal → ℕ → ℕ
unfolding timebase64_get
timebase64_diff_us tv time_base = (timebase64_get tv + (2 ^ 64 - time_base)) % 2 ^ 64

unfoldable pub timebase64_diff_ms : TimeVal → ℕ → ℕ
unfolding timebase64_diff_us
timebase64_diff_ms tv time_base = timebase64_diff_us tv time_base / 1000

-- The loop of `delay_us`: the reading of the clock that ends it, `none` where it goes on after all of
-- the readings.
unfoldable pub wait_until : ℕ → ℕ → List TimeVal → Option TimeVal
unfolding timebase64_diff_us
wait_until time_st us [] = none
wait_until time_st us (tv ∷ clock) =
    let later = wait_until time_st us clock in
    if ltb (timebase64_diff_us tv time_st) us then later else some tv

-- `us` is a `uint32_t`; the first reading of the clock is the start.
unfoldable pub delay_us : ℕ → List TimeVal → Option TimeVal
unfolding wait_until timebase64_get
delay_us us [] = none
delay_us us (tv ∷ clock) = wait_until (timebase64_get tv) us clock

-- `ms * 1000` is computed in `uint32_t`.
unfoldable pub delay_ms : ℕ → List TimeVal → Option TimeVal
unfolding delay_us
delay_ms ms clock = delay_us (ms * 1000 % 2 ^ 32) clock
