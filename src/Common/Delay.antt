-- ===== src/Common/Delay.antt =====
-- How long the waits of src/common.c last.
use motor_test.Base.{ℕ, ◌+◌, ◌-◌, ◌*◌, ◌%◌, ◌^◌, ◌<◌, ◌≤◌, ◌≡◌, refl, ap, arith, lt→ltb, ge→ltb}
use motor_test.Base.{List, [], ◌∷◌, ◌++◌, All, some}
use motor_test.Common.{TimeVal, timebase64_get, timebase64_diff_us, wait_until, delay_us, delay_ms}

-- The time of a reading, before it is cut to 64 bits.
abbrev pub micros : TimeVal → ℕ
micros tv = tv.tv_sec * 1000000 + tv.tv_usec

elapsed :
    (start now : TimeVal)
    → micros start ≤ micros now
    → micros now < 2 ^ 64
    → timebase64_diff_us now (timebase64_get start) ≡ micros now - micros start
unfolding timebase64_diff_us timebase64_get
elapsed start now o b = omega arith

-- A reading between the start and the time that is waited for.
abbrev pub IsEarly : TimeVal → ℕ → TimeVal → Type 0
IsEarly start us tv =
    (micros start ≤ micros tv) × (micros tv < micros start + us) × (micros tv < 2 ^ 64)

wait_until-first :
    (us : ℕ) (start : TimeVal) (early : List TimeVal) (tv : TimeVal) (later : List TimeVal)
    → All (IsEarly start us) early
    → micros start + us ≤ micros tv
    → micros tv < 2 ^ 64
    → wait_until (timebase64_get start) us (early ++ tv ∷ later) ≡ some tv
unfolding wait_until
wait_until-first us start [] tv later h d b =
    rw (elapsed start tv (omega arith) b, ge→ltb (micros tv - micros start) us (omega arith)) refl
wait_until-first us start (x ∷ early) tv later h d b =
    let rest = wait_until-first us start early tv later h.1 d b in
    rw (elapsed start x h.0.0 h.0.2, lt→ltb (micros x - micros start) us (omega (arith, h.0))) rest

-- While the clock does not go back and stays below 2^64 microseconds, `delay_us` ends at the first
-- reading that is at least the given time after the start.
pub delay_us-first :
    (us : ℕ) (start : TimeVal) (early : List TimeVal) (tv : TimeVal) (later : List TimeVal)
    → All (IsEarly start us) early
    → micros start + us ≤ micros tv
    → micros tv < 2 ^ 64
    → delay_us us (start ∷ (early ++ tv ∷ later)) ≡ some tv
unfolding delay_us
delay_us-first us start early tv later h d b = wait_until-first us start early tv later h d b

-- The product `ms * 1000` wraps: a wait of 2^29 milliseconds more is no longer.
delay_ms-wraps : (clock : List TimeVal) (n : ℕ) → delay_ms (n + 2 ^ 29) clock ≡ delay_ms n clock
unfolding delay_ms
delay_ms-wraps clock n =
    let same : (n + 2 ^ 29) * 1000 % 2 ^ 32 ≡ n * 1000 % 2 ^ 32 = omega arith in
    ap (λ us. delay_us us clock) same
