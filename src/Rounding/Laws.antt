-- ===== src/Rounding/Laws.antt =====
-- The laws of the rounding that the scaling loop makes: order, exactness and the error.
use native.Mathlib.Nat.{mul-le-mul_right, pow-suc}
use native.Mathlib.Decide.{dec_lt}
use motor_test.Base.{ℕ, zero, suc, ◌+◌, ◌*◌, ◌^◌, ◌≤◌, ◌<◌, ◌≡◌, ◌∙◌, sym, ap, arith}
use motor_test.Base.{ltb, Bool-cases, inl, inr, ltb→lt, ltb→ge, ge→ltb, lt→ltb}
use motor_test.Rounding.{nearest, round_to, nearest_mul, nearest-ge, nearest-le, nearest_mono}
use motor_test.Rounding.{nearest_error}

-- One turn of the loop, on each side of its test.
module _ (fuel half n d : ℕ) where
  pub round_to_narrow : n < 2 * half * d → round_to (suc fuel) half n d ≡ nearest n d
  unfolding round_to
  round_to_narrow h = rw (lt→ltb _ _ h)

  pub round_to_wide :
      2 * half * d ≤ n → round_to (suc fuel) half n d ≡ 2 * round_to fuel half n (2 * d)
  unfolding round_to
  round_to_wide h = rw (ge→ltb _ _ h)

-- A quotient with all its digits stays so.
pub half-le-round_to : (fuel half n d : ℕ) → 0 < d → half * d ≤ n → half ≤ round_to fuel half n d
half-le-round_to zero half n d pos h = unfold round_to in nearest-ge n d half pos h
half-le-round_to (suc fuel) half n d pos h = elim (Bool-cases (ltb n (2 * half * d))) [
  | inl p ↦ rw (round_to_narrow fuel half n d (ltb→lt _ _ p)) (nearest-ge n d half pos h)
  | inr p ↦
      let wide : 2 * half * d ≤ n = ltb→ge _ _ p in
      let rest = half-le-round_to fuel half n (2 * d) (omega arith) (omega arith) in
      rw (round_to_wide fuel half n d wide) (omega (arith, rest))
]

-- A number that fits is kept.
pub round_to_exact : (fuel half k d : ℕ) → 0 < d → k ≤ 2 * half → round_to fuel half (k * d) d ≡ k
round_to_exact zero half k d pos h = unfold round_to in nearest_mul k d pos
round_to_exact (suc fuel) half k d pos h = elim (dec_lt k (2 * half)) [
  | yes p ↦ rw (round_to_narrow fuel half (k * d) d (below p)) (nearest_mul k d pos)
  | no p ↦
      let top : k ≡ 2 * half = omega arith in
      let scaled : k * d ≡ half * (2 * d) = omega (arith, ap (λ (t : ℕ). t * d) top) in
      let inner = round_to_exact fuel half half (2 * d) (omega arith) (omega arith) in
      rw (round_to_wide fuel half (k * d) d (omega (arith, scaled)), scaled, inner) (sym top)
]
  where
    below : k < 2 * half → k * d < 2 * half * d
    below p = omega (arith, mul-le-mul_right d p)

pub round_to_mono :
    (fuel half m n d : ℕ) → 0 < d → m ≤ n → round_to fuel half m d ≤ round_to fuel half n d
round_to_mono zero half m n d pos h = unfold round_to in nearest_mono m n d pos h
round_to_mono (suc fuel) half m n d pos h = elim (dec_lt m (2 * half * d)) [
  | yes p ↦ elim (dec_lt n (2 * half * d)) [
    | yes q ↦
        rw (round_to_narrow fuel half m d p, round_to_narrow fuel half n d q)
          (nearest_mono m n d pos h)
    | no q ↦
        let full = half-le-round_to fuel half n (2 * d) (omega arith) (omega arith) in
        rw (round_to_narrow fuel half m d p, round_to_wide fuel half n d (omega arith))
          (omega (arith, full, nearest-le m d (2 * half) pos (omega arith)))
  ]
  | no p ↦
      let inner = round_to_mono fuel half m n (2 * d) (omega arith) h in
      rw (round_to_wide fuel half m d (omega arith), round_to_wide fuel half n d (omega arith))
        (omega (arith, inner))
]

-- Below a quotient with all its digits the result is bounded by that quotient.
pub round_to-le_half : (fuel half n d : ℕ) → 0 < d → n ≤ half * d → round_to fuel half n d ≤ half
round_to-le_half fuel half n d pos h = omega (
  arith,
  round_to_exact fuel half half d pos (omega arith),
  round_to_mono fuel half n (half * d) d pos h,
)

nearest_relative : (half n d : ℕ) → half * d ≤ n → nearest n d * d * half ≤ n * (half + 1)
nearest_relative half n d h = omega (arith, mul-le-mul_right half (nearest_error n d))

-- Relative to a quotient with all its digits, the error is at most one part in `half`.
pub round_to_error :
    (fuel half n d : ℕ) → half * d ≤ n → round_to fuel half n d * d * half ≤ n * (half + 1)
round_to_error zero half n d h = unfold round_to in nearest_relative half n d h
round_to_error (suc fuel) half n d h = elim (dec_lt n (2 * half * d)) [
  | yes p ↦ rw (round_to_narrow fuel half n d p) (nearest_relative half n d h)
  | no p ↦
      let inner = round_to_error fuel half n (2 * d) (omega arith) in
      rw (round_to_wide fuel half n d (omega arith)) (omega (arith, inner))
]

-- A number of few enough digits, moved up by a power of two, is kept too.
pub round_to_scaled :
    (fuel half k e d : ℕ)
    → 0 < d
    → k ≤ 2 * half
    → e ≤ fuel
    → round_to fuel half (k * 2 ^ e * d) d ≡ k * 2 ^ e
round_to_scaled fuel half k zero d pos h enough =
    round_to_exact fuel half (k * 2 ^ 0) d pos (omega arith)
round_to_scaled zero half k (suc e) d pos h enough = absurd (omega arith)
round_to_scaled (suc fuel) half k (suc e) d pos h enough =
    elim (dec_lt (k * 2 ^ suc e) (2 * half)) [
      | yes p ↦ round_to_exact (suc fuel) half (k * 2 ^ suc e) d pos (omega arith)
      | no p ↦
          let doubled : k * 2 ^ suc e ≡ 2 * (k * 2 ^ e) =
            omega (arith, ap (λ (t : ℕ). k * t) (pow-suc 2 e)) in
          let regroup : k * 2 ^ suc e * d ≡ k * 2 ^ e * (2 * d) =
            omega (arith, ap (λ (t : ℕ). t * d) doubled) in
          let wide : 2 * half * d ≤ k * 2 ^ suc e * d = mul-le-mul_right d (omega arith) in
          let inner = round_to_scaled fuel half k e (2 * d) (omega arith) h (omega arith) in
          rw (round_to_wide fuel half (k * 2 ^ suc e * d) d wide, regroup, inner) (sym doubled)
    ]

-- More fuel changes nothing once the quotient is below the largest digits, doubled once for each turn.
round_to-more_fuel :
    (fuel half n d : ℕ)
    → n < 2 * half * d * 2 ^ fuel
    → round_to (suc fuel) half n d ≡ round_to fuel half n d
unfolding round_to
round_to-more_fuel zero half n d h = round_to_narrow zero half n d (omega arith)
round_to-more_fuel (suc fuel) half n d h = elim (dec_lt n (2 * half * d)) [
  | yes p ↦ round_to_narrow (suc fuel) half n d p ∙ sym (round_to_narrow fuel half n d p)
  | no p ↦
      let regroup : 2 * half * d * (2 ^ fuel * 2) ≡ 2 * half * (2 * d) * 2 ^ fuel = omega arith in
      let doubled : 2 * half * d * 2 ^ suc fuel ≡ 2 * half * (2 * d) * 2 ^ fuel =
        ap (λ (t : ℕ). 2 * half * d * t) (pow-suc 2 fuel) ∙ regroup in
      let inner = round_to-more_fuel fuel half n (2 * d) (omega (arith, doubled)) in
      round_to_wide (suc fuel) half n d (omega arith)
      ∙ ap (λ (t : ℕ). 2 * t) inner
      ∙ sym (round_to_wide fuel half n d (omega arith))
]
