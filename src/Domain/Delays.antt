-- ===== src/Domain/Delays.antt =====
-- The bounds of `retry_delay_seconds`.
use web_data_extraction_engi.Prelude.{ℕ, zero, suc, ◌+◌, ◌-◌, ◌*◌, ◌^◌, ◌≤◌, ◌≡◌, ap, arith}
use web_data_extraction_engi.Domain.{capped_delay, jitter_bound, retry_delay}

power_pos : (n : ℕ) → 1 ≤ 2 ^ n
power_pos zero = omega arith
power_pos (suc n) = omega (arith, power_pos n)

-- If `uniform` stays in its interval, the delay of every attempt is at least the capped power of two,
-- which is at least a second, exceeds it by at most a second, and is at most 61 seconds; and the
-- capped power does not fall from one attempt to the next.
pub retry_delay-bounds :
    (uniform : ℕ → ℕ) (attempt : ℕ)
    → ((high : ℕ) → uniform high ≤ high)
    → (1_000 ≤ capped_delay attempt)
      × (capped_delay attempt ≤ retry_delay uniform attempt)
      × (retry_delay uniform attempt ≤ capped_delay attempt + 1_000)
      × (retry_delay uniform attempt ≤ 61_000)
      × (capped_delay attempt ≤ capped_delay (attempt + 1))
unfolding retry_delay
retry_delay-bounds uniform zero u =
    let h = u (jitter_bound zero) in
    (omega arith, omega arith, omega (arith, h), omega (arith, h), omega arith)
retry_delay-bounds uniform (suc n) u =
    let h = u (jitter_bound (suc n)) in
    let p = power_pos n in
    let a : 2 ^ (suc n - 1) ≡ 2 ^ n = ap (λ k. 2 ^ k) (omega arith) in
    let b : 2 ^ (suc n + 1 - 1) ≡ 2 ^ suc n = ap (λ k. 2 ^ k) (omega arith) in
    let c : 2 ^ suc n ≡ 2 * 2 ^ n = omega arith in
    (
      omega (arith, p, a),
      omega arith,
      omega (arith, h),
      omega (arith, h),
      omega (arith, p, a, b, c),
    )
