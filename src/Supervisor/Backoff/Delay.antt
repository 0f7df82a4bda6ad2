-- ===== src/Supervisor/Backoff/Delay.antt =====
-- The delays of src/supervisor.rs in closed form.
use native.Mathlib.Nat.{pow-suc}
use causeway.Prelude.{
  ℕ, zero, suc, ◌+◌, ◌*◌, ◌^◌, ◌≤◌, ◌<◌, ◌≡◌, refl, ap, inl, inr, min, leb, leb→le, Bool-cases,
  arith,
}
use causeway.Supervisor.Backoff.{
  AutoRecoveryBackoff, auto_recovery_initial_backoff, auto_recovery_max_backoff, u32_max, doubled,
  is_ready_at, record_failure_at,
}

pow_pos : (n : ℕ) → 1 ≤ 2 ^ n
pow_pos zero = omega arith
pow_pos (suc n) = omega (arith, pow-suc 2 n, pow_pos n)

pow_step : (d n : ℕ) → d * 2 ^ suc n ≡ d * 2 * 2 ^ n
pow_step d n = omega (arith, ap (λ (t : ℕ). d * t) (pow-suc 2 n))

le-mul_pos : (d x : ℕ) → 1 ≤ x → d ≤ d * x
le-mul_pos d x h = grind arith

doubled-eq :
    (n delay : ℕ)
    → delay ≤ auto_recovery_max_backoff
    → doubled n delay ≡ min (delay * 2 ^ n) auto_recovery_max_backoff
unfolding doubled
doubled-eq zero delay h = omega arith
doubled-eq (suc n) delay h = elim (Bool-cases (leb (delay * 2) auto_recovery_max_backoff)) [
  | inl small ↦
      let fits : delay * 2 ≤ auto_recovery_max_backoff = leb→le _ _ small in
      let e : min (delay * 2) auto_recovery_max_backoff ≡ delay * 2 = omega arith in
      let ih = doubled-eq n (delay * 2) fits in ground (arith, e, ih, pow_step delay n, pow_pos n)
  | inr large ↦
      let e : min (delay * 2) auto_recovery_max_backoff ≡ auto_recovery_max_backoff =
        ground arith in
      let ih = doubled-eq n auto_recovery_max_backoff (omega arith) in
      ground (arith, e, ih, pow_step delay n, pow_pos n, le-mul_pos (delay * 2) (2 ^ n) (pow_pos n))
]

-- After `n` failures in a row, with no success between, the next failure delays the recovery by
-- one minute doubled `n` times, and never by more than a quarter of an hour; until then recovery
-- is not ready, and from then on it is.
pub record_failure_at_delay :
    (b : AutoRecoveryBackoff) (now later : ℕ)
    → b.consecutive_failures < u32_max
    → let (after, delay) = record_failure_at b now in
      (delay
        ≡ min
            (auto_recovery_initial_backoff * 2 ^ b.consecutive_failures)
            auto_recovery_max_backoff)
      × (after.consecutive_failures ≡ b.consecutive_failures + 1)
      × (is_ready_at after later ≡ leb (now + delay) later)
unfolding record_failure_at is_ready_at
record_failure_at_delay b now later h = (
  ground (arith, doubled-eq b.consecutive_failures auto_recovery_initial_backoff),
  ground arith,
  refl,
)
