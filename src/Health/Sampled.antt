-- ===== src/Health/Sampled.antt =====
-- A health tick of several samples (src/health.rs, `is_healthy_sampled`).
pub mod AnyFail
use causeway.Prelude.{ℕ, zero, suc, ◌+◌, Bool, true, false, if◌then◌else◌, max}
use causeway.Prelude.Text.{Text}
use causeway.Health.Exchange.{Peer, is_healthy}

pub data SampledVerdict : Type 0 where
  healthy unhealthy cancelled : SampledVerdict

-- The samples from number `i` on: the verdict, and how many were taken in all. `is_cancelled i` is
-- the answer before sample `i`, `passes i` that of the sample.
sample_from : (ℕ → Bool) → (ℕ → Bool) → ℕ → ℕ → SampledVerdict × ℕ
sample_from is_cancelled passes zero i = (healthy, i)
sample_from is_cancelled passes (suc left) i =
    let rest = sample_from is_cancelled passes left (i + 1) in
    if is_cancelled i then (cancelled, i) else if passes i then rest else (unhealthy, i + 1)

pub is_healthy_sampled : (ℕ → Peer) → Text → ℕ → (ℕ → Bool) → SampledVerdict × ℕ
unfolding sample_from is_healthy
is_healthy_sampled peer url samples is_cancelled =
    sample_from is_cancelled (λ i. is_healthy (peer i) url) (max samples 1) 0
