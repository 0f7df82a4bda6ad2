-- ===== src/Health/Sampled/AnyFail.antt =====
-- The verdict of a health tick of several samples (src/health.rs, `is_healthy_sampled`).
use causeway.Prelude.{
  ℕ, zero, suc, ◌+◌, ◌≤◌, ◌<◌, ◌≡◌, refl, sym, subst, ap, ◌∙◌, inl, inr, Bool, true, false, ◌==◌,
  max, Bool-cases, arith,
}
use causeway.Prelude.Text.{Text}
use causeway.Health.Exchange.{Peer, is_healthy}
use causeway.Health.Sampled.{
  SampledVerdict, healthy, unhealthy, cancelled, sample_from, is_healthy_sampled,
}

-- The samples from `i` up to `k` are all taken and pass.
abbrev pub Passed : (ℕ → Bool) → (ℕ → Bool) → ℕ → ℕ → Type 0
Passed is_cancelled passes i k =
    (j : ℕ) → i ≤ j → j < k → (is_cancelled j ≡ false) × (passes j ≡ true)

-- What a verdict after `taken` of `n` samples says, from sample `i` on.
abbrev pub Says : (ℕ → Bool) → (ℕ → Bool) → ℕ → ℕ → SampledVerdict × ℕ → Type 0
Says is_cancelled passes i n (healthy, taken) = (taken ≡ n) × Passed is_cancelled passes i n
Says is_cancelled passes i n (unhealthy, taken) =
    (k : ℕ) × (taken ≡ k + 1)
    × (k < n)
    × (is_cancelled k ≡ false)
    × (passes k ≡ false)
    × Passed is_cancelled passes i k
Says is_cancelled passes i n (cancelled, taken) =
    (taken < n) × (is_cancelled taken ≡ true) × Passed is_cancelled passes i taken

wider :
    (c p : ℕ → Bool) (i k : ℕ) → c i ≡ false → p i ≡ true → Passed c p (i + 1) k → Passed c p i k
wider c p i k h q r j a b = elim (Bool-cases (j == i)) [
  | inl e ↦ let s : i ≡ j = ground arith in (ap c (sym s) ∙ h, ap p (sym s) ∙ q)
  | inr e ↦ r j (ground arith) b
]

Says-wider :
    (c p : ℕ → Bool) (i n : ℕ) (o : SampledVerdict × ℕ)
    → c i ≡ false
    → p i ≡ true
    → Says c p (i + 1) n o
    → Says c p i n o
Says-wider c p i n (healthy, t) h q (e, r) = (e, wider c p i n h q r)
Says-wider c p i n (unhealthy, t) h q (k, e, l, x, y, r) = (k, e, l, x, y, wider c p i k h q r)
Says-wider c p i n (cancelled, t) h q (l, x, r) = (l, x, wider c p i t h q r)

sample_from-Says : (c p : ℕ → Bool) (left i : ℕ) → Says c p i (i + left) (sample_from c p left i)
unfolding sample_from
sample_from-Says c p zero i = (omega arith, (λ j a b. absurd (omega arith)))
sample_from-Says c p (suc left) i = elim (Bool-cases (c i)) [
  | inl e ↦ rw e (omega arith, e, (λ j a b. absurd (omega arith)))
  | inr e ↦ elim (Bool-cases (p i)) [
    | inr f ↦ rw (e, f) (i, refl, omega arith, e, f, (λ j a b. absurd (omega arith)))
    | inl f ↦
        rw (e, f)
          (Says-wider c p i (i + suc left) (sample_from c p left (i + 1)) e f (
            subst (λ n. Says c p (i + 1) n (sample_from c p left (i + 1))) (omega arith)
              (sample_from-Says c p left (i + 1))))
  ]
]

-- With at least one sample, a tick is healthy just after all samples passed and no cancellation was
-- seen before any of them; it is unhealthy at the first sample that fails, with no cancellation seen
-- and all earlier ones passed; and it is cancelled, with no verdict on the path, if the first thing
-- that went wrong is a cancellation. It takes no sample beyond the one that decides.
pub is_healthy_sampled-Says :
    (peer : ℕ → Peer) (url : Text) (samples : ℕ) (is_cancelled : ℕ → Bool)
    → Says is_cancelled
        (λ i. is_healthy (peer i) url)
        0
        (max samples 1)
        (is_healthy_sampled peer url samples is_cancelled)
unfolding is_healthy_sampled
is_healthy_sampled-Says peer url samples is_cancelled =
    let passes = λ (i : ℕ). is_healthy (peer i) url in
    let n = max samples 1 in
    subst (λ k. Says is_cancelled passes 0 k (sample_from is_cancelled passes n 0)) (omega arith)
      (sample_from-Says is_cancelled passes n 0)
