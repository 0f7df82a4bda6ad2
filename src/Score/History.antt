-- ===== src/Score/History.antt =====
-- The latency history and the counters of src/score.rs over a run of probes.
use mathlib.Core.List.{append_assoc, append-nil}
use causeway.Prelude.{
  ℕ, ◌+◌, ◌%◌, ◌^◌, ◌<◌, ◌≡◌, refl, sym, ap, ◌∙◌, inl, inr, Option, none, some, List, [], ◌∷◌, ◌++◌,
  length, length-append, drop, last_n, length-last_n, last_n-room, last_n-full, ltb, ltb→lt,
  Bool-cases, arith, is_some, ◌||◌,
}
use causeway.Prelude.Int.{ℤ}
use causeway.Score.{Float, NodeStats, rtt_history, remember, default_stats, millis, record_probe}

module _ {A : Type 0} where
  drop_one-append :
      (xs : List A) (x : A) → 0 < length xs → drop 1 (xs ++ x ∷ []) ≡ drop 1 xs ++ x ∷ []
  drop_one-append [] x h = absurd (omega arith)
  drop_one-append (y ∷ ys) x h = refl

  remember-last_n :
      (xs : List A) (x : A) → remember (last_n rtt_history xs) x ≡ last_n rtt_history (xs ++ x ∷ [])
  unfolding remember
  remember-last_n xs x =
      let n = length-last_n rtt_history xs in
      let m = length-append (last_n rtt_history xs) (x ∷ []) in
      elim (Bool-cases (ltb rtt_history (length (last_n rtt_history xs ++ x ∷ [])))) [
        | inl full ↦ rw full (
            drop_one-append (last_n rtt_history xs) x
              (omega (arith, n, m, ltb→lt rtt_history _ full))
            ∙ sym (
                last_n-full rtt_history xs x (omega arith)
                  (omega (arith, n, m, ltb→lt rtt_history _ full))))
        | inr room ↦ rw room (sym (last_n-room rtt_history xs x (ground (arith, n, m))))
      ]

module _ (F : Float) (alpha : F.F64) where
  abbrev pub Probe : Type 0
  Probe = Option ℕ × ℤ

  pub record_all : NodeStats F.F64 → List Probe → NodeStats F.F64
  record_all s [] = s
  record_all s ((rtt, now) ∷ ps) = record_all (record_probe F s rtt alpha now) ps

  -- The round-trip times of the probes that succeeded, in milliseconds.
  pub rtts : List Probe → List F.F64
  rtts [] = []
  rtts ((none, now) ∷ ps) = rtts ps
  rtts ((some rtt, now) ∷ ps) = millis F rtt ∷ rtts ps

  record_all-recent :
      (ps : List Probe) (s : NodeStats F.F64) (xs : List F.F64)
      → s.recent_rtts_ms ≡ last_n rtt_history xs
      → (record_all s ps).recent_rtts_ms ≡ last_n rtt_history (xs ++ rtts ps)
  unfolding record_all rtts record_probe
  record_all-recent [] s xs h = rw append-nil h
  record_all-recent ((none, now) ∷ ps) s xs h =
      record_all-recent ps (record_probe F s none alpha now) xs h
  record_all-recent ((some rtt, now) ∷ ps) s xs h =
      rw (append_assoc xs (millis F rtt ∷ []) (rtts ps)) at (
        record_all-recent ps (record_probe F s (some rtt) alpha now) (xs ++ millis F rtt ∷ [])
          (ap (λ l. remember l (millis F rtt)) h ∙ remember-last_n xs (millis F rtt)))

  record_all-count :
      (ps : List Probe) (s : NodeStats F.F64) (n : ℕ)
      → s.probe_count ≡ n % 2 ^ 64
      → (record_all s ps).probe_count ≡ (n + length ps) % 2 ^ 64
  unfolding record_all record_probe
  record_all-count [] s n h = omega arith
  record_all-count ((rtt, now) ∷ ps) s n h =
      omega (arith, record_all-count ps (record_probe F s rtt alpha now) (n + 1) (omega arith))

  record_all-rtt_ema :
      (ps : List Probe) (s : NodeStats F.F64)
      → is_some (record_all s ps).rtt_ema_ms ≡ is_some s.rtt_ema_ms || ltb 0 (length (rtts ps))
  unfolding record_all record_probe rtts
  record_all-rtt_ema [] s = ground arith
  record_all-rtt_ema ((none, now) ∷ ps) s = record_all-rtt_ema ps (record_probe F s none alpha now)
  record_all-rtt_ema ((some rtt, now) ∷ ps) s =
      ground (arith, record_all-rtt_ema ps (record_probe F s (some rtt) alpha now))

  -- From a new node, after any run of probes: the latency history is the newest 20 round-trip
  -- times of the probes that succeeded, oldest first; the probe count is the number of probes, as
  -- a `u64`; and there is a smoothed round-trip time exactly if some probe succeeded.
  pub record_all_history :
      (ps : List Probe)
      → let s = record_all (default_stats F) ps in
        (s.recent_rtts_ms ≡ last_n rtt_history (rtts ps))
        × (s.probe_count ≡ length ps % 2 ^ 64)
        × (is_some s.rtt_ema_ms ≡ ltb 0 (length (rtts ps)))
  record_all_history ps = (
    record_all-recent ps (default_stats F) [] refl,
    record_all-count ps (default_stats F) 0 refl ∙ ap (λ (n : ℕ). n % 2 ^ 64) (omega arith),
    record_all-rtt_ema ps (default_stats F),
  )
