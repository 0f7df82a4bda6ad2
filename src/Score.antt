-- ===== src/Score.antt =====
-- Node statistics and their order (src/score.rs). The floating-point type is a parameter: antt has
-- no floats, and the laws that a theorem uses stand among its hypotheses.
pub mod History
pub mod Order
pub mod Hysteresis
use causeway.Prelude.{
  ℕ, ◌+◌, ◌%◌, ◌^◌, Bool, true, false, not, Option, none, some, List, [], ◌∷◌, ◌++◌, Ordering, ltb,
  length, drop, if◌then◌else◌,
}
use causeway.Prelude.Int.{ℤ}

-- The operations of `f64` that the program calls. `seconds` is `Duration::as_secs_f64`, of a
-- duration in nanoseconds.
pub record Float : Type 1 where
  pub F64 : Type 0
  pub add : F64 → F64 → F64
  pub sub : F64 → F64 → F64
  pub mul : F64 → F64 → F64
  pub abs : F64 → F64
  pub max : F64 → F64 → F64
  pub lt : F64 → F64 → Bool
  pub le : F64 → F64 → Bool
  pub total_cmp : F64 → F64 → Ordering
  pub seconds : ℕ → F64
  pub f0 : F64
  pub f1 : F64
  pub f1000 : F64
  pub decimal : ℕ → ℕ → F64  -- the literal `n / 10^k`

pub record NodeStats (F64 : Type 0) : Type 0 where
  pub success_ema : F64
  pub rtt_ema_ms : Option F64
  pub recent_rtts_ms : List F64
  pub consecutive_health_failures : ℕ
  pub probe_count : ℕ
  pub last_probe_unix : Option ℤ

abbrev pub rtt_history : ℕ
rtt_history = 20

unfoldable pub is_probed : {F64 : Type 0} → NodeStats F64 → Bool
is_probed s = ltb 0 s.probe_count

-- The history after a new sample: `push`, and `remove(0)` past the cap.
pub remember : {F64 : Type 0} → List F64 → F64 → List F64
remember recent ms =
    let longer = recent ++ ms ∷ [] in
    if ltb rtt_history (length longer) then drop 1 longer else longer

module _ (F : Float) where
  open F use {F64, add, sub, mul, abs, max, lt, le, total_cmp, seconds, f0, f1, f1000, decimal}

  pub success_cmp : F64 → F64 → Ordering
  success_cmp a b = if le (abs (sub a b)) (decimal 1 4) then Ordering.eq else total_cmp a b

  abbrev pub default_stats : NodeStats F64
  default_stats = record {
    success_ema = f0;
    rtt_ema_ms = none;
    recent_rtts_ms = [];
    consecutive_health_failures = 0;
    probe_count = 0;
    last_probe_unix = none;
  }

  abbrev pub blend : F64 → F64 → F64 → F64
  blend alpha sample old = add (mul alpha sample) (mul (sub f1 alpha) old)

  abbrev pub millis : ℕ → F64
  millis rtt = mul (seconds rtt) f1000

  pub sample_of : Option ℕ → F64
  sample_of none = f0
  sample_of (some rtt) = f1

  pub rtt_after : F64 → Option F64 → Option ℕ → Option F64
  rtt_after alpha old none = old
  rtt_after alpha none (some rtt) = some (millis rtt)
  rtt_after alpha (some prev) (some rtt) = some (blend alpha (millis rtt) prev)

  pub recent_after : List F64 → Option ℕ → List F64
  recent_after recent none = recent
  recent_after recent (some rtt) = remember recent (millis rtt)

  -- `probe_count` is a `u64`.
  pub record_probe : NodeStats F64 → Option ℕ → F64 → ℤ → NodeStats F64
  unfolding sample_of rtt_after recent_after remember is_probed
  record_probe s rtt alpha now_unix = record {
    success_ema =
        if not (is_probed s) then sample_of rtt else blend alpha (sample_of rtt) s.success_ema;
    rtt_ema_ms = rtt_after alpha s.rtt_ema_ms rtt;
    recent_rtts_ms = recent_after s.recent_rtts_ms rtt;
    consecutive_health_failures = s.consecutive_health_failures;
    probe_count = (s.probe_count + 1) % 2 ^ 64;
    last_probe_unix = some now_unix;
  }

  -- Smaller RTT ranks higher, and no RTT ranks last.
  pub rtt_cmp : Option F64 → Option F64 → Ordering
  rtt_cmp (some x) (some y) = total_cmp y x
  rtt_cmp (some x) none = Ordering.gt
  rtt_cmp none (some y) = Ordering.lt
  rtt_cmp none none = Ordering.eq

  pub score_cmp : NodeStats F64 → NodeStats F64 → Ordering
  unfolding success_cmp rtt_cmp
  score_cmp a b = elim (success_cmp a.success_ema b.success_ema) [
    | Ordering.lt ↦ Ordering.lt
    | Ordering.eq ↦ rtt_cmp a.rtt_ema_ms b.rtt_ema_ms
    | Ordering.gt ↦ Ordering.gt
  ]

  pub rtt_wins : Option F64 → Option F64 → F64 → Bool
  rtt_wins (some c) (some i) hysteresis = lt (mul c (add f1 hysteresis)) i
  rtt_wins (some c) none hysteresis = true
  rtt_wins none i hysteresis = false

  -- `x > y` is `lt y x`.
  pub challenger_wins : NodeStats F64 → NodeStats F64 → F64 → Bool
  unfolding is_probed rtt_wins
  challenger_wins challenger incumbent hysteresis =
      let margin = mul hysteresis (max incumbent.success_ema (decimal 5 2)) in
      let ds = sub challenger.success_ema incumbent.success_ema in
      if not (is_probed challenger)
      then false
      else if not (is_probed incumbent)
      then true
      else if lt margin (abs ds)
      then lt f0 ds
      else rtt_wins challenger.rtt_ema_ms incumbent.rtt_ema_ms hysteresis
