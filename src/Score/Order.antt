-- ===== src/Score/Order.antt =====
-- The order `score_cmp` of src/score.rs.
use causeway.Prelude.{◌≡◌, refl, Option, none, some, Ordering, arith}
use causeway.Score.{Float, NodeStats, rtt_cmp, score_cmp}

abbrev pub swap : Ordering → Ordering
swap Ordering.lt = Ordering.gt
swap Ordering.eq = Ordering.eq
swap Ordering.gt = Ordering.lt

module _ (F : Float) where
  -- `total_cmp` is a total order, and `|a - b|` does not depend on the order of its arguments.
  pub record Symmetric : Type 0 where
    pub total_cmp_swap : (a b : F.F64) → F.total_cmp b a ≡ swap (F.total_cmp a b)
    pub tie_swap :
        (a b : F.F64)
        → F.le (F.abs (F.sub b a)) (F.decimal 1 4) ≡ F.le (F.abs (F.sub a b)) (F.decimal 1 4)

  rtt_cmp-swap : Symmetric → (x y : Option F.F64) → rtt_cmp F y x ≡ swap (rtt_cmp F x y)
  unfolding rtt_cmp
  rtt_cmp-swap laws (some x) (some y) = laws.total_cmp_swap y x
  rtt_cmp-swap laws (some x) none = refl
  rtt_cmp-swap laws none (some y) = refl
  rtt_cmp-swap laws none none = refl

  -- Exchanging the two nodes reverses the verdict, on ties and on missing round-trip times too.
  pub score_cmp-swap :
      Symmetric → (a b : NodeStats F.F64) → score_cmp F b a ≡ swap (score_cmp F a b)
  unfolding score_cmp
  score_cmp-swap laws a b = ground (
    arith,
    laws.tie_swap a.success_ema b.success_ema,
    laws.total_cmp_swap a.success_ema b.success_ema,
    rtt_cmp-swap laws a.rtt_ema_ms b.rtt_ema_ms,
  )
