-- ===== src/Score/Hysteresis.antt =====
-- The switch decision `challenger_wins` of src/score.rs.
use causeway.Prelude.{◌≡◌, ◌⊎◌, true, false, arith}
use causeway.Score.{Float, NodeStats, is_probed, challenger_wins}

module _ (F : Float) where
  -- The margin that a challenger of this incumbent has to beat.
  abbrev pub margin : NodeStats F.F64 → F.F64 → F.F64
  margin incumbent hysteresis = F.mul hysteresis (F.max incumbent.success_ema (F.decimal 5 2))

  abbrev pub lead : NodeStats F.F64 → NodeStats F.F64 → F.F64
  lead a b = F.sub a.success_ema b.success_ema

  -- A node with no probe never takes over; and a node whose success lead exceeds the margin taken
  -- from itself is not challenged back by the node that it leads.
  pub challenger_wins_settled :
      (c i : NodeStats F.F64) (hysteresis : F.F64)
      → F.lt F.f0 (lead i c) ≡ false
      → (is_probed i ≡ false)
        ⊎ ((is_probed c ≡ true) × (F.lt (margin c hysteresis) (F.abs (lead i c)) ≡ true))
      → challenger_wins F i c hysteresis ≡ false
  unfolding challenger_wins
  challenger_wins_settled c i hysteresis behind h = ground arith
