-- ===== src/Decisions/EntryGates/Pressure.antt =====
-- The first gate and the label of the pressure agree.
use pcr_momentum.Base.{◌≡◌, ◌↔◌, true, some, arith}
use pcr_momentum.Float.{Float, IsOrdered, IsNum, ◌≤f◌}
use pcr_momentum.Snapshot.{ce, pe}
use pcr_momentum.Metrics.{bullish, bearish, classify_pressure}
use pcr_momentum.Decisions.EntryGates.{gate1_direction}

module _ {F : Type 0} ⦃fl : Float F⦄ where
  -- With floats that are ordered like doubles, for a pressure that is a number, and thresholds in order (-entry <= -band <= band), the
  -- first gate enters the CE side exactly at a BULLISH label and the PE side exactly at a BEARISH one.
  pub gate1_direction-classify :
      IsOrdered F
      → (p entry band : F) → IsNum p
      → ((fl.neg entry ≤f fl.neg band) ≡ true)
      → ((fl.neg band ≤f band) ≡ true)
      → (((gate1_direction (some p) entry).side ≡ some ce)
          ↔ (classify_pressure (some p) entry band ≡ bullish))
        × (((gate1_direction (some p) entry).side ≡ some pe)
            ↔ (classify_pressure (some p) entry band ≡ bearish))
  unfolding gate1_direction classify_pressure
  gate1_direction-classify o p entry band num h k =
      let e = fl.neg entry in
      let b = fl.neg band in
      let below = o.le_of_lt p e in
      let not_above = o.not_lt_of_le e p in
      let t = o.total e p in
      let far = o.lt_le_trans p e b in
      let not_b = o.not_lt_of_le b p in
      let low = o.le_trans p b band in
      let le_b = o.le_of_lt p b in
      let not_band = o.not_lt_of_le p band in let ne = o.num_of_le e b h in ground arith
