-- ===== src/Metrics.antt =====
-- backend/engines/strategy/strategies/bid_ask_imbalance/metrics/: the numbers and classes that the
-- strategy computes from a leg and its window. The thresholds are arguments, as in the source.
pub mod Wall
pub mod TickSpeed
pub mod Quality
pub mod Classes
use pcr_momentum.Base.{
  Bool, true, false, ◌||◌, Option, none, some, List, [], ◌∷◌, map, present, if◌then◌else◌,
}
use pcr_momentum.Base.Int.{ℤ, pos, ltb_ℤ, leb_ℤ, ◌+ℤ◌}
use pcr_momentum.Float.{Float, nought, ◌<f◌, ◌≤f◌, ◌>f◌, ◌≥f◌, ◌+f◌, ◌-f◌, ◌/f◌}
use pcr_momentum.Snapshot.{StrikeLeg}
use pcr_momentum.Buffer.{Aggressor, buy, sell, mid, unknown}

pub data ImbalanceClass : Type 0 where
  strong_buyers moderate_buyers neutral moderate_sellers strong_sellers unknown_imbalance :
      ImbalanceClass

pub data SpreadStatus : Type 0 where
  good moderate avoid unknown_spread : SpreadStatus

pub data PressureLabel : Type 0 where
  bullish developing_bull neutral_pressure developing_bear bearish unknown_pressure : PressureLabel

module _ {F : Type 0} ⦃fl : Float F⦄ where
  ratio_of : Option ℤ → Option ℤ → Option F
  ratio_of (some bid) (some ask) =
      if leb_ℤ ask (pos 0)
      then none
      else if ltb_ℤ bid (pos 0)
      then none
      else some (fl.of_int bid /f fl.of_int ask)
  ratio_of _ _ = none

  -- metrics/imbalance.py
  unfoldable pub compute_imbalance : StrikeLeg F → Option F
  unfolding ratio_of
  compute_imbalance leg = ratio_of leg.total_bid_qty leg.total_ask_qty

  unfoldable pub classify_imbalance : Option F → F → F → F → F → ImbalanceClass
  classify_imbalance none strong_buy moderate_buy neutral_low moderate_sell = unknown_imbalance
  classify_imbalance (some ratio) strong_buy moderate_buy neutral_low moderate_sell =
      if ratio >f strong_buy
      then strong_buyers
      else if ratio >f moderate_buy
      then moderate_buyers
      else if ratio ≥f neutral_low
      then neutral
      else if ratio ≥f moderate_sell
      then moderate_sellers
      else strong_sellers

  spread_of : Option F → Option F → Option F
  spread_of (some bid) (some ask) =
      let spread = ask -f bid in if spread <f nought then none else some spread
  spread_of _ _ = none

  -- metrics/spread.py
  unfoldable pub compute_spread : StrikeLeg F → Option F
  unfolding spread_of
  compute_spread leg = spread_of leg.best_bid leg.best_ask

  unfoldable pub classify_spread : Option F → F → F → SpreadStatus
  classify_spread none good_threshold moderate_threshold = unknown_spread
  classify_spread (some spread) good_threshold moderate_threshold =
      if spread ≤f good_threshold
      then good
      else if spread ≤f moderate_threshold
      then moderate
      else avoid

  aggressor_of : Option F → Option F → Option F → F → Aggressor
  aggressor_of (some ltp) (some bid) (some ask) tolerance_inr =
      if ltp ≥f ask -f tolerance_inr then buy else if ltp ≤f bid +f tolerance_inr then sell else mid
  aggressor_of _ _ _ tolerance_inr = unknown

  -- metrics/aggressor.py
  unfoldable pub detect_aggressor : StrikeLeg F → F → Aggressor
  unfolding aggressor_of
  detect_aggressor leg tolerance_inr = aggressor_of leg.ltp leg.best_bid leg.best_ask tolerance_inr

  -- metrics/pressure.py
  unfoldable pub net_pressure : Option F → Option F → Option F
  net_pressure (some cum_ce) (some cum_pe) = some (cum_ce -f cum_pe)
  net_pressure _ _ = none

  unfoldable pub classify_pressure : Option F → F → F → PressureLabel
  classify_pressure none entry_threshold neutral_band = unknown_pressure
  classify_pressure (some pressure) entry_threshold neutral_band =
      if pressure >f entry_threshold
      then bullish
      else if pressure >f neutral_band
      then developing_bull
      else if pressure ≥f fl.neg neutral_band
      then neutral_pressure
      else if pressure ≥f fl.neg entry_threshold
      then developing_bear
      else bearish

unfoldable pub sum : List ℤ → ℤ
sum [] = pos 0
sum (n ∷ ns) = n +ℤ sum ns

abbrev some_sum : List ℤ → Option ℤ
some_sum [] = none
some_sum (n ∷ ns) = some (sum (n ∷ ns))

unfoldable pub sum_or_none : List (Option ℤ) → Option ℤ
sum_or_none values = some_sum (present values)

module _ {F : Type 0} ⦃fl : Float F⦄ where
  cumulative_ratio : Option ℤ → Option ℤ → Option F
  cumulative_ratio (some bid) (some ask) =
      if leb_ℤ ask (pos 0) then none else some (fl.of_int bid /f fl.of_int ask)
  cumulative_ratio _ _ = none

  -- metrics/cumulative.py
  unfoldable pub cumulative_imbalance : List (StrikeLeg F) → Option ℤ × Option ℤ × Option F
  unfolding cumulative_ratio
  cumulative_imbalance legs =
      let sum_bid = sum_or_none (map (λ leg. leg.total_bid_qty) legs) in
      let sum_ask = sum_or_none (map (λ leg. leg.total_ask_qty) legs) in
      (sum_bid, sum_ask, cumulative_ratio sum_bid sum_ask)
