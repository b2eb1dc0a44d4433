-- ===== src/Metrics/Quality.antt =====
-- metrics/quality_score.py: five conditions, two points each.
use pcr_momentum.Base.{ℕ, ◌+◌, Bool, true, false, Option, none, some, leb, if◌then◌else◌}
use pcr_momentum.Base.Int.{ℤ, pos, leb_ℤ}
use pcr_momentum.Float.{Float, nought, ◌<f◌, ◌>f◌, ◌/f◌}
use pcr_momentum.Snapshot.{StrikeLeg, Side, ce, pe}
use pcr_momentum.Buffer.{StrikeBuffer, Aggressor, buy, sell}
use pcr_momentum.Metrics.{
  SpreadStatus, good, compute_imbalance, compute_spread, classify_spread, detect_aggressor,
}
use pcr_momentum.Metrics.Wall.{WallState, no_wall, absorbing, classify_wall_state}
use pcr_momentum.Metrics.TickSpeed.{consecutive_upticks, consecutive_downticks}

-- The points of each condition.
pub record Breakdown : Type 0 where
  pub spread : ℕ
  pub imbalance : ℕ
  pub ask_wall : ℕ
  pub tick_speed : ℕ
  pub ltp_position : ℕ

pub record QualityResult (F : Type 0) : Type 0 where
  pub score : ℕ
  pub breakdown : Breakdown
  pub entry_size_factor : F

abbrev pub sum_points : Breakdown → ℕ
sum_points b = b.spread + b.imbalance + b.ask_wall + b.tick_speed + b.ltp_position

-- The thresholds that the score depends on.
pub record QualityConfig (F : Type 0) : Type 0 where
  pub spread_good_inr : F
  pub spread_moderate_inr : F
  pub imbalance_strong_buy : F
  pub qty_multiple : F
  pub tick_min_consecutive : ℤ
  pub tick_window_ms : ℤ
  pub aggressor_tolerance_inr : F

abbrev points : Bool → ℕ
points b = if b then 2 else 0

abbrev is_good : SpreadStatus → Bool
is_good good = true
is_good _ = false

abbrev is_open : WallState → Bool
is_open no_wall = true
is_open absorbing = true
is_open _ = false

abbrev is_with : Side → Aggressor → Bool
is_with ce buy = true
is_with pe sell = true
is_with _ _ = false

module _ {F : Type 0} ⦃fl : Float F⦄ where
  -- On the PE side a low ratio scores as well as a high one.
  imbalance_scores : Side → Option F → F → Bool
  imbalance_scores side none strong_buy = false
  imbalance_scores ce (some imb) strong_buy = imb >f strong_buy
  imbalance_scores pe (some imb) strong_buy =
      if imb <f (if strong_buy >f nought then fl.dec 1 0 /f strong_buy else fl.dec 7 1)
      then true
      else imb >f strong_buy

  streak_of : Side → StrikeBuffer F → ℤ → ℕ
  streak_of ce buffer window_ms = consecutive_upticks buffer window_ms
  streak_of pe buffer window_ms = consecutive_downticks buffer window_ms

  unfoldable pub score_breakdown : Side → StrikeLeg F → StrikeBuffer F → QualityConfig F → Breakdown
  unfolding imbalance_scores streak_of
  score_breakdown side leg buffer c = record {
    spread =
        points
          (is_good (classify_spread (compute_spread leg) c.spread_good_inr c.spread_moderate_inr));
    imbalance = points (imbalance_scores side (compute_imbalance leg) c.imbalance_strong_buy);
    ask_wall =
        points (is_open (classify_wall_state leg buffer c.qty_multiple c.aggressor_tolerance_inr));
    tick_speed =
        points (leb_ℤ c.tick_min_consecutive (pos (streak_of side buffer c.tick_window_ms)));
    ltp_position = points (is_with side (detect_aggressor leg c.aggressor_tolerance_inr));
  }

  unfoldable pub size_factor : ℕ → F
  size_factor score = if leb 8 score then fl.dec 1 0 else if leb 5 score then fl.dec 5 1 else nought

  unfoldable pub compute_quality_score :
      Side → StrikeLeg F → StrikeBuffer F → QualityConfig F → QualityResult F
  unfolding score_breakdown size_factor
  compute_quality_score side leg buffer c =
      let breakdown = score_breakdown side leg buffer c in
      let score = sum_points breakdown in
      record { score = score; breakdown = breakdown; entry_size_factor = size_factor score }
