-- ===== src/Strategy.antt =====
-- backend/engines/strategy/strategies/base.py and bid_ask_imbalance/strategy.py: what a strategy is
-- given and returns. The evaluation of a tick is in the modules below, phase by phase.
pub mod Observe
pub mod Held
pub mod Flat
pub mod Tick
use pcr_momentum.Base.{
  ℕ, String, Bool, true, false, Option, none, some, List, [], ◌∷◌, if◌then◌else◌,
}
use pcr_momentum.Base.Int.{ℤ, pos, negsuc}
use pcr_momentum.Base.Dict.{Dict}
use pcr_momentum.Float.{Float, ◌>f◌}
use pcr_momentum.Snapshot.{StrikeLeg, Side}
use pcr_momentum.Buffer.{BufferStore, Aggressor}
use pcr_momentum.Metrics.{ImbalanceClass, SpreadStatus, PressureLabel, compute_imbalance}
use pcr_momentum.Metrics.Wall.{WallState}
use pcr_momentum.Metrics.Quality.{Breakdown}
use pcr_momentum.Decisions.{Reason, Trigger, Failure}
use pcr_momentum.Decisions.Timing.{TimingWindow}
use pcr_momentum.Basket.{Basket}

pub data ActionKind : Type 0 where
  no_op enter hold exit flip reversal_warn : ActionKind

-- What is recorded of a leg.
pub record StrikeMetric (F : Type 0) : Type 0 where
  pub leg : StrikeLeg F
  pub imbalance : Option F
  pub imbalance_class : ImbalanceClass
  pub spread : Option F
  pub spread_class : SpreadStatus
  pub wall_state : WallState
  pub aggressor : Aggressor

pub record Metrics (F : Type 0) : Type 0 where
  pub snapshot_ts : ℤ
  pub atm : ℤ
  pub spot : Option F
  pub cum_ce_imbalance : Option F
  pub cum_pe_imbalance : Option F
  pub ce_sum_bid : Option ℤ
  pub ce_sum_ask : Option ℤ
  pub pe_sum_bid : Option ℤ
  pub pe_sum_ask : Option ℤ
  pub net_pressure : Option F
  pub net_pressure_label : PressureLabel
  pub per_strike : Dict (StrikeMetric F)
  pub reversal_triggers : List (Trigger F)
  pub continuation_failures : List (Failure F)

pub record Action (F : Type 0) : Type 0 where
  pub kind : ActionKind
  pub side : Option Side
  pub strike : Option ℤ
  pub instrument_token : Option String
  pub qty_lots : Option ℤ
  pub score : Option ℕ
  pub reason : Reason F
  pub metrics : Metrics F
  pub score_breakdown : Option Breakdown

-- An action with its defaults.
abbrev pub bare : {F : Type 0} → ActionKind → Reason F → Metrics F → Action F
bare kind reason metrics = record {
  kind = kind;
  side = none;
  strike = none;
  instrument_token = none;
  qty_lots = none;
  score = none;
  reason = reason;
  metrics = metrics;
  score_breakdown = none;
}

-- The vessel's memory; `suppress_until_ts` ends the time without entries.
pub record MemoryStore (F : Type 0) : Type 0 where
  pub buffers : BufferStore F
  pub basket : Basket
  pub timing_windows : List TimingWindow
  pub last_action_kind : Option ActionKind
  pub held_token : Option String
  pub held_strike : Option ℤ
  pub held_side : Option Side
  pub suppress_until_ts : ℤ

pub record Thresholds (F : Type 0) : Type 0 where
  pub imbalance_strong_buy : F
  pub imbalance_neutral_low : F
  pub imbalance_continuation : F
  pub net_pressure_entry : F
  pub net_pressure_neutral_band : F
  pub imbalance_drop_pct : F
  pub ask_wall_qty_multiple : F
  pub aggressor_tolerance_inr : F
  pub tick_min_consecutive : ℤ
  pub tick_window_ms : ℤ
  pub spread_good_inr : F
  pub spread_moderate_inr : F
  pub reversal_lookback_ticks : ℕ
  pub reversal_suppress_sec : ℤ

-- The two config blobs as far as they are read: each key may be missing.
pub record Config (F : Type 0) : Type 0 where
  pub imbalance_strong_buy : Option F
  pub imbalance_neutral_low : Option F
  pub imbalance_continuation : Option F
  pub net_pressure_entry_threshold : Option F
  pub net_pressure_neutral_band : Option F
  pub imbalance_drop_pct_for_reversal : Option F
  pub ask_wall_qty_multiple : Option F
  pub ltp_aggressor_tolerance_inr : Option F
  pub min_consecutive : Option ℤ
  pub window_ms : Option ℤ
  pub spread_good_inr : Option F
  pub spread_moderate_inr : Option F
  pub lookback_ticks : Option ℕ
  pub suppress_sec : Option ℤ
  pub qty_lots : Option ℤ

-- `d.get(key, default)`
abbrev pub default {ℓ} : {A : Type ℓ} → Option A → A → A
default none d = d
default (some a) d = a

unfoldable pub read_thresholds : {F : Type 0} ⦃fl : Float F⦄ → Config F → Thresholds F
read_thresholds ⦃fl⦄ c = record {
  imbalance_strong_buy = default c.imbalance_strong_buy (fl.dec 130 2);
  imbalance_neutral_low = default c.imbalance_neutral_low (fl.dec 90 2);
  imbalance_continuation = default c.imbalance_continuation (fl.dec 120 2);
  net_pressure_entry = default c.net_pressure_entry_threshold (fl.dec 50 2);
  net_pressure_neutral_band = default c.net_pressure_neutral_band (fl.dec 20 2);
  imbalance_drop_pct = default c.imbalance_drop_pct_for_reversal (fl.dec 300 1);
  ask_wall_qty_multiple = default c.ask_wall_qty_multiple (fl.dec 50 1);
  aggressor_tolerance_inr = default c.ltp_aggressor_tolerance_inr (fl.dec 10 2);
  tick_min_consecutive = default c.min_consecutive (pos 3);
  tick_window_ms = default c.window_ms (pos 1000);
  spread_good_inr = default c.spread_good_inr (fl.dec 100 2);
  spread_moderate_inr = default c.spread_moderate_inr (fl.dec 200 2);
  reversal_lookback_ticks = default c.lookback_ticks 3;
  reversal_suppress_sec = default c.suppress_sec (pos 30);
}

module _ {F : Type 0} ⦃fl : Float F⦄ where
  abbrev better : Option F → StrikeLeg F → Option (F × StrikeLeg F) → Option (F × StrikeLeg F)
  better none leg best = best
  better (some imb) leg none = some (imb, leg)
  better (some imb) leg (some (top, held)) =
      if imb >f top then some (imb, leg) else some (top, held)

  unfoldable pub dominant_from :
      List (StrikeLeg F) → Option (F × StrikeLeg F) → Option (F × StrikeLeg F)
  dominant_from [] best = best
  dominant_from (leg ∷ legs) best = dominant_from legs (better (compute_imbalance leg) leg best)

  abbrev leg_of : Option (F × StrikeLeg F) → Option (StrikeLeg F)
  leg_of none = none
  leg_of (some (_, leg)) = some leg

  -- The leg with the highest imbalance, the first of equals.
  unfoldable pub pick_dominant_strike : List (StrikeLeg F) → Option (StrikeLeg F)
  unfolding dominant_from
  pick_dominant_strike legs = leg_of (dominant_from legs none)
