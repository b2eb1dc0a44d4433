-- ===== src/Strategy/Held.antt =====
-- strategy.py, phase 3: a position is held, so it is turned round, closed or kept.
use pcr_momentum.Base.{String, str_eq, Option, none, some, List, find_first, take, if◌then◌else◌}
use pcr_momentum.Base.Int.{ℤ, pos}
use pcr_momentum.Float.{Float}
use pcr_momentum.Snapshot.{StrikeLeg, Snapshot, all_legs, Side, ce, pe}
use pcr_momentum.Buffer.{StrikeBuffer, buffer_for}
use pcr_momentum.Decisions.{
  Reason, held_token_not_in_basket, reversal_triggered_no_flip_target, reversal_triggered,
  continuation_failed, continuation_ok, Trigger,
}
use pcr_momentum.Decisions.Reversal.{ReversalConfig, evaluate_reversal}
use pcr_momentum.Decisions.Continuation.{
  ContinuationVerdict, ContinuationConfig, evaluate_continuation,
}
use pcr_momentum.Strategy.{
  Action, bare, no_op, hold, exit, flip, Metrics, Thresholds, Config, MemoryStore, default,
  pick_dominant_strike,
}

abbrev pub opposite : Side → Side
opposite ce = pe
opposite pe = ce

module _ {F : Type 0} where
  abbrev pub legs_of : Side → Snapshot F → List (StrikeLeg F)
  legs_of ce s = s.ce_legs
  legs_of pe s = s.pe_legs

  abbrev pub reversal_config : Thresholds F → ReversalConfig F
  reversal_config th = record {
    imbalance_drop_threshold_pct = th.imbalance_drop_pct;
    spread_good_inr = th.spread_good_inr;
    spread_moderate_inr = th.spread_moderate_inr;
    qty_multiple = th.ask_wall_qty_multiple;
    aggressor_tolerance_inr = th.aggressor_tolerance_inr;
    lookback_ticks = th.reversal_lookback_ticks;
  }

  abbrev pub continuation_config : Thresholds F → ContinuationConfig F
  continuation_config th = record {
    imbalance_continuation = th.imbalance_continuation;
    spread_good_inr = th.spread_good_inr;
    spread_moderate_inr = th.spread_moderate_inr;
    qty_multiple = th.ask_wall_qty_multiple;
    aggressor_tolerance_inr = th.aggressor_tolerance_inr;
  }

  -- `ctx.instrument_config.get("qty_lots", 1)`
  abbrev pub base_qty : Config F → ℤ
  base_qty c = default c.qty_lots (pos 1)

  exit_action : Config F → MemoryStore F → Side → String → Reason F → Metrics F → Action F
  exit_action c memory side token reason metrics = record (bare exit reason metrics) {
    side = some side;
    strike = memory.held_strike;
    instrument_token = some token;
    qty_lots = some (base_qty c);
  }

module _ {F : Type 0} ⦃fl : Float F⦄ where
  flip_action :
      Config F
      → MemoryStore F
      → Side
      → String
      → List (Trigger F)
      → Metrics F
      → Option (StrikeLeg F)
      → Action F
  unfolding exit_action
  flip_action c memory side token triggers metrics none =
      exit_action c memory side token reversal_triggered_no_flip_target
        (record metrics { reversal_triggers = triggers })
  flip_action c memory side token triggers metrics (some target) =
      record (bare flip reversal_triggered (record metrics { reversal_triggers = triggers })) {
        side = some (opposite side);
        strike = some target.strike;
        instrument_token = some target.token;
        qty_lots = some (base_qty c);
      }

  kept_or_closed :
      Config F → MemoryStore F → Side → String → Metrics F → ContinuationVerdict F → Action F
  unfolding exit_action
  kept_or_closed c memory side token metrics v =
      if v.hold
      then record (bare hold continuation_ok metrics) { side = some side }
      else exit_action c memory side token (continuation_failed (take 3 v.failures))
          (record metrics { continuation_failures = v.failures })

  -- The reversal comes before the continuation.
  unfoldable pub decide_held_leg :
      Config F
      → Thresholds F
      → Snapshot F
      → MemoryStore F
      → Side
      → String
      → StrikeLeg F
      → StrikeBuffer F
      → Metrics F
      → Action F
  unfolding flip_action kept_or_closed
  decide_held_leg c th s memory side token leg buffer metrics =
      let rev = evaluate_reversal (some side) leg buffer (reversal_config th) in
      if rev.triggered
      then flip_action c memory side token rev.triggers metrics
          (pick_dominant_strike (legs_of (opposite side) s))
      else kept_or_closed c memory side token metrics
          (evaluate_continuation side leg buffer (continuation_config th))

  -- The window of the held token may be made here, so the store comes back.
  held_with :
      Config F
      → Thresholds F
      → Snapshot F
      → MemoryStore F
      → Side
      → String
      → Metrics F
      → Option (StrikeLeg F)
      → Action F × MemoryStore F
  unfolding decide_held_leg
  held_with c th s memory side token metrics none =
      (bare no_op held_token_not_in_basket metrics, memory)
  held_with c th s memory side token metrics (some leg) =
      let (buffer, store) = buffer_for memory.buffers token in
      (
        decide_held_leg c th s memory side token leg buffer metrics,
        record memory { buffers = store },
      )

  unfoldable pub held_leg : Snapshot F → String → Option (StrikeLeg F)
  held_leg s token = find_first (λ leg. str_eq leg.token token) (all_legs s)

  unfoldable pub decide_held :
      Config F
      → Thresholds F
      → Snapshot F
      → MemoryStore F
      → Side
      → String
      → Metrics F
      → Action F × MemoryStore F
  unfolding held_with held_leg
  decide_held c th s memory side token metrics =
      held_with c th s memory side token metrics (held_leg s token)
