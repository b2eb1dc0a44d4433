-- ===== src/Decisions.antt =====
-- backend/engines/strategy/strategies/bid_ask_imbalance/decisions/: the rules that turn metrics into
-- verdicts. The texts that explain a verdict are values of the types below, one constructor for each
-- format string, with what it prints as arguments.
pub mod EntryGates
pub mod Continuation
pub mod Reversal
pub mod Timing
use pcr_momentum.Base.{ℕ, String, List}
use pcr_momentum.Base.Int.{ℤ}
use pcr_momentum.Snapshot.{Side}
use pcr_momentum.Buffer.{Aggressor}
use pcr_momentum.Metrics.Wall.{WallState}

-- Why a held position is not kept.
pub data Failure (F : Type 0) : Type 0 where
  imbalance_missing : Failure F
  imbalance_below : F → F → Failure F
  bid_qty_decreasing : Failure F
  wall_in_the_way : WallState → Failure F
  spread_wide : Failure F
  spread_missing : Failure F
  aggressor_wrong : Aggressor → Side → Failure F

-- What shows that the market has turned.
pub data Trigger (F : Type 0) : Type 0 where
  imbalance_drop : F → Trigger F
  wall_formed : WallState → Trigger F
  spread_widened : Trigger F
  ltp_flipped_to : Aggressor → Trigger F

-- The reasons of gates and actions.
pub data Reason (F : Type 0) : Type 0 where
  no_reason : Reason F
  net_pressure_unknown : Reason F
  net_pressure_below_threshold : F → F → Reason F
  ask_wall_unknown : Reason F
  ask_wall_blocks_entry : WallState → Reason F
  spread_unknown : Reason F
  spread_too_wide : Reason F
  spread_moderate_half_size : Reason F
  score_below_min : ℕ → ℤ → Reason F
  outside_trading_window : Reason F
  phase_blocks_entries : String → Reason F
  score_below_phase_min : ℕ → String → ℤ → Reason F
  held_token_not_in_basket : Reason F
  reversal_triggered_no_flip_target : Reason F
  reversal_triggered : Reason F
  continuation_failed : List (Failure F) → Reason F
  continuation_ok : Reason F
  reversal_suppression_until : ℤ → Reason F
  no_dominant_strike : Reason F
  size_factor_zero_score : ℕ → Reason F
  all_gates_passed : Reason F
