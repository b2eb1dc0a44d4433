-- ===== src/Decisions/EntryGates.antt =====
-- decisions/entry_gates.py: the gates that an entry passes.
pub mod Pressure
use pcr_momentum.Base.{ℕ, Bool, true, false, Option, none, some, if◌then◌else◌}
use pcr_momentum.Base.Int.{ℤ, pos, ltb_ℤ}
use pcr_momentum.Float.{Float, ◌<f◌, ◌>f◌}
use pcr_momentum.Snapshot.{Side, ce, pe}
use pcr_momentum.Metrics.{SpreadStatus, good, moderate, avoid, unknown_spread}
use pcr_momentum.Metrics.Wall.{WallState, no_wall, holding, absorbing, refreshing, unknown_wall}
use pcr_momentum.Decisions.{
  Reason, no_reason, net_pressure_unknown, net_pressure_below_threshold, ask_wall_unknown,
  ask_wall_blocks_entry, spread_unknown, spread_too_wide, spread_moderate_half_size,
  score_below_min,
}

pub record GateResult (F : Type 0) : Type 0 where
  pub passed : Bool
  pub reason : Reason F
  pub side : Option Side
  pub size_factor : F

module _ {F : Type 0} ⦃fl : Float F⦄ where
  -- `GateResult(False, reason)` and `GateResult(True)`, the other fields at their defaults.
  abbrev pub refused : Reason F → GateResult F
  refused r = record { passed = false; reason = r; side = none; size_factor = fl.dec 1 0 }

  abbrev pub open_gate : GateResult F
  open_gate = record { passed = true; reason = no_reason; side = none; size_factor = fl.dec 1 0 }

  unfoldable pub gate1_direction : Option F → F → GateResult F
  gate1_direction none entry_threshold = refused net_pressure_unknown
  gate1_direction (some p) entry_threshold =
      if p >f entry_threshold
      then record open_gate { side = some ce }
      else if p <f fl.neg entry_threshold
      then record open_gate { side = some pe }
      else refused (net_pressure_below_threshold p entry_threshold)

  unfoldable pub gate2_ask_wall : WallState → GateResult F
  gate2_ask_wall unknown_wall = refused ask_wall_unknown
  gate2_ask_wall holding = refused (ask_wall_blocks_entry holding)
  gate2_ask_wall refreshing = refused (ask_wall_blocks_entry refreshing)
  gate2_ask_wall no_wall = open_gate
  gate2_ask_wall absorbing = open_gate

  unfoldable pub gate3_spread : SpreadStatus → GateResult F
  gate3_spread unknown_spread = refused spread_unknown
  gate3_spread avoid = refused spread_too_wide
  gate3_spread moderate = record open_gate {
    reason = spread_moderate_half_size;
    size_factor = fl.dec 5 1;
  }
  gate3_spread good = open_gate

  -- No caller: the phase's minimum is applied by `entry_allowed`.
  unfoldable pub gate4_quality_score : ℕ → ℤ → GateResult F
  gate4_quality_score score min_score =
      if ltb_ℤ (pos score) min_score then refused (score_below_min score min_score) else open_gate
