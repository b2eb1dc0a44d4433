-- ===== src/Strategy/Tick/Actions.antt =====
-- What `on_tick` can return: which actions, and what an entry, a flip or an exit rests on.
use pcr_momentum.Base.{
  ℕ, String, ◌≡◌, ◌⊎◌, true, ◌≤◌, inl, inr, Option, none, some, List, arith, Option-cases,
}
use pcr_momentum.Base.Int.{ℤ, pos, ◌≤ℤ◌}
use pcr_momentum.Float.{Float, IsOrdered, IsNum, nought, min_f, ◌≤f◌}
use pcr_momentum.Snapshot.{Snapshot, Side, StrikeLeg}
use pcr_momentum.Buffer.{StrikeBuffer, buffer_for}
use pcr_momentum.Metrics.{compute_spread, classify_spread, good, moderate}
use pcr_momentum.Metrics.Wall.{classify_wall_state, no_wall, absorbing}
use pcr_momentum.Metrics.Quality.{QualityConfig, compute_quality_score}
use pcr_momentum.Decisions.EntryGates.{gate1_direction, gate2_ask_wall, gate3_spread}
use pcr_momentum.Decisions.Timing.{TimingWindow, entry_allowed}
use pcr_momentum.Strategy.{
  Action, ActionKind, no_op, enter, hold, exit, flip, Metrics, Thresholds, Config, MemoryStore,
  pick_dominant_strike,
}
use pcr_momentum.Strategy.Observe.{snapshot_pressure}
use pcr_momentum.Strategy.Held.{decide_held, legs_of, decide_held_leg}
use pcr_momentum.Strategy.Flat.{decide_flat, quality_config, gates_2_to_4, lots}

-- The kinds of a vessel that holds a position, and of one that does not.
abbrev pub IsHeldKind : ActionKind → Type 0
IsHeldKind k = (k ≡ no_op) ⊎ ((k ≡ hold) ⊎ ((k ≡ exit) ⊎ (k ≡ flip)))

abbrev pub IsFlatKind : ActionKind → Type 0
IsFlatKind k = (k ≡ no_op) ⊎ (k ≡ enter)

module _ {F : Type 0} ⦃fl : Float F⦄ where
  decide_held_leg-kind :
      (c : Config F) (th : Thresholds F) (s : Snapshot F) (memory : MemoryStore F) (side : Side)
      (token : String) (leg : StrikeLeg F) (b : StrikeBuffer F) (metrics : Metrics F)
      → IsHeldKind (decide_held_leg c th s memory side token leg b metrics).kind
  unfolding decide_held_leg
  decide_held_leg-kind c th s memory side token leg b metrics = ground arith

  pub decide_held-kind :
      (c : Config F) (th : Thresholds F) (s : Snapshot F) (memory : MemoryStore F) (side : Side)
      (token : String) (metrics : Metrics F)
      → IsHeldKind (decide_held c th s memory side token metrics).0.kind
  unfolding decide_held
  decide_held-kind c th s memory side token metrics = ground arith

  gates_2_to_4-kind :
      (c : Config F) (th : Thresholds F) (windows : List TimingWindow) (now_ist : ℕ)
      (metrics : Metrics F) (side : Side) (leg : StrikeLeg F) (b : StrikeBuffer F)
      → IsFlatKind (gates_2_to_4 c th windows now_ist metrics side leg b).kind
  unfolding gates_2_to_4
  gates_2_to_4-kind c th windows now_ist metrics side leg b = ground arith

  pub decide_flat-kind :
      (c : Config F) (th : Thresholds F) (s : Snapshot F) (memory : MemoryStore F) (ts_ms : ℤ)
      (now_ist : ℕ) (metrics : Metrics F)
      → IsFlatKind (decide_flat c th s memory ts_ms now_ist metrics).0.kind
  unfolding decide_flat
  decide_flat-kind c th s memory ts_ms now_ist metrics = ground arith

-- What is true of the strike that an entry is made on.
pub record IsOpen {F : Type 0} ⦃fl : Float F⦄ (th : Thresholds F) (windows : List TimingWindow)
    (now_ist : ℕ) (side : Side) (leg : StrikeLeg F) (b : StrikeBuffer F) : Type 0 where
  pub wall_open :
      let w = classify_wall_state leg b th.ask_wall_qty_multiple th.aggressor_tolerance_inr in
      (w ≡ no_wall) ⊎ (w ≡ absorbing)
  pub spread_fine :
      let st = classify_spread (compute_spread leg) th.spread_good_inr th.spread_moderate_inr in
      (st ≡ good) ⊎ (st ≡ moderate)
  pub score_5 : 5 ≤ (compute_quality_score side leg b (quality_config th)).score
  pub time_allowed :
      (entry_allowed {F = F} now_ist windows
        (compute_quality_score side leg b (quality_config th)).score).0
      ≡ true

abbrev pub IsPositiveQty : Option ℤ → Type 0
IsPositiveQty none = ⊥
IsPositiveQty (some n) = pos 1 ≤ℤ n

-- The action orders at least one lot of the leg.
pub record IsOrderFor {F : Type 0} (side : Side) (leg : StrikeLeg F) (a : Action F) : Type 0 where
  pub on_side : a.side ≡ some side
  pub on_strike : a.strike ≡ some leg.strike
  pub on_token : a.instrument_token ≡ some leg.token
  pub positive : IsPositiveQty a.qty_lots

module _ {F : Type 0} ⦃fl : Float F⦄ where
  size_of_score :
      (side : Side) (leg : StrikeLeg F) (b : StrikeBuffer F) (qc : QualityConfig F)
      → let q = compute_quality_score side leg b qc in
        (5 ≤ q.score) ⊎ (q.entry_size_factor ≡ nought)
  unfolding compute_quality_score
  size_of_score side leg b qc = ground arith

  min_nought : (o : IsOrdered F) (y : F) → IsNum {F = F} nought → (min_f nought y ≤f nought) ≡ true
  min_nought o y h = ground (arith, o.le_of_lt y nought)

  gates_2_to_4-enter :
      (o : IsOrdered F) (c : Config F) (th : Thresholds F) (windows : List TimingWindow)
      (now_ist : ℕ) (metrics : Metrics F) (side : Side) (leg : StrikeLeg F) (b : StrikeBuffer F)
      → IsNum {F = F} nought
      → (gates_2_to_4 c th windows now_ist metrics side leg b).kind ≡ enter
      → IsOpen th windows now_ist side leg b
  unfolding gates_2_to_4 gate2_ask_wall gate3_spread
  gates_2_to_4-enter o c th windows now_ist metrics side leg b n e = record {
    wall_open = ground arith;
    spread_fine = ground arith;
    score_5 = ground (
      arith,
      size_of_score side leg b (quality_config th),
      min_nought o (fl.dec 5 1) n,
      min_nought o (fl.dec 1 0) n,
    );
    time_allowed = ground arith;
  }

  gates_2_to_4-order :
      (c : Config F) (th : Thresholds F) (windows : List TimingWindow) (now_ist : ℕ)
      (metrics : Metrics F) (side : Side) (leg : StrikeLeg F) (b : StrikeBuffer F)
      → (gates_2_to_4 c th windows now_ist metrics side leg b).kind ≡ enter
      → IsOrderFor side leg (gates_2_to_4 c th windows now_ist metrics side leg b)
  unfolding gates_2_to_4 lots
  gates_2_to_4-order c th windows now_ist metrics side leg b e = record {
    on_side = ground arith;
    on_strike = ground arith;
    on_token = ground arith;
    positive = ground arith;
  }

-- What an entry rests on: the side of the net pressure, the dominant strike of that side, and the
-- state of that strike's window.
pub record Entry {F : Type 0} ⦃fl : Float F⦄ (th : Thresholds F) (s : Snapshot F)
    (memory : MemoryStore F) (now_ist : ℕ) (a : Action F) : Type 0 where
  pub side : Side
  pub leg : StrikeLeg F
  pub directed : (gate1_direction (snapshot_pressure s) th.net_pressure_entry).side ≡ some side
  pub dominant : pick_dominant_strike (legs_of side s) ≡ some leg
  pub is_open :
      IsOpen th memory.timing_windows now_ist side leg (buffer_for memory.buffers leg.token).0
  pub is_order : IsOrderFor side leg a

module _ {F : Type 0} ⦃fl : Float F⦄ where
  pub decide_flat-enter :
      (o : IsOrdered F) (c : Config F) (th : Thresholds F) (s : Snapshot F) (memory : MemoryStore F)
      (ts_ms : ℤ) (now_ist : ℕ) (metrics : Metrics F)
      → IsNum {F = F} nought
      → (decide_flat c th s memory ts_ms now_ist metrics).0.kind ≡ enter
      → Entry th s memory now_ist (decide_flat c th s memory ts_ms now_ist metrics).0
  unfolding decide_flat
  decide_flat-enter o c th s memory ts_ms now_ist metrics n e =
      elim (Option-cases (gate1_direction (snapshot_pressure s) th.net_pressure_entry).side) [
        | inl undirected ↦ absurd (ground arith)
        | inr (side, d) ↦ elim (Option-cases (pick_dominant_strike (legs_of side s))) [
          | inl missing ↦ absurd (ground arith)
          | inr (leg, p) ↦
              let b = (buffer_for memory.buffers leg.token).0 in
              let k : (gates_2_to_4 c th memory.timing_windows now_ist metrics side leg b).kind
                  ≡ enter =
                ground arith in
              record {
                side = side;
                leg = leg;
                directed = d;
                dominant = p;
                is_open =
                    gates_2_to_4-enter o c th memory.timing_windows now_ist metrics side leg b n k;
                is_order = ground (
                  arith,
                  gates_2_to_4-order c th memory.timing_windows now_ist metrics side leg b k,
                );
              }
        ]
      ]
