-- ===== src/Vessel/Runner.antt =====
-- backend/engines/strategy/runner.py: one pass of a vessel's loop. What it reads of Redis before the
-- strategy runs is a record, the input of the pass; what it changes is the `World`.
pub mod Safety
pub mod Orders
use pcr_momentum.Base.{
  ℕ, zero, suc, String, str_eq, Bool, true, false, not, ◌&&◌, ◌||◌, Option, none, some, List, [],
  ◌∷◌, ◌++◌, is_some, truthy, if◌then◌else◌,
}
use pcr_momentum.Base.Int.{ℤ, pos, ◌+ℤ◌, ◌-ℤ◌, ◌*ℤ◌, ltb_ℤ}
use pcr_momentum.Float.{Float}
use pcr_momentum.Snapshot.{
  Side, ce, pe, Chain, Leaf, Raw, Snapshot, Pinned, chain_leaf, build_snapshot,
}
use pcr_momentum.Buffer.{discard}
use pcr_momentum.Basket.{Basket, BasketTransition, maybe_shift_basket, ce_pairs, pe_pairs}
use pcr_momentum.Strategy.{
  Action, ActionKind, no_op, enter, hold, exit, flip, reversal_warn, Config, MemoryStore, default,
}
use pcr_momentum.Strategy.Tick.{on_tick}
use pcr_momentum.Publisher.{SignalStore, add_member, emit_signal, Emitted, nothing, sent, invalid}
use pcr_momentum.Vessel.{
  VesselState, flat, in_ce, in_pe, cooldown, halted, VesselKeys, read_state, maybe_exit_cooldown,
  is_enabled,
}

-- What a pass reads: the clocks, the option chain, the spot hash and the record of the position that
-- `current_position_id` names, none where there is none.
pub record Input (F : Type 0) : Type 0 where
  pub now_ms : ℤ
  pub now_ist : ℕ
  pub session_closed : Bool
  pub chain : Chain F
  pub spot : Option F
  pub spot_ltp : Raw F
  pub spot_ts : Raw F
  pub position : Option (Option String × Option ℤ)

-- What the vessel is configured with.
pub record Spec (F : Type 0) : Type 0 where
  pub instrument_id : String
  pub config : Config F
  pub strike_step : ℤ
  pub basket_size : ℕ
  pub hysteresis_sec : ℤ

-- What a pass changes. `draining` is the phase DRAIN, in which the loop has ended.
pub record World (F : Type 0) : Type 0 where
  pub keys : VesselKeys
  pub memory : MemoryStore F
  pub signals : SignalStore
  pub desired : List String
  pub last_basket_check_ms : ℤ
  pub draining : Bool

abbrev leaf_token : {F : Type 0} → Option (Leaf F) → Option String
leaf_token none = none
leaf_token (some leaf) = some leaf.token

abbrev add_members : List String → List String → List String
add_members [] ts = ts
add_members (a ∷ as') ts = add_members as' (add_member a ts)

abbrev same_side : Option Side → Side → Bool
same_side (some ce) ce = true
same_side (some pe) pe = true
same_side _ _ = false

abbrev has_held_token : Option String → Bool
has_held_token none = false
has_held_token (some t) = truthy t

-- `pos.get("instrument_token") or None`
abbrev or_missing : Option String → Option String
or_missing none = none
or_missing (some t) = if truthy t then some t else none

module _ {F : Type 0} ⦃fl : Float F⦄ where
  -- `_build_token_lookup`
  unfoldable pub token_lookup : Chain F → ℤ → Side → Option String
  token_lookup chain strike side = leaf_token (chain_leaf chain strike side)

  abbrev apply_transition : ℤ → Option BasketTransition → World F → World F
  apply_transition now_ms none w = w
  apply_transition now_ms (some t) w = record w {
    memory = record w.memory {
      basket = t.new_basket;
      buffers = discard w.memory.buffers t.dropped_tokens;
    };
    desired = add_members t.added_tokens w.desired;
    last_basket_check_ms = now_ms;
  }

  unfoldable pub ensure_basket : Spec F → Input F → World F → World F
  ensure_basket spec i w =
      apply_transition i.now_ms
        (maybe_shift_basket w.memory.basket i.spot spec.strike_step spec.basket_size i.now_ms
          spec.hysteresis_sec (token_lookup i.chain))
        w

module _ {F : Type 0} where
  load_held : Side → Option (Option String × Option ℤ) → MemoryStore F → MemoryStore F
  load_held side none m = m
  load_held side (some (token, strike)) m = record m {
    held_side = some side;
    held_token = or_missing token;
    held_strike = strike;
  }

  abbrev clear_held : MemoryStore F → MemoryStore F
  clear_held m = record m { held_side = none; held_token = none; held_strike = none }

  reload_held : Side → Option (Option String × Option ℤ) → MemoryStore F → MemoryStore F
  unfolding load_held
  reload_held side position m =
      if same_side m.held_side side && has_held_token m.held_token
      then m
      else load_held side position m

  -- Redis is the source of truth for what is held.
  unfoldable pub sync_memory :
      VesselState → Option (Option String × Option ℤ) → MemoryStore F → MemoryStore F
  unfolding reload_held
  sync_memory flat position m =
      if is_some m.held_side || has_held_token m.held_token then clear_held m else m
  sync_memory cooldown position m =
      if is_some m.held_side || has_held_token m.held_token then clear_held m else m
  sync_memory in_ce position m = reload_held ce position m
  sync_memory in_pe position m = reload_held pe position m
  sync_memory halted position m = m

-- `None` for an empty token.
abbrev pinned_of : {F : Type 0} → MemoryStore F → Pinned
pinned_of m = record { token = m.held_token; side = m.held_side; strike = m.held_strike }

abbrev acts_in : VesselState → Bool
acts_in flat = true
acts_in in_ce = true
acts_in in_pe = true
acts_in cooldown = false
acts_in halted = false

module _ {F : Type 0} (mint : Action F → ℤ → String) where
  abbrev emitted : ActionKind → Emitted × SignalStore → World F → Option (World F)
  emitted kind (invalid, signals) w = none
  emitted kind (nothing, signals) w =
      some
        (record w { signals = signals; memory = record w.memory { last_action_kind = some kind } })
  emitted kind (sent _, signals) w =
      some
        (record w { signals = signals; memory = record w.memory { last_action_kind = some kind } })

  abbrev remember : ActionKind → World F → World F
  remember kind w = record w { memory = record w.memory { last_action_kind = some kind } }

  -- `none` where the publisher raises: the exception ends the vessel's task.
  apply_kind : ActionKind → Spec F → ℤ → Action F → World F → Option (World F)
  apply_kind enter spec now_ms a w =
      emitted enter (emit_signal mint spec.instrument_id a now_ms w.signals) w
  apply_kind flip spec now_ms a w =
      emitted flip (emit_signal mint spec.instrument_id a now_ms w.signals) w
  apply_kind exit spec now_ms a w =
      emitted exit (emit_signal mint spec.instrument_id a now_ms w.signals) w
  apply_kind reversal_warn spec now_ms a w = some (
      remember reversal_warn (record w {
        memory = record w.memory {
          suppress_until_ts = now_ms +ℤ default spec.config.suppress_sec (pos 30) *ℤ pos 1000;
        };
      }))
  apply_kind no_op spec now_ms a w = some (remember no_op w)
  apply_kind hold spec now_ms a w = some (remember hold w)

  unfoldable pub apply_action : Spec F → ℤ → Action F → World F → Option (World F)
  unfolding apply_kind
  apply_action spec now_ms a w = apply_kind a.kind spec now_ms a w

module _ {F : Type 0} ⦃fl : Float F⦄ where
  unfoldable pub recheck_basket : Spec F → Input F → World F → World F
  unfolding ensure_basket
  recheck_basket spec i w =
      if ltb_ℤ (pos 1000) (i.now_ms -ℤ w.last_basket_check_ms) then ensure_basket spec i w else w

  unfoldable pub pass_snapshot : Spec F → Input F → MemoryStore F → Snapshot F
  pass_snapshot spec i m =
      build_snapshot spec.instrument_id m.basket.atm (ce_pairs m.basket) (pe_pairs m.basket) i.chain
        i.spot_ltp i.spot_ts i.now_ms (pinned_of m)

module _ {F : Type 0} ⦃fl : Float F⦄ (mint : Action F → ℤ → String) where
  abbrev decided :
      VesselState → Spec F → Input F → Action F × MemoryStore F → World F → Option (World F)
  decided state spec i (a, m) w =
      if acts_in state
      then apply_action mint spec i.now_ms a (record w { memory = m })
      else some (record w { memory = m })

  -- From the state gate on, with the state that was read.
  unfoldable pub tick_pass : VesselState → Spec F → Input F → World F → Option (World F)
  unfolding recheck_basket pass_snapshot
  tick_pass state spec i w =
      let w' =
        recheck_basket spec i (record w { memory = sync_memory state i.position w.memory }) in
      decided state spec i
        (on_tick spec.config i.now_ms i.now_ist (pass_snapshot spec i w'.memory) w'.memory) w'

  unfoldable pub live : VesselState → Spec F → Input F → World F → Option (World F)
  unfolding tick_pass
  live halted spec i w = some w
  live flat spec i w = tick_pass flat spec i w
  live in_ce spec i w = tick_pass in_ce spec i w
  live in_pe spec i w = tick_pass in_pe spec i w
  live cooldown spec i w = tick_pass cooldown spec i w

  unfoldable pub vessel_pass : Spec F → Input F → World F → Option (World F)
  vessel_pass spec i w =
      let keys = (maybe_exit_cooldown i.now_ms w.keys).1 in
      if i.session_closed
      then some (record w { draining = true })
      else if is_enabled w.keys
      then live (read_state keys) spec i (record w { keys = keys })
      else some w
