-- ===== src/Strategy/Tick/Turns.antt =====
-- What a held position's actions rest on: a flip on the four signs, a hold on the book's support.
use pcr_momentum.Base.{String, ◌≡◌, some}
use pcr_momentum.Float.{Float}
use pcr_momentum.Snapshot.{Snapshot, Side, StrikeLeg}
use pcr_momentum.Buffer.{StrikeBuffer, buffer_for}
use pcr_momentum.Decisions.Reversal.Signs.{Signs}
use pcr_momentum.Strategy.{Action, Metrics, Thresholds, MemoryStore, pick_dominant_strike}
use pcr_momentum.Strategy.Held.{held_leg, legs_of, opposite, reversal_config}

-- The window of a token.
abbrev pub window_of : {F : Type 0} → MemoryStore F → String → StrikeBuffer F
window_of memory token = (buffer_for memory.buffers token).0

-- A flip: the four signs on the held leg, and an order for the dominant strike of the other side.
pub record Turn {F : Type 0} ⦃fl : Float F⦄ (th : Thresholds F) (s : Snapshot F)
    (memory : MemoryStore F) (side : Side) (token : String) (a : Action F) : Type 0 where
  pub leg : StrikeLeg F
  pub target : StrikeLeg F
  pub found : held_leg s token ≡ some leg
  pub signs : Signs side leg (window_of memory token) (reversal_config th)
  pub dominant : pick_dominant_strike (legs_of (opposite side) s) ≡ some target
  pub on_side : a.side ≡ some (opposite side)
  pub on_token : a.instrument_token ≡ some target.token
