-- ===== src/Examples.antt =====
-- Concrete data for the examples, in whole thousandths: `pos 100500` is 100.50.
mod Ticks
mod Vessels
mod Market
mod Orders
mod Entries
mod Closes
mod Boot
mod Frames
mod Services
mod Jobs
mod Routes
use pcr_momentum.Base.{ℕ, String, true, false, Bool, Option, none, some, List, [], ◌∷◌}
use pcr_momentum.Base.Int.{ℤ, pos}
use pcr_momentum.Float.Fixed.{fixed}
use pcr_momentum.Snapshot.{Side, ce, pe, StrikeLeg, Snapshot, Raw, num, null, Leaf, Sides, Chain}
use pcr_momentum.Buffer.{TickObservation, StrikeBuffer, BufferStore, Aggressor, buy}
use pcr_momentum.Decisions.Timing.{TimingWindow}
use pcr_momentum.Decisions.{no_reason}
use pcr_momentum.Basket.{Basket}
use pcr_momentum.Strategy.{
  Config, MemoryStore, Thresholds, Metrics, Action, ActionKind, bare, read_thresholds,
}
use pcr_momentum.Strategy.Tick.{tick_metrics}
use pcr_momentum.Metrics.{PressureLabel, bullish}
use pcr_momentum.Publisher.{SignalStore}

-- A leg with its prices, the quantities at the best prices and the totals of its two sides.
abbrev pub leg_with : String → ℤ → Side → ℤ → ℤ → ℤ → ℤ → ℤ → ℤ → ℤ → StrikeLeg ℤ
leg_with token strike side ltp bid ask bid_qty ask_qty total_bid total_ask = record {
  token = token;
  strike = strike;
  side = side;
  ltp = some ltp;
  best_bid = some bid;
  best_ask = some ask;
  best_bid_qty = some bid_qty;
  best_ask_qty = some ask_qty;
  bid_qtys = [];
  ask_qtys = [];
  total_bid_qty = some total_bid;
  total_ask_qty = some total_ask;
  vol = none;
  oi = none;
  ts = pos 5000;
}

-- Buyers take the ask of the call; the put is balanced.
abbrev pub bought_call : StrikeLeg ℤ
bought_call =
    leg_with "C1" (pos 100) ce (pos 100500) (pos 100000) (pos 100500) (pos 40) (pos 50) (pos 300)
      (pos 100)

abbrev pub even_put : StrikeLeg ℤ
even_put =
    leg_with "P1" (pos 100) pe (pos 90200) (pos 90000) (pos 90500) (pos 40) (pos 50) (pos 100)
      (pos 100)

-- The call after a collapse: a wall on the ask, a spread of 3, the last price at the bid.
abbrev pub fallen_call : StrikeLeg ℤ
fallen_call =
    leg_with "C1" (pos 100) ce (pos 100000) (pos 100000) (pos 103000) (pos 40) (pos 1000) (pos 100)
      (pos 100)

abbrev pub snapshot_of : StrikeLeg ℤ → StrikeLeg ℤ → Snapshot ℤ
snapshot_of call put = record {
  instrument_id = "nifty50";
  atm = pos 100;
  spot = some (pos 100000);
  spot_ts = pos 5000;
  ce_legs = call ∷ [];
  pe_legs = put ∷ [];
  snapshot_ts = pos 5000;
}

abbrev pub calm : ℤ → TickObservation ℤ
calm ts = record {
  ts = ts;
  ltp = some (pos 100500);
  best_bid = some (pos 100000);
  best_ask = some (pos 100500);
  best_bid_qty = some (pos 40);
  best_ask_qty = some (pos 50);
  total_bid_qty = some (pos 300);
  total_ask_qty = some (pos 100);
  imbalance = some (pos 3000);
  spread = some (pos 500);
  ask_wall_present = some false;
  aggressor = buy;
}

abbrev pub calm_window : StrikeBuffer ℤ
calm_window = record { maxlen = 60; dq = calm (pos 1000) ∷ calm (pos 2000) ∷ calm (pos 3000) ∷ [] }

abbrev pub basket : Basket
basket = record {
  atm = pos 100;
  ce_strikes = pos 100 ∷ [];
  pe_strikes = pos 100 ∷ [];
  ce_tokens = (pos 100, "C1") ∷ [];
  pe_tokens = (pos 100, "P1") ∷ [];
  last_shift_ts = pos 1000;
}

-- One window from 9:15 to 15:00.
abbrev pub windows : List TimingWindow
windows =
    record { start = 33300000000; end = 54000000000; phase = "PEAK"; min_score = some (pos 6) } ∷ []

abbrev pub ten_o_clock : ℕ
ten_o_clock = 36000000000

abbrev pub idle_memory : MemoryStore ℤ
idle_memory = record {
  buffers = record { capacity = 60; buffers = ("C1", calm_window) ∷ [] };
  basket = basket;
  timing_windows = windows;
  last_action_kind = none;
  held_token = none;
  held_strike = none;
  held_side = none;
  suppress_until_ts = pos 0;
}

abbrev pub call_memory : MemoryStore ℤ
call_memory = record idle_memory {
  held_token = some "C1";
  held_strike = some (pos 100);
  held_side = some ce;
}

-- Every setting at its default.
abbrev pub config : Config ℤ
config = record {
  imbalance_strong_buy = none;
  imbalance_neutral_low = none;
  imbalance_continuation = none;
  net_pressure_entry_threshold = none;
  net_pressure_neutral_band = none;
  imbalance_drop_pct_for_reversal = none;
  ask_wall_qty_multiple = none;
  ltp_aggressor_tolerance_inr = none;
  min_consecutive = none;
  window_ms = none;
  spread_good_inr = none;
  spread_moderate_inr = none;
  lookback_ticks = none;
  suppress_sec = none;
  qty_lots = some (pos 2);
}

abbrev pub no_signals : SignalStore
no_signals = record { stream = []; counter = 0; stored = []; active = [] }

abbrev pub bought_leaf : Leaf ℤ
bought_leaf = record {
  token = "C1";
  ltp = num (pos 100500);
  bid = num (pos 100000);
  ask = num (pos 100500);
  bid_qty = num (pos 40000);
  ask_qty = num (pos 50000);
  bid_qtys = [];
  ask_qtys = [];
  total_bid_qty = num (pos 300000);
  total_ask_qty = num (pos 100000);
  vol = null;
  oi = null;
  ts = num (pos 5000000);
}

abbrev pub even_leaf : Leaf ℤ
even_leaf = record bought_leaf {
  token = "P1";
  ltp = num (pos 90200);
  bid = num (pos 90000);
  ask = num (pos 90500);
  total_bid_qty = num (pos 100000);
}

abbrev pub chain : Chain ℤ
chain = record { strike = pos 100; ce_leaf = some bought_leaf; pe_leaf = some even_leaf } ∷ []
