-- ===== src/Buffer.antt =====
-- backend/engines/strategy/strategies/bid_ask_imbalance/buffer.py: the rolling window of ticks that a
-- vessel keeps for each token of its basket, and the store that holds the windows.
pub mod Window
use pcr_momentum.Base.{
  ℕ, zero, suc, String, Bool, true, false, ◌&&◌, Option, none, some, List, [], ◌∷◌, ◌++◌, drop,
  last?, length, ◌-◌, if◌then◌else◌, map,
}
use pcr_momentum.Base.Int.{ℤ, eqb_ℤ}
use pcr_momentum.Base.Dict.{Dict, get, put, remove}

pub data Aggressor : Type 0 where
  buy sell mid unknown : Aggressor

-- What a tick left behind.
pub record TickObservation (F : Type 0) : Type 0 where
  pub ts : ℤ
  pub ltp : Option F
  pub best_bid : Option F
  pub best_ask : Option F
  pub best_bid_qty : Option ℤ
  pub best_ask_qty : Option ℤ
  pub total_bid_qty : Option ℤ
  pub total_ask_qty : Option ℤ
  pub imbalance : Option F
  pub spread : Option F
  pub ask_wall_present : Option Bool
  pub aggressor : Aggressor

-- `deque(maxlen=…)`, the oldest observation first.
pub record StrikeBuffer (F : Type 0) : Type 0 where
  pub maxlen : ℕ
  pub dq : List (TickObservation F)

pub record BufferStore (F : Type 0) : Type 0 where
  pub capacity : ℕ
  pub buffers : Dict (StrikeBuffer F)

abbrev pub empty_buffer : {F : Type 0} → ℕ → StrikeBuffer F
empty_buffer n = record { maxlen = n; dq = [] }

module _ {F : Type 0} where
  -- `deque.append`: beyond `maxlen` the oldest observations go.
  abbrev pub append : StrikeBuffer F → TickObservation F → StrikeBuffer F
  append b obs = let dq = b.dq ++ obs ∷ [] in record b { dq = drop (length dq - b.maxlen) dq }

  abbrev pub same_tick : Option (TickObservation F) → TickObservation F → Bool
  same_tick none obs = false
  same_tick (some o) obs = eqb_ℤ obs.ts o.ts

  -- A tick with the timestamp of the latest one is skipped.
  unfoldable pub push : StrikeBuffer F → TickObservation F → StrikeBuffer F
  push b obs = if same_tick (last? b.dq) obs then b else append b obs

  unfoldable pub latest : StrikeBuffer F → Option (TickObservation F)
  latest b = last? b.dq

  unfoldable pub last_n : StrikeBuffer F → ℕ → List (TickObservation F)
  last_n b n = drop (length b.dq - n) b.dq

  abbrev or_new : ℕ → Option (StrikeBuffer F) → StrikeBuffer F
  or_new n none = empty_buffer n
  or_new n (some b) = b

  -- The window of a token, and the store, which has it from now on.
  unfoldable pub buffer_for : BufferStore F → String → StrikeBuffer F × BufferStore F
  buffer_for s token =
      let b = or_new s.capacity (get token s.buffers) in
      (b, record s { buffers = put token b s.buffers })

  -- `buffer_for(token).push(obs)`: the store sees what is pushed on the window that it handed out.
  unfoldable pub push_for : BufferStore F → String → TickObservation F → BufferStore F
  unfolding buffer_for push
  push_for s token obs =
      let (b, s') = buffer_for s token in record s' { buffers = put token (push b obs) s'.buffers }

  remove_all : List String → Dict (StrikeBuffer F) → Dict (StrikeBuffer F)
  remove_all [] d = d
  remove_all (t ∷ ts) d = remove_all ts (remove t d)

  unfoldable pub discard : BufferStore F → List String → BufferStore F
  unfolding remove_all
  discard s tokens = record s { buffers = remove_all tokens s.buffers }

  unfoldable pub known_tokens : BufferStore F → List String
  known_tokens s = map (λ e. e.0) s.buffers
