-- ===== src/Feed/Processor.antt =====
-- backend/engines/data_pipeline/tick_processor.py and state.py: ticks from the queue go into the chains
-- and spots in memory, and every 50 ms into Redis. Whether orjson.dumps takes a chain is a parameter: it
-- raises on integers beyond 64 bits. A spot is taken to be small enough. The trimming of the tick stream is left out.
pub mod Keeping
pub mod Sync
use pcr_momentum.Base.{
  ℕ, suc, ◌+◌, String, str_eq, Bool, true, false, not, ◌&&◌, Option, none, some, List, [], ◌∷◌,
  ◌++◌, any, all, if◌then◌else◌, leb,
}
use pcr_momentum.Base.Int.{ℤ, pos, eqb_ℤ}
use pcr_momentum.Base.Dict.{Dict, get, put}
use pcr_momentum.Float.{Float, nought}
use pcr_momentum.Snapshot.{Side}
use pcr_momentum.Json.{Try, raised, value, ◌>>=◌, Json, truth, or_null, to_float, is_nought}
use pcr_momentum.Feed.{ParsedTick, parse_tick}
use pcr_momentum.Feed.Chain.{FeedChain, Spot, update_option_chain_leaf, update_spot_snapshot}

-- What a token stands for: the spot of an index, or one side of a strike.
pub data Slot : Type 0 where
  spot : String → Slot
  leg : String → ℤ → Side → Slot

-- An entry of market_data:stream:tick; `ltp` is `tick.ltp or 0`.
pub record TickEvent (F : Type 0) : Type 0 where
  pub index : String
  pub token : String
  pub ltp : F
  pub ts : ℤ

-- The keys in Redis: the chains and spots by index, the tick streams, and the channels that were
-- published to, by token.
pub record Redis (F : Type 0) : Type 0 where
  pub chains : Dict (FeedChain F)
  pub spots : Dict (Spot F)
  pub ticks : List (TickEvent F)
  pub published : List String

-- DataPipelineState. `prev_closes` is the field of that name in index_meta.
pub record DataPipelineState (F : Type 0) : Type 0 where
  pub redis : Redis F
  pub prev_closes : Dict (Json F)
  pub token_index : Dict Slot
  pub chain : Dict (FeedChain F)
  pub spots : Dict (Spot F)
  pub last_frame_ts : Dict ℤ
  pub tokens_with_first_frame : List String
  pub ticks_processed : ℕ
  pub last_flush_ts : ℤ

-- The loop's variables: the state, the dirty indexes, and the time of the last flush in whole ms.
pub record Loop (F : Type 0) : Type 0 where
  pub state : DataPipelineState F
  pub dirty : List String
  pub last_flush : ℕ

-- What one turn of the loop meets: no frame for 0.1 s, an error of the queue, or a frame; with the
-- clock in ms since the epoch and the monotonic one.
pub data Turn (F : Type 0) : Type 0 where
  quiet : ℤ → ℕ → Turn F
  failed : Turn F
  frame : Json F → ℤ → ℕ → Turn F

-- The loop ends at the shutdown, or with an error that it does not catch.
pub data Ending (F : Type 0) : Type 0 where
  ended : DataPipelineState F → Ending F
  crashed : DataPipelineState F → Ending F

abbrev pub mem : String → List String → Bool
mem x xs = any (str_eq x) xs

abbrev pub add : String → List String → List String
add x xs = if mem x xs then xs else x ∷ xs

abbrev pub mark : Slot → List String → List String
mark (spot _) dirty = dirty
mark (leg index _ _) dirty = add index dirty

abbrev pub is_dirty : List String → Bool
is_dirty [] = false
is_dirty (_ ∷ _) = true

abbrev pub or_nil {ℓ} : {A : Type ℓ} → Option (List A) → List A
or_nil none = []
or_nil (some xs) = xs

-- `tick.ts or int(time.time() * 1000)`
abbrev ts_or_now : ℤ → ℤ → ℤ
ts_or_now ts now = if eqb_ℤ ts (pos 0) then now else ts

module _ {F : Type 0} ⦃fl : Float F⦄ where
  -- `x or None`
  abbrev nonzero : F → Option F
  nonzero x = if is_nought x then none else some x

  abbrev converted : Option F → Try (Option F)
  converted none = raised
  converted (some x) = value (nonzero x)

  -- `float(prev_close or 0) or None`
  unfoldable pub read_prev_close : Json F → Try (Option F)
  read_prev_close v = if truth v then converted (to_float v) else value none

  abbrev or_nought : Option F → F
  or_nought none = nought
  or_nought (some x) = x

  -- `_emit_tick_stream`, and the message on the token's channel.
  unfoldable pub emit_tick : String → ParsedTick F → Redis F → Redis F
  emit_tick index tick r = record r {
    ticks =
        r.ticks
        ++ record { index = index; token = tick.token; ltp = or_nought tick.ltp; ts = tick.ts }
          ∷ [];
    published = r.published ++ tick.token ∷ [];
  }

  abbrev seen : ℤ → ParsedTick F → DataPipelineState F → DataPipelineState F
  seen now tick s = record s {
    last_frame_ts = put tick.token (ts_or_now tick.ts now) s.last_frame_ts;
    tokens_with_first_frame = add tick.token s.tokens_with_first_frame;
  }

  -- `flush_spot` is the write of redis.spots.
  abbrev with_spot : String → ParsedTick F → Spot F → DataPipelineState F → DataPipelineState F
  with_spot index tick snap s = record s {
    spots = put index snap s.spots;
    redis = emit_tick index tick (record (s.redis) { spots = put index snap s.redis.spots });
  }

  abbrev spot_tick :
      String → ParsedTick F → Try (Option F) → DataPipelineState F → DataPipelineState F × Bool
  spot_tick index tick raised s = (s, false)
  spot_tick index tick (value prev_close) s =
      (with_spot index tick (update_spot_snapshot (get index s.spots) tick prev_close) s, true)

  -- The new state, and whether the tick was applied without an error.
  unfoldable pub process_one_tick :
      ℤ → Slot → ParsedTick F → DataPipelineState F → DataPipelineState F × Bool
  unfolding emit_tick
  process_one_tick now (spot index) tick s =
      spot_tick index tick (read_prev_close (or_null (get index s.prev_closes))) (seen now tick s)
  process_one_tick now (leg index strike side) tick s = (
    record (seen now tick s) {
      chain =
          put index (update_option_chain_leaf (or_nil (get index s.chain)) strike side tick)
            s.chain;
      redis = emit_tick index tick s.redis;
    },
    true,
  )

  -- The chains of the dirty indexes as they are in memory.
  unfoldable pub flushed :
      List String → Dict (FeedChain F) → Dict (FeedChain F) → Dict (FeedChain F)
  flushed [] memory stored = stored
  flushed (index ∷ dirty) memory stored =
      flushed dirty memory (put index (or_nil (get index memory)) stored)

  unfoldable pub flush_chains : ℤ → List String → DataPipelineState F → DataPipelineState F
  unfolding flushed
  flush_chains now [] s = s
  flush_chains now (index ∷ dirty) s = record s {
    redis = record (s.redis) { chains = flushed (index ∷ dirty) s.chain s.redis.chains };
    last_flush_ts = now;
  }

  abbrev counted : Slot → DataPipelineState F × Bool → Loop F → Loop F
  counted slot (s, true) l = record l {
    state = record s { ticks_processed = s.ticks_processed + 1 };
    dirty = mark slot l.dirty;
  }
  counted slot (s, false) l = record l { state = s }

  abbrev apply_known : ℤ → Option Slot → ParsedTick F → Loop F → Loop F
  apply_known now none tick l = l
  apply_known now (some slot) tick l = counted slot (process_one_tick now slot tick l.state) l

  -- A token without a slot is dropped.
  unfoldable pub apply_tick : ℤ → ParsedTick F → Loop F → Loop F
  unfolding process_one_tick
  apply_tick now tick l = apply_known now (get tick.token l.state.token_index) tick l

  unfoldable pub apply_ticks : ℤ → List (ParsedTick F) → Loop F → Loop F
  unfolding apply_tick
  apply_ticks now [] l = l
  apply_ticks now (tick ∷ ticks) l = apply_ticks now ticks (apply_tick now tick l)

-- One turn goes on with the loop, or an exception ends it in this state.
pub data Turned (F : Type 0) : Type 0 where
  goes_on : Loop F → Turned F
  stops : DataPipelineState F → Turned F

module _ {F : Type 0} ⦃fl : Float F⦄ (takes : FeedChain F → Bool) where
  -- Whether orjson.dumps takes the chains of all dirty indexes; where not, nothing is written.
  abbrev pub takes_all : List String → Dict (FeedChain F) → Bool
  takes_all dirty memory = all (λ index. takes (or_nil (get index memory))) dirty

  abbrev pub flush_if : ℤ → ℕ → Bool → Loop F → Turned F
  flush_if now mono false l = goes_on l
  flush_if now mono true l =
      if takes_all l.dirty l.state.chain
      then goes_on
          (record { state = flush_chains now l.dirty l.state; dirty = []; last_flush = mono })
      else stops l.state

  unfoldable pub flush_when_due : ℤ → ℕ → Loop F → Turned F
  unfolding flush_chains
  flush_when_due now mono l = flush_if now mono (leb (l.last_flush + 50) mono && is_dirty l.dirty) l

  -- A frame that does not parse raises out of the loop.
  abbrev pub take_ticks : ℤ → ℕ → Try (List (ParsedTick F)) → Loop F → Turned F
  take_ticks now mono raised l = stops l.state
  take_ticks now mono (value ticks) l = flush_when_due now mono (apply_ticks now ticks l)

  unfoldable pub turn : Turn F → Loop F → Turned F
  unfolding apply_ticks flush_when_due parse_tick
  turn (quiet now mono) l = flush_when_due now mono l
  turn failed l = goes_on l
  turn (frame raw now mono) l = take_ticks now mono (parse_tick now raw) l

  abbrev pub last_flush_of : ℤ → Loop F → Ending F
  last_flush_of now l =
      if takes_all l.dirty l.state.chain
      then ended (flush_chains now l.dirty l.state)
      else crashed l.state

  -- The turns until the shutdown, and the flush after them.
  unfoldable pub tick_processor_loop : ℤ → List (Turn F) → Loop F → Ending F
  unfolding turn flush_chains
  tick_processor_loop now [] l = last_flush_of now l
  tick_processor_loop now (t ∷ turns) l = elim (turn t l) [
    | goes_on l' ↦ tick_processor_loop now turns l'
    | stops s ↦ crashed s
  ]
