-- ===== src/Examples/Frames.antt =====
-- A frame of the broker's stream on its way into the option chain, on concrete data.
use pcr_momentum.Base.{◌≡◌, refl, Bool, true, Option, some, none, List, [], ◌∷◌, all}
use pcr_momentum.Base.Dict
use pcr_momentum.Base.Int.{ℤ, pos, negsuc, eqb_ℤ, leb_ℤ, ◌*ℤ◌, ◌+ℤ◌}
use pcr_momentum.Float.Fixed.{fixed}
use pcr_momentum.Snapshot.{ce}
use pcr_momentum.Json.{
  Fields, entries, Json, num, text, arr, obj, nil, item, end, field, null, value,
}
use pcr_momentum.Feed.{ParsedTick, parse_tick}
use pcr_momentum.Feed.Shape.{Returns, is_shaped, are_shaped, have_shape, fits}
use pcr_momentum.Feed.Ticks.{AreTicksOf, HasFive, feeds_in, parse_tick-AreTicks}
use pcr_momentum.Feed.Chain.{FeedChain, update_option_chain_leaf}
use pcr_momentum.Feed.Chain.Leaves.{IsReadable, Shows, leg_at, has_strike}
use pcr_momentum.Feed.Chain.Merging.{updated_leg, is_side, update_option_chain_leaf-Shows}
use pcr_momentum.Feed.Processor.{
  DataPipelineState, leg, spot, Turn, frame, quiet, tick_processor_loop, or_nil,
}
use pcr_momentum.Feed.Processor.Keeping.{merge_turns}
use pcr_momentum.Feed.Processor.Sync.{Holds, tick_processor_loop-Holds}
use pcr_momentum.Base.{if◌then◌else◌, ◌&&◌}

-- Two levels of depth; the second has no ask.
abbrev quotes : Json ℤ
quotes = arr (
    item
      (obj (
        field "bidP" (num (pos 100000)) (
          field "askQuote" (num (pos 100500))
            (field "bidQ" (num (pos 75000)) (field "askQ" (num (pos 150000)) end)))))
      (item (obj (field "bidP" (num (pos 99500)) (field "bidQ" (num (pos 225000)) end))) nil))

abbrev payload : Json ℤ
payload = obj (
    field "fullFeed"
      (obj (
        field "marketFF"
          (obj (
            field "ltpc" (obj (field "ltp" (num (pos 100500)) end)) (
              field "marketLevel" (obj (field "bidAskQuote" quotes end))
                (field "vtt" (num (pos 9000000)) end))))
          end))
      end)

abbrev live_frame : Json ℤ
live_frame = obj (field "feeds" (obj (field "T1" payload (field "note" null end))) end)

parse_tick-AreTicks_example :
    Returns (AreTicksOf (feeds_in live_frame)) (parse_tick (pos 5000) live_frame)
unfolding is_shaped are_shaped have_shape fits
parse_tick-AreTicks_example = parse_tick-AreTicks (pos 5000) live_frame refl refl

abbrev tick : ParsedTick ℤ
tick = record {
  token = "T1";
  ltp = some (pos 100500);
  bid = some (pos 100000);
  ask = some (pos 100500);
  bid_qty = some (pos 75);
  ask_qty = some (pos 150);
  bid_prices = some (pos 100000) ∷ some (pos 99500) ∷ none ∷ none ∷ none ∷ [];
  ask_prices = some (pos 100500) ∷ none ∷ none ∷ none ∷ none ∷ [];
  bid_qtys = some (pos 75) ∷ some (pos 225) ∷ none ∷ none ∷ none ∷ [];
  ask_qtys = some (pos 150) ∷ none ∷ none ∷ none ∷ none ∷ [];
  total_bid_qty = some (pos 300);
  total_ask_qty = some (pos 150);
  vol = some (pos 9000);
  oi = none;
  ts = pos 5000;
}

-- The frame is read as this tick.
reads : parse_tick (pos 5000) live_frame ≡ value (tick ∷ [])
unfolding parse_tick ◌+ℤ◌ ◌*ℤ◌ pcr_momentum.Json.find pcr_momentum.Feed.extract_one
    pcr_momentum.Feed.read_ltpc pcr_momentum.Json.get_key pcr_momentum.Json.truth
    pcr_momentum.Json.get_object pcr_momentum.Feed.read_market_ff pcr_momentum.Feed.read_quotes
    pcr_momentum.Feed.read_int pcr_momentum.Feed.read_vol pcr_momentum.Feed.read_either
    pcr_momentum.Feed.read_ts pcr_momentum.Feed.pad
reads = refl

abbrev five : HasFive tick
five = record {
  bid_prices = refl;
  ask_prices = refl;
  bid_qtys = refl;
  ask_qtys = refl;
  bid = refl;
  ask = refl;
  bid_qty = refl;
  ask_qty = refl;
}

readable : IsReadable tick
unfolding ◌*ℤ◌
readable = record {
  ltp = refl;
  bid = refl;
  ask = refl;
  bid_qty = refl;
  ask_qty = refl;
  bid_qtys = (refl, (refl, (tt, (tt, (tt, tt)))));
  ask_qtys = (refl, (tt, (tt, (tt, (tt, tt)))));
  total_bid_qty = refl;
  total_ask_qty = refl;
  vol = refl;
  oi = tt;
  ts = refl;
}

abbrev chain : FeedChain ℤ
chain =
    record { strike = pos 24000; ce_leaf = none; pe_leaf = none }
    ∷ record {
      strike = pos 24050;
      ce_leaf = some (field "ltp" (num (pos 80000)) end);
      pe_leaf = none;
    }
    ∷ []

update_option_chain_leaf-Shows_example :
    Shows tick
      (leg_at chain "T1" (pos 24000) ce)
      (updated_leg chain (pos 24000) ce tick "T1" (pos 24000) ce)
    × (updated_leg chain (pos 24000) ce tick "T1" (pos 24050) ce ≡ (
        if eqb_ℤ (pos 24050) (pos 24000) && is_side ce ce
        then updated_leg chain (pos 24000) ce tick "T1" (pos 24000) ce
        else leg_at chain "T1" (pos 24050) ce))
    × (has_strike (pos 24050) (update_option_chain_leaf chain (pos 24000) ce tick)
        ≡ has_strike (pos 24050) chain)
update_option_chain_leaf-Shows_example =
    update_option_chain_leaf-Shows chain (pos 24000) ce tick "T1" (pos 24050) ce five readable refl

abbrev pipeline : DataPipelineState ℤ
pipeline = record {
  redis = record { chains = ("nifty50", chain) ∷ []; spots = []; ticks = []; published = [] };
  prev_closes = [];
  token_index = ("S", spot "nifty50") ∷ ("T1", leg "nifty50" (pos 24000) ce) ∷ [];
  chain = ("nifty50", chain) ∷ [];
  spots = [];
  last_frame_ts = [];
  tokens_with_first_frame = [];
  ticks_processed = 0;
  last_flush_ts = pos 0;
}

abbrev turns : List (Turn ℤ)
turns = frame live_frame (pos 5000) 10 ∷ quiet (pos 5100) 110 ∷ []

-- A number within 2^63 in size, in thousandths.
is_small : Json ℤ → Bool
is_small (num n) = leb_ℤ n (pos 9223372036854775807000) && leb_ℤ (negsuc 9223372036854775807000) n
is_small _ = true

are_small : Option (Fields ℤ) → Bool
are_small none = true
are_small (some leaf) = all (λ e. is_small e.1) (entries leaf)

takes_small : FeedChain ℤ → Bool
takes_small chain = all (λ s. are_small s.ce_leaf && are_small s.pe_leaf) chain

tick_processor_loop-Holds_example :
    Holds takes_small "nifty50"
      (merge_turns pipeline.token_index "nifty50" turns
        (or_nil (Dict.get "nifty50" pipeline.chain)))
      (tick_processor_loop takes_small
        (pos 5200)
        turns
        (record { state = pipeline; dirty = []; last_flush = 0 }))
unfolding is_shaped are_shaped have_shape fits
tick_processor_loop-Holds_example =
    tick_processor_loop-Holds takes_small (pos 5200) turns 0 pipeline "nifty50" (refl, refl, tt)
      refl
