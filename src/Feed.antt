-- ===== src/Feed.antt =====
-- backend/engines/data_pipeline/parser.py: from a frame of the broker's stream to ticks. A part of a
-- payload that is no object makes `.get` raise, and so does `int` of an infinity; both leave parse_tick.
pub mod Shape
pub mod Decoding
pub mod Ticks
pub mod Chain
pub mod Processor
pub mod Boot
use pcr_momentum.Base.{
  ℕ, zero, suc, ◌-◌, String, str_eq, Bool, true, false, ◌&&◌, Option, none, some, List, [], ◌∷◌,
  ◌++◌, map, take, length, all, present, if◌then◌else◌,
}
use pcr_momentum.Base.Int.{ℤ, pos, ◌+ℤ◌, eqb_ℤ}
use pcr_momentum.Float.{Float, ◌≤f◌}
use pcr_momentum.Json.{
  Try, raised, value, ◌>>=◌, Json, null, num, text, arr, obj, nil, end, get_key, get_object,
  is_object, Fields, elements, entries, or_null, find, or_try, to_float, is_infinite,
}

pub record ParsedTick (F : Type 0) : Type 0 where
  pub token : String
  pub ltp : Option F
  pub bid : Option F
  pub ask : Option F
  pub bid_qty : Option ℤ
  pub ask_qty : Option ℤ
  pub bid_prices : List (Option F)
  pub ask_prices : List (Option F)
  pub bid_qtys : List (Option ℤ)
  pub ask_qtys : List (Option ℤ)
  pub total_bid_qty : Option ℤ
  pub total_ask_qty : Option ℤ
  pub vol : Option ℤ
  pub oi : Option ℤ
  pub ts : ℤ

abbrev pub nones {ℓ} : {A : Type ℓ} → ℕ → List (Option A)
nones zero = []
nones (suc n) = none ∷ nones n

-- `_pad(seq, n)`
unfoldable pub pad {ℓ} : {A : Type ℓ} → List (Option A) → ℕ → List (Option A)
pad seq n = let levels = take n seq in levels ++ nones (n - length levels)

abbrev pub sum_of : List ℤ → ℤ
sum_of [] = pos 0
sum_of (q ∷ qs) = q +ℤ sum_of qs

-- `sum(present) if present else None`
abbrev pub sum_or_none : List ℤ → Option ℤ
sum_or_none [] = none
sum_or_none (q ∷ qs) = some (sum_of (q ∷ qs))

-- The first level, `seq[0]` of a padded list.
abbrev pub top {ℓ} : {A : Type ℓ} → List (Option A) → Option A
top [] = none
top (v ∷ vs) = v

-- The characters of a text, as Python's slices hand them over.
abbrev chars : {F : Type 0} → String → List (Json F)
chars String.[] = []
chars (String.◌∷◌ c s) = text (String.◌∷◌ c String.[]) ∷ chars s

-- `|` in a key marks a token of the broker.
abbrev pub has_bar : String → Bool
has_bar String.[] = false
has_bar (String.◌∷◌ c s) = if str_eq (String.◌∷◌ c String.[]) "|" then true else has_bar s

abbrev pub explicit_or : Option ℤ → Option ℤ → Option ℤ
explicit_or none total = total
explicit_or (some n) total = some n

-- `ts or default_ts`
abbrev ts_or : ℤ → Option ℤ → ℤ
ts_or default_ts none = default_ts
ts_or default_ts (some ts) = if eqb_ℤ ts (pos 0) then default_ts else ts

pub record Depth (F : Type 0) : Type 0 where
  pub bid_prices : List (Option F)
  pub ask_prices : List (Option F)
  pub bid_qtys : List (Option ℤ)
  pub ask_qtys : List (Option ℤ)

module _ {F : Type 0} ⦃fl : Float F⦄ where
  abbrev finite : Option F → Option F
  finite none = none
  finite (some x) = if is_infinite x then none else if x ≤f x then some x else none

  -- `_f`: no value for None, "", what `float` refuses, not-a-number and the infinities.
  unfoldable pub read_float : Json F → Option F
  unfolding to_float
  read_float (text s) = if str_eq s "" then none else finite (fl.parse s)
  read_float v = finite (to_float v)

  -- `int(x)` of a float: an OverflowError at an infinity is not caught, a ValueError is.
  abbrev int_of : Option F → Try (Option ℤ)
  int_of none = value none
  int_of (some x) = if is_infinite x then raised else value (fl.trunc x)

  -- `_i`
  unfoldable pub read_int : Json F → Try (Option ℤ)
  unfolding to_float
  read_int (text s) = if str_eq s "" then value none else int_of (fl.parse s)
  read_int v = int_of (to_float v)

  -- One entry of bidAskQuote, put in front of the levels below it.
  abbrev pub level : Option F → Option F → Option ℤ → Option ℤ → Depth F → Depth F
  level bid ask bid_qty ask_qty d = record {
    bid_prices = bid ∷ d.bid_prices;
    ask_prices = ask ∷ d.ask_prices;
    bid_qtys = bid_qty ∷ d.bid_qtys;
    ask_qtys = ask_qty ∷ d.ask_qtys;
  }

  unfoldable pub extract_levels : List (Json F) → Try (Depth F)
  extract_levels [] =
      value (record { bid_prices = []; ask_prices = []; bid_qtys = []; ask_qtys = [] })
  extract_levels (obj fs ∷ quotes) = do
    bid_p ← get_key "bidP" (obj fs)
    bid_price ← or_try bid_p (get_key "bidQuote" (obj fs))
    ask_p ← get_key "askP" (obj fs)
    ask_price ← or_try ask_p (get_key "askQuote" (obj fs))
    bid_q ← get_key "bidQ" (obj fs)
    bid_qty ← read_int bid_q
    ask_q ← get_key "askQ" (obj fs)
    ask_qty ← read_int ask_q
    below ← extract_levels quotes
    value (level (read_float bid_price) (read_float ask_price) bid_qty ask_qty below)
  extract_levels (_ ∷ quotes) = do
    below ← extract_levels quotes
    value (level none none none none below)

  abbrev padded : Depth F → Depth F
  padded d = record {
    bid_prices = pad d.bid_prices 5;
    ask_prices = pad d.ask_prices 5;
    bid_qtys = pad d.bid_qtys 5;
    ask_qtys = pad d.ask_qtys 5;
  }

  -- The quotes that `[:5]` can be taken of: a list, or a text.
  abbrev sliced : Json F → Try (List (Json F))
  sliced (arr vs) = value (take 5 (elements vs))
  sliced (text s) = value (take 5 (chars s))
  sliced _ = raised

  unfoldable pub extract_depth : Json F → Try (Depth F × Option ℤ × Option ℤ)
  unfolding extract_levels
  extract_depth quotes = do
    entries_5 ← sliced quotes
    read ← extract_levels entries_5
    let d = padded read
    value (d, sum_or_none (present d.bid_qtys), sum_or_none (present d.ask_qtys))

  -- `payload.get(a, {}).get(b, {}).get("ltpc")`
  abbrev inner_ltpc : String → String → Json F → Try (Json F)
  inner_ltpc a b payload = do
    outer ← get_object a payload
    feed ← get_object b outer
    get_key "ltpc" feed

  -- `payload.get(a, {}).get("marketFF")`
  abbrev inner_market : String → Json F → Try (Json F)
  inner_market a payload = do outer ← get_object a payload; get_key "marketFF" outer

  abbrev or_that : Try (Json F) → Try (Json F) → Try (Json F)
  or_that first rest = first >>= λ v. or_try v rest

  unfoldable pub read_ltpc : Json F → Try (Json F)
  read_ltpc payload = or_that (get_key "ltpc" payload) (
      or_that (inner_ltpc "fullFeed" "marketFF" payload) (
        or_that (inner_ltpc "ff" "marketFF" payload) (
          or_that (inner_ltpc "fullFeed" "indexFF" payload)
            (or_that (inner_ltpc "ff" "indexFF" payload) (value (obj end))))))

  unfoldable pub read_market_ff : Json F → Try (Json F)
  read_market_ff payload =
      or_that (inner_market "fullFeed" payload) (
        or_that (inner_market "ff" payload)
          (or_that (get_key "marketFF" payload) (value (obj end))))

  unfoldable pub read_quotes : Json F → Json F → Try (Json F)
  read_quotes market_ff payload = do
    market_level ←
        or_that (get_key "marketLevel" market_ff)
          (or_that (get_key "marketLevel" payload) (value (obj end)))
    or_that (get_key "bidAskQuote" market_level) (value (arr nil))

  unfoldable pub read_vol : Json F → Json F → Try (Option ℤ)
  read_vol market_ff payload = do
    market_ohlc ← get_object "marketOHLC" market_ff
    vol ← or_that (get_key "vtt" market_ff) (
        or_that (get_key "vol" market_ohlc)
          (or_that (get_key "vol" payload) (get_key "vtt" payload)))
    read_int vol

  -- A field of marketFF, or of the payload, as a quantity.
  unfoldable pub read_either : String → Json F → Json F → Try (Option ℤ)
  read_either k market_ff payload = or_that (get_key k market_ff) (get_key k payload) >>= read_int

  unfoldable pub read_ts : Json F → Json F → ℤ → Try ℤ
  read_ts ltpc market_ff default_ts = do
    ltt ←
        or_that (get_key "ltt" ltpc)
          (or_that (get_key "tsInMillis" market_ff) (value (num (fl.of_int default_ts))))
    ts ← read_int ltt
    value (ts_or default_ts ts)

  unfoldable pub extract_one : String → Json F → ℤ → Try (ParsedTick F)
  unfolding extract_depth read_float
  extract_one token payload default_ts = do
    ltpc ← read_ltpc payload
    market_ff ← read_market_ff payload
    quotes ← read_quotes market_ff payload
    depth ← extract_depth quotes
    vol ← read_vol market_ff payload
    oi ← read_either "oi" market_ff payload
    tbq_explicit ← read_either "tbq" market_ff payload
    tsq_explicit ← read_either "tsq" market_ff payload
    ts ← read_ts ltpc market_ff default_ts
    ltp ← or_that (get_key "ltp" ltpc) (get_key "LTP" ltpc)
    let book = depth.0
    value (record {
      token = token;
      ltp = read_float ltp;
      bid = top book.bid_prices;
      ask = top book.ask_prices;
      bid_qty = top book.bid_qtys;
      ask_qty = top book.ask_qtys;
      bid_prices = book.bid_prices;
      ask_prices = book.ask_prices;
      bid_qtys = book.bid_qtys;
      ask_qtys = book.ask_qtys;
      total_bid_qty = explicit_or tbq_explicit depth.1;
      total_ask_qty = explicit_or tsq_explicit depth.2;
      vol = vol;
      oi = oi;
      ts = ts;
    })

  -- The payloads that are no objects are passed over.
  unfoldable pub extract_feeds : ℤ → List (String × Json F) → Try (List (ParsedTick F))
  extract_feeds default_ts [] = value []
  extract_feeds default_ts ((token, payload) ∷ feeds) =
      let rest = extract_feeds default_ts feeds in
      if is_object payload
      then (do tick ← extract_one token payload default_ts; ticks ← rest; value (tick ∷ ticks))
      else rest

  abbrev feeds_of : Fields F → Json F → List (String × Json F)
  feeds_of frame (obj feeds) = entries feeds
  feeds_of frame _ = if all (λ e. has_bar e.0) (entries frame) then entries frame else []

  -- `default_ts` is the clock.
  unfoldable pub parse_tick : ℤ → Json F → Try (List (ParsedTick F))
  unfolding extract_feeds
  parse_tick default_ts (obj frame) =
      extract_feeds default_ts (feeds_of frame (or_null (find "feeds" frame)))
  parse_tick default_ts _ = value []
