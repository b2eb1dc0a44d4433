-- ===== src/Init.antt =====
-- backend/engines/init/strike_basket_builder.py: the strikes, the expiry, the template of the option
-- chain and the basket of an index at the start of a day. The broker's answers are arguments. Prices of
-- strikes are whole; `side` is instrument_type in upper case, none where it is neither CE nor PE.
pub mod Template
use Prim.Native.String.{compare}
use package.text.Mathlib.Text.{is_lt}
use pcr_momentum.Base.{
  ℕ, zero, suc, ◌+◌, ◌*◌, String, str_eq, Bool, true, false, not, ◌&&◌, Option, none, some, List,
  [], ◌∷◌, ◌++◌, any, truthy, length, if◌then◌else◌,
}
use pcr_momentum.Base.Int.{ℤ, pos, ◌+ℤ◌, ◌-ℤ◌, ◌*ℤ◌, eqb_ℤ, leb_ℤ}
use pcr_momentum.Float.{Float, ◌/f◌, nought}
use pcr_momentum.Snapshot.{Side, ce, pe}
use pcr_momentum.Json.{Json, null, num, text, Fields, end, field}
use pcr_momentum.Feed.Chain.{Strike, FeedChain, set_leaf}
use pcr_momentum.Feed.Processor.{mem, add}
use pcr_momentum.Feed.Boot.{side_token}

-- An option contract; "" and 0 where a key is missing.
pub record Contract : Type 0 where
  pub expiry : String
  pub strike_price : ℤ
  pub side : Option Side
  pub instrument_key : String
  pub lot_size : ℤ

abbrev insert_text : String → List String → List String
insert_text s [] = s ∷ []
insert_text s (t ∷ ts) =
    let rest = insert_text s ts in
    if str_eq s t then t ∷ ts else if is_lt (compare s t) then s ∷ t ∷ ts else t ∷ rest

-- `sorted` of the set of the expiries that are not empty.
abbrev sorted_expiries : List Contract → List String
sorted_expiries [] = []
sorted_expiries (c ∷ contracts) =
    let rest = sorted_expiries contracts in
    if truthy c.expiry then insert_text c.expiry rest else rest

abbrev pub first_from : String → List String → Option String
first_from today [] = none
first_from today (e ∷ expiries) =
    let rest = first_from today expiries in if is_lt (compare e today) then rest else some e

unfoldable pub discover_nearest_expiry : List Contract → String → Option String
discover_nearest_expiry contracts today = first_from today (sorted_expiries contracts)

-- n strikes from one on, a step apart.
abbrev pub strikes_up : ℕ → ℤ → ℤ → List ℤ
strikes_up zero strike step = []
strikes_up (suc n) strike step = strike ∷ strikes_up n (strike +ℤ step) step

abbrev pub mem_ℤ : ℤ → List ℤ → Bool
mem_ℤ k ks = any (λ s. eqb_ℤ s k) ks

abbrev in_window : String → List ℤ → List Contract → List Contract
in_window expiry strikes [] = []
in_window expiry strikes (c ∷ contracts) =
    let rest = in_window expiry strikes contracts in
    if str_eq c.expiry expiry && mem_ℤ c.strike_price strikes then c ∷ rest else rest

unfoldable pub filter_atm_window_strikes :
    List Contract → String → ℤ → ℤ → ℕ → List ℤ × List Contract
filter_atm_window_strikes contracts expiry atm step window =
    let strikes = strikes_up (2 * window + 1) (atm -ℤ pos window *ℤ step) step in
    (strikes, in_window expiry strikes contracts)

module _ {F : Type 0} ⦃fl : Float F⦄ where
  abbrev key_or_null : String → Json F
  key_or_null s = if truthy s then text s else null

  -- The placeholders of one leg.
  unfoldable pub template_leaf : Contract → Fields F
  template_leaf c = field "token" (key_or_null c.instrument_key) (
      field "ltp" (num nought) (
        field "bid" (num nought) (
          field "ask" (num nought) (
            field "bid_qty" (num nought) (
              field "ask_qty" (num nought) (
                field "vol" (num nought)
                  (field "oi" (num nought) (field "ts" (num nought) end))))))))

  unfoldable pub empty_chain : List ℤ → FeedChain F
  empty_chain [] = []
  empty_chain (k ∷ strikes) =
      record { strike = k; ce_leaf = none; pe_leaf = none } ∷ empty_chain strikes

  -- `by_strike[strike][side] = leaf`, where the strike is there.
  unfoldable pub put_leg : ℤ → Side → Fields F → FeedChain F → FeedChain F
  put_leg k side leaf [] = []
  put_leg k side leaf (s ∷ chain) =
      (if eqb_ℤ s.strike k then set_leaf side leaf s else s) ∷ put_leg k side leaf chain

  abbrev pub put_contract : Contract → Option Side → FeedChain F → FeedChain F
  put_contract c none chain = chain
  put_contract c (some side) chain = put_leg c.strike_price side (template_leaf c) chain

  unfoldable pub put_contracts : List Contract → FeedChain F → FeedChain F
  unfolding put_leg template_leaf
  put_contracts [] chain = chain
  put_contracts (c ∷ contracts) chain = put_contracts contracts (put_contract c c.side chain)

  unfoldable pub build_option_chain_template : List Contract → List ℤ → FeedChain F
  unfolding put_contracts empty_chain
  build_option_chain_template contracts strikes = put_contracts contracts (empty_chain strikes)

  -- `(option_chain.get(strike) or {}).get(side)`, its token, in front of the others.
  abbrev token_first : ℤ → Side → FeedChain F → List String → List String
  token_first k side [] tokens = tokens
  token_first k side (s ∷ chain) tokens =
      let rest = token_first k side chain tokens in
      let token = side_token side s in
      if eqb_ℤ s.strike k then (if truthy token then token ∷ tokens else tokens) else rest

  -- The tokens of n strikes from one on.
  unfoldable pub basket_tokens : ℕ → ℤ → ℤ → Side → FeedChain F → List String
  basket_tokens zero k step side chain = []
  basket_tokens (suc n) k step side chain =
      token_first k side chain (basket_tokens n (k +ℤ step) step side chain)

  -- Calls from the ATM down, puts from the ATM up.
  unfoldable pub build_trading_basket : FeedChain F → ℤ → ℤ → ℕ → List String × List String
  unfolding basket_tokens
  build_trading_basket chain atm step range_n = (
    basket_tokens (suc range_n) atm (pos 0 -ℤ step) ce chain,
    basket_tokens (suc range_n) atm step pe chain,
  )

  -- none where the step is not positive, which raises.
  unfoldable pub builder_atm : F → ℤ → Option ℤ
  builder_atm spot step =
      if leb_ℤ step (pos 0) then none else some (fl.round_int (spot /f fl.of_int step) *ℤ step)

-- The settings of an index.
pub record BuildConfig : Type 0 where
  pub strike_step : ℤ
  pub lot_size : ℤ
  pub pre_open_subscribe_window : ℕ
  pub trading_basket_range : ℕ

-- What build_for_index stores for an index.
pub record Built (F : Type 0) : Type 0 where
  pub atm : ℤ
  pub expiry : String
  pub lot_size : ℤ
  pub strikes : List ℤ
  pub chain : FeedChain F
  pub ce_basket : List String
  pub pe_basket : List String
  pub desired : List String

-- It stores, it disables the strategy with a reason, or the step is not positive and it raises.
pub data BuildEnd (F : Type 0) : Type 0 where
  built : Built F → BuildEnd F
  disabled : String → BuildEnd F
  raised : BuildEnd F

abbrev first_lot_size : ℤ → List Contract → ℤ
first_lot_size default [] = default
first_lot_size default (c ∷ contracts) =
    let rest = first_lot_size default contracts in
    if eqb_ℤ c.lot_size (pos 0) then rest else c.lot_size

abbrev instrument_keys : List Contract → List String → List String
instrument_keys [] tokens = tokens
instrument_keys (c ∷ contracts) tokens =
    let rest = instrument_keys contracts tokens in
    if truthy c.instrument_key then add c.instrument_key rest else rest

module _ {F : Type 0} ⦃fl : Float F⦄ where
  abbrev built_with : BuildConfig → String → ℤ → List Contract → String → List String → BuildEnd F
  built_with cfg spot_token atm contracts expiry desired =
      let w =
        filter_atm_window_strikes contracts expiry atm cfg.strike_step
          cfg.pre_open_subscribe_window in
      let chain = build_option_chain_template w.1 w.0 in
      let basket = build_trading_basket chain atm cfg.strike_step cfg.trading_basket_range in
      built (record {
        atm = atm;
        expiry = expiry;
        lot_size = first_lot_size cfg.lot_size w.1;
        strikes = w.0;
        chain = chain;
        ce_basket = basket.0;
        pe_basket = basket.1;
        desired = add spot_token (instrument_keys w.1 desired);
      })

  abbrev with_expiry :
      BuildConfig → String → ℤ → List Contract → Option String → List String → BuildEnd F
  with_expiry cfg spot_token atm contracts none desired = disabled "no_future_expiry"
  with_expiry cfg spot_token atm contracts (some expiry) desired =
      built_with cfg spot_token atm contracts expiry desired

  abbrev with_contracts :
      BuildConfig → String → String → Option ℤ → Option (List Contract) → List String → BuildEnd F
  with_contracts cfg spot_token today none contracts desired = raised
  with_contracts cfg spot_token today (some atm) none desired = disabled "contracts_failed"
  with_contracts cfg spot_token today (some atm) (some contracts) desired =
      with_expiry cfg spot_token atm contracts (discover_nearest_expiry contracts today) desired

  -- The spot and the contracts of the broker, none where it fails; `desired` is the set so far.
  unfoldable pub build_for_index :
      BuildConfig → String → String → Option F → Option (List Contract) → List String → BuildEnd F
  unfolding discover_nearest_expiry filter_atm_window_strikes build_option_chain_template
      build_trading_basket builder_atm
  build_for_index cfg spot_token today none contracts desired = disabled "spot_ltp_failed"
  build_for_index cfg spot_token today (some spot) contracts desired =
      with_contracts cfg spot_token today (builder_atm spot cfg.strike_step) contracts desired
