-- ===== src/Feed/Boot.antt =====
-- backend/engines/data_pipeline/main.py, _load_state, subscription_manager.py and the gate of
-- pre_market_subscriber.py: which token stands for what, and which tokens are watched. Sets are lists; a
-- chain has whole strikes with their two sides, as Init writes it; a token that is no text counts as
-- missing.
pub mod Tokens
use pcr_momentum.Base.{
  ℕ, String, str_eq, Bool, true, false, not, ◌&&◌, ◌||◌, Option, none, some, List, [], ◌∷◌, ◌++◌,
  any, truthy, ltb, if◌then◌else◌,
}
use pcr_momentum.Base.Int.{ℤ, pos, eqb_ℤ, leb_ℤ, ◌*ℤ◌}
use pcr_momentum.Base.Dict.{Dict, get, put}
use pcr_momentum.Float.{Float, ◌/f◌}
use pcr_momentum.Snapshot.{Side, ce, pe}
use pcr_momentum.Json.{Json, text, Fields, find, or_null, is_nought}
use pcr_momentum.Feed.Chain.{Strike, FeedChain}
use pcr_momentum.Feed.Processor.{Slot, spot, leg, mem, add, or_nil}

abbrev pub text_token : {F : Type 0} → Json F → String
text_token (text s) = s
text_token _ = ""

-- `leaf.get("token")` of a leaf that is there.
abbrev pub leaf_token : {F : Type 0} → Option (Fields F) → String
leaf_token none = ""
leaf_token (some leaf) = text_token (or_null (find "token" leaf))

abbrev pub side_token : {F : Type 0} → Side → Strike F → String
side_token ce s = leaf_token s.ce_leaf
side_token pe s = leaf_token s.pe_leaf

abbrev pub text_or_empty : Option String → String
text_or_empty none = ""
text_or_empty (some s) = s

-- `add`, unless the token is missing.
abbrev pub want : String → List String → List String
want token desired = if truthy token then add token desired else desired

abbrev pub put_token : String → Slot → Dict Slot → Dict Slot
put_token token slot table = if truthy token then put token slot table else table

module _ {F : Type 0} where
  unfoldable pub put_chain : String → FeedChain F → Dict Slot → Dict Slot
  put_chain index [] table = table
  put_chain index (s ∷ chain) table = put_chain index chain (
      put_token (side_token pe s) (leg index s.strike pe)
        (put_token (side_token ce s) (leg index s.strike ce) table))

  -- The token table over the indexes, from their spot tokens ("" where the meta has none) and chains.
  unfoldable pub build_token_index :
      List String → Dict String → Dict (FeedChain F) → Dict Slot → Dict Slot
  unfolding put_chain
  build_token_index [] spot_tokens chains table = table
  build_token_index (index ∷ indexes) spot_tokens chains table =
      build_token_index indexes spot_tokens chains (
        put_chain index (or_nil (get index chains))
          (put_token (text_or_empty (get index spot_tokens)) (spot index) table))

  unfoldable pub chain_tokens : FeedChain F → List String → List String
  chain_tokens [] desired = desired
  chain_tokens (s ∷ chain) desired =
      chain_tokens chain (want (side_token pe s) (want (side_token ce s) desired))

-- Of the config of an index the desired set reads the spot token ("" for none).
module _ {F : Type 0} ⦃fl : Float F⦄ where
  -- An index without a spot value, or without a config, adds no token of its chain.
  abbrev index_tokens : F → Option String → FeedChain F → List String → List String
  index_tokens spot_value none chain desired = desired
  index_tokens spot_value (some spot_token) chain desired =
      let with_spot = want spot_token desired in
      if is_nought spot_value then with_spot else chain_tokens chain with_spot

  unfoldable pub compute_desired_set :
      Dict F → Dict String → Dict (FeedChain F) → List String → List String
  unfolding chain_tokens
  compute_desired_set [] cfgs chains desired = desired
  compute_desired_set ((index, spot_value) ∷ spots) cfgs chains desired =
      compute_desired_set spots cfgs chains
        (index_tokens spot_value (get index cfgs) (or_nil (get index chains)) desired)

  -- `int(round(spot / strike_step) * strike_step)`
  unfoldable pub feed_atm : F → ℤ → ℤ
  feed_atm spot_value strike_step =
      if leb_ℤ strike_step (pos 0)
      then pos 0
      else fl.round_int (spot_value /f fl.of_int strike_step) *ℤ strike_step

  -- One index in the loop of the subscription manager: the ATM that it remembers.
  unfoldable pub track_atm : String → F → ℤ → Dict ℤ → Dict ℤ
  unfolding feed_atm
  track_atm index ltp step last_atm =
      if is_nought ltp || eqb_ℤ step (pos 0)
      then last_atm
      else put index (feed_atm ltp step) last_atm

abbrev pub minus : List String → List String → List String
minus [] ys = []
minus (x ∷ xs) ys = let rest = minus xs ys in if mem x ys then rest else x ∷ rest

-- What to unsubscribe, and what to subscribe.
unfoldable pub diff_sets : List String → List String → List String × List String
diff_sets current desired = (minus current desired, minus desired current)

-- What one poll of the pre-market gate sees: a shutdown, or the tokens that have had a frame.
pub data Poll : Type 0 where
  shutdown : Poll
  framed : List String → Poll

-- How the gate ends: stopped by the shutdown, or open with the tokens that are still silent.
pub data GateEnd : Type 0 where
  stopped : GateEnd
  opened : List String → GateEnd

-- The polls within 30 s; `late` is what has had a frame when they are over.
unfoldable pub first_frames : List String → List Poll → List String → GateEnd
first_frames subscribed [] late = opened (minus subscribed late)
first_frames subscribed (shutdown ∷ polls) late = stopped
first_frames subscribed (framed seen ∷ polls) late =
    let rest = first_frames subscribed polls late in
    elim (minus subscribed seen) [ [] ↦ opened [] | _ ∷ _ ↦ rest ]
