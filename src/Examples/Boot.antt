-- ===== src/Examples/Boot.antt =====
-- The token table of the data pipeline and the template of the option chain, on concrete data.
use pcr_momentum.Base.{◌≡◌, refl, String, true, none, some, List, [], ◌∷◌}
use pcr_momentum.Base.Dict.{Dict, get}
use pcr_momentum.Base.Int.{ℤ, pos}
use pcr_momentum.Float.Fixed.{fixed}
use pcr_momentum.Snapshot.{ce, pe}
use pcr_momentum.Json.{text, end, field}
use pcr_momentum.Feed.Chain.{FeedChain}
use pcr_momentum.Feed.Chain.Leaves.{has_strike}
use pcr_momentum.Feed.Processor.{leg}
use pcr_momentum.Feed.Boot.{build_token_index}
use pcr_momentum.Feed.Boot.Tokens.{IsRight, build_token_index-IsRight}
use pcr_momentum.Init.{Contract, mem_ℤ, build_option_chain_template}
use pcr_momentum.Init.Template.{leaf_at, leaf_or, last_contract, build_option_chain_template-last}

-- Two strikes; the second has no put.
abbrev chain : FeedChain ℤ
chain =
    record {
      strike = pos 24000;
      ce_leaf = some (field "token" (text "C1") end);
      pe_leaf = some (field "token" (text "P1") end);
    }
    ∷ record { strike = pos 24050; ce_leaf = some (field "token" (text "C2") end); pe_leaf = none }
    ∷ []

abbrev indexes : List String
indexes = "nifty50" ∷ "banknifty" ∷ []

abbrev chains : Dict (FeedChain ℤ)
chains = ("nifty50", chain) ∷ []

abbrev spot_tokens : Dict String
spot_tokens = ("nifty50", "S1") ∷ ("banknifty", "S2") ∷ []

is_there :
    get "P1" (build_token_index indexes spot_tokens chains []) ≡ some (leg "nifty50" (pos 24000) pe)
unfolding build_token_index get pcr_momentum.Base.Dict.put pcr_momentum.Json.find
is_there = refl

build_token_index-IsRight_example : IsRight chains indexes "P1" (leg "nifty50" (pos 24000) pe)
build_token_index-IsRight_example =
    build_token_index-IsRight indexes spot_tokens chains "P1" (leg "nifty50" (pos 24000) pe)
      is_there

-- The second contract replaces the first, and the last is on no side.
abbrev contracts : List Contract
contracts =
    record {
      expiry = "2026-05-07";
      strike_price = pos 24000;
      side = some ce;
      instrument_key = "C1";
      lot_size = pos 75;
    }
    ∷ record {
      expiry = "2026-05-07";
      strike_price = pos 24000;
      side = some ce;
      instrument_key = "C9";
      lot_size = pos 75;
    }
    ∷ record {
      expiry = "2026-05-07";
      strike_price = pos 24050;
      side = none;
      instrument_key = "X1";
      lot_size = pos 75;
    }
    ∷ []

abbrev strikes : List ℤ
strikes = pos 24000 ∷ pos 24050 ∷ []

build_option_chain_template-last_example :
    (has_strike (pos 24100) (build_option_chain_template {F = ℤ} contracts strikes)
      ≡ mem_ℤ (pos 24100) strikes)
    × (leaf_at {F = ℤ} (pos 24000) ce (build_option_chain_template contracts strikes)
        ≡ leaf_or none (last_contract (pos 24000) ce contracts))
build_option_chain_template-last_example =
    build_option_chain_template-last contracts strikes (pos 24100) (pos 24000) ce refl
