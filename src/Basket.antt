-- ===== src/Basket.antt =====
-- backend/engines/strategy/strategies/bid_ask_imbalance/basket.py: which strikes a vessel watches, and
-- when the set moves with the spot price.
pub mod Shift
use pcr_momentum.Base.{
  ℕ, zero, suc, ◌+◌, ◌*◌, String, str_eq, Bool, true, false, not, ◌&&◌, ◌||◌, Option, none, some,
  List, [], ◌∷◌, ◌++◌, map, any, truthy, if◌then◌else◌,
}
use pcr_momentum.Base.Int.{ℤ, pos, negsuc, ◌+ℤ◌, ◌-ℤ◌, ◌*ℤ◌, ltb_ℤ, leb_ℤ, eqb_ℤ}
use pcr_momentum.Float.{Float, ◌/f◌}
use pcr_momentum.Snapshot.{Side, ce, pe}

-- `dict[int, str]`, from strikes to tokens.
abbrev pub Tokens : Type 0
Tokens = List (ℤ × String)

pub record Basket : Type 0 where
  pub atm : ℤ
  pub ce_strikes : List ℤ
  pub pe_strikes : List ℤ
  pub ce_tokens : Tokens
  pub pe_tokens : Tokens
  pub last_shift_ts : ℤ

pub record BasketTransition : Type 0 where
  pub new_basket : Basket
  pub added_tokens : List String
  pub dropped_tokens : List String
  -- "initial_build", or the shift between two strikes.
  pub reason : Option (ℤ × ℤ)

abbrev pub get_token : ℤ → Tokens → Option String
get_token k [] = none
get_token k ((s, t) ∷ ts) = if eqb_ℤ s k then some t else get_token k ts

abbrev pub set_token : ℤ → String → Tokens → Tokens
set_token k v [] = (k, v) ∷ []
set_token k v ((s, t) ∷ ts) = if eqb_ℤ s k then (k, v) ∷ ts else (s, t) ∷ set_token k v ts

unfoldable pub all_tokens : Basket → List String
all_tokens b = map (λ e. e.1) b.ce_tokens ++ map (λ e. e.1) b.pe_tokens

abbrev pair_of : ℤ → Option String → List (ℤ × String)
pair_of s none = []
pair_of s (some t) = (s, t) ∷ []

unfoldable pub pairs : List ℤ → Tokens → List (ℤ × String)
pairs [] tokens = []
pairs (s ∷ ss) tokens = pair_of s (get_token s tokens) ++ pairs ss tokens

unfoldable pub ce_pairs : Basket → List (ℤ × String)
unfolding pairs
ce_pairs b = pairs b.ce_strikes b.ce_tokens

unfoldable pub pe_pairs : Basket → List (ℤ × String)
unfolding pairs
pe_pairs b = pairs b.pe_strikes b.pe_tokens

-- Python's `sorted` on integers.
unfoldable pub insert_sorted : ℤ → List ℤ → List ℤ
insert_sorted n [] = n ∷ []
insert_sorted n (m ∷ ms) = if leb_ℤ n m then n ∷ m ∷ ms else m ∷ insert_sorted n ms

unfoldable pub sorted : List ℤ → List ℤ
unfolding insert_sorted
sorted [] = []
sorted (n ∷ ns) = insert_sorted n (sorted ns)

-- `atm + i * step` for `count` successive i, from `i` on.
unfoldable pub strikes_from : ℤ → ℤ → ℤ → ℕ → List ℤ
strikes_from atm step i zero = []
strikes_from atm step i (suc count) = (atm +ℤ i *ℤ step) ∷ strikes_from atm step (i +ℤ pos 1) count

-- The range -basket_size .. basket_size has 2 * basket_size + 1 members.
unfoldable pub compute_strike_set : ℤ → ℤ → ℕ → List ℤ × List ℤ
unfolding strikes_from sorted
compute_strike_set atm strike_step basket_size =
    let strikes = strikes_from atm strike_step (pos 0 -ℤ pos basket_size) (2 * basket_size + 1) in
    (sorted strikes, sorted strikes)

module _ {F : Type 0} ⦃fl : Float F⦄ where
  unfoldable pub compute_atm : F → ℤ → ℤ
  compute_atm spot strike_step = fl.round_int (spot /f fl.of_int strike_step) *ℤ strike_step

-- The token of a strike is entered if the lookup has one that is not empty.
abbrev enter_token : ℤ → Option String → Tokens → Tokens
enter_token s none tokens = tokens
enter_token s (some t) tokens = if truthy t then set_token s t tokens else tokens

unfoldable pub look_up_tokens : (ℤ → Side → Option String) → Side → List ℤ → Tokens → Tokens
look_up_tokens lookup side [] tokens = tokens
look_up_tokens lookup side (s ∷ ss) tokens =
    look_up_tokens lookup side ss (enter_token s (lookup s side) tokens)

abbrev pub mem : String → List String → Bool
mem t ts = any (λ s. str_eq s t) ts

-- The set difference. The runner goes through it in any order, so it is not sorted here.
unfoldable pub without : List String → List String → List String
without [] other = []
without (t ∷ ts) other =
    let rest = without ts other in
    if mem t other then rest else if mem t rest then rest else t ∷ rest

abbrev pub is_populated : Tokens → Bool
is_populated [] = false
is_populated (_ ∷ _) = true

abbrev shift_reason : Basket → ℤ → Option (ℤ × ℤ)
shift_reason current new_atm =
    if is_populated current.ce_tokens then some (current.atm, new_atm) else none

-- The basket around a new ATM, and what it changes.
unfoldable pub transition_to :
    Basket → ℤ → ℤ → ℕ → ℤ → (ℤ → Side → Option String) → BasketTransition
unfolding compute_strike_set look_up_tokens all_tokens without
transition_to current new_atm strike_step basket_size now_ms lookup =
    let (ces, pes) = compute_strike_set new_atm strike_step basket_size in
    let new_basket : Basket = record {
      atm = new_atm;
      ce_strikes = ces;
      pe_strikes = pes;
      ce_tokens = look_up_tokens lookup ce ces [];
      pe_tokens = look_up_tokens lookup pe pes [];
      last_shift_ts = now_ms;
    } in
    record {
      new_basket = new_basket;
      added_tokens = without (all_tokens new_basket) (all_tokens current);
      dropped_tokens = without (all_tokens current) (all_tokens new_basket);
      reason = shift_reason current new_atm;
    }

-- A shift at the last timestamp is too recent; timestamp 0 means that there was none.
abbrev pub is_recent : ℤ → ℤ → ℤ → Bool
is_recent last_shift_ts now_ms hysteresis_sec =
    not (eqb_ℤ last_shift_ts (pos 0))
    && ltb_ℤ (now_ms -ℤ last_shift_ts) (hysteresis_sec *ℤ pos 1000)

module _ {F : Type 0} ⦃fl : Float F⦄ where
  unfoldable pub maybe_shift_basket :
      Basket → Option F → ℤ → ℕ → ℤ → ℤ → (ℤ → Side → Option String) → Option BasketTransition
  unfolding compute_atm
  maybe_shift_basket current none step size now_ms hysteresis_sec lookup = none
  maybe_shift_basket current (some spot) step size now_ms hysteresis_sec lookup =
      let new_atm = compute_atm spot step in
      if eqb_ℤ new_atm current.atm && is_populated current.ce_tokens
      then none
      else if is_recent current.last_shift_ts now_ms hysteresis_sec
      then none
      else some (transition_to current new_atm step size now_ms lookup)
