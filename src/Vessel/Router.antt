-- ===== src/Vessel/Router.antt =====
-- backend/engines/strategy/ingestion.py: TickRouter, which wakes the vessels that listen to a token. A
-- vessel's event is a number; a channel is known by its token, behind the common prefix. The set of
-- channels is a list; Redis does not fail on a subscription.
pub mod Channels
use pcr_momentum.Base.{
  ℕ, ◌==◌, String, Bool, true, false, Option, none, some, List, [], ◌∷◌, ◌++◌, any, map,
  if◌then◌else◌,
}
use pcr_momentum.Base.Dict.{Dict, get, put, remove}
use pcr_momentum.Feed.Boot.{minus}
use pcr_momentum.Feed.Processor.{or_nil}

pub record TickRouter : Type 0 where
  pub routes : Dict (List ℕ)
  pub subscribed : List String
  -- Whether there is a connection: `_pubsub is not None`.
  pub connected : Bool
  -- The events that are set.
  pub dirty : List ℕ

abbrev pub listeners : String → TickRouter → List ℕ
listeners token r = or_nil (get token r.routes)

abbrev pub is_in : ℕ → List ℕ → Bool
is_in v vs = any (λ w. v == w) vs

abbrev pub remove_first : ℕ → List ℕ → List ℕ
remove_first v [] = []
remove_first v (w ∷ vs) = let rest = remove_first v vs in if v == w then vs else w ∷ rest

abbrev pub append_new : ℕ → List ℕ → List ℕ
append_new v vs = if is_in v vs then vs else vs ++ v ∷ []

-- The `defaultdict` makes a list for a token that it does not know.
unfoldable pub register : String → ℕ → TickRouter → TickRouter
register token v r = record r { routes = put token (append_new v (listeners token r)) r.routes }

abbrev pub put_or_delete : String → List ℕ → Dict (List ℕ) → Dict (List ℕ)
put_or_delete token [] routes = remove token routes
put_or_delete token (v ∷ vs) routes = put token (v ∷ vs) routes

unfoldable pub unregister : String → ℕ → TickRouter → TickRouter
unregister token v r = record r {
  routes = put_or_delete token (remove_first v (listeners token r)) r.routes;
}

abbrev pub desired_channels : TickRouter → List String
desired_channels r = map (λ e. e.0) r.routes

-- `_reconcile_subscriptions`
unfoldable pub reconcile : TickRouter → TickRouter
reconcile r =
    let desired = desired_channels r in
    let to_add = minus desired r.subscribed in
    let to_drop = minus r.subscribed desired in
    if r.connected then record r { subscribed = minus r.subscribed to_drop ++ to_add } else r

abbrev pub set_all : List ℕ → List ℕ → List ℕ
set_all [] dirty = dirty
set_all (v ∷ vs) dirty = set_all vs (if is_in v dirty then dirty else v ∷ dirty)

-- What get_message brings: a message on the channel of a token, one on another channel or none, a
-- timeout, or an error.
pub data Message : Type 0 where
  tick : String → Message
  nothing : Message
  timeout : Message
  failed : Message

abbrev pub take_message : Message → TickRouter → TickRouter
take_message (tick token) r = record r { dirty = set_all (listeners token r) r.dirty }
take_message nothing r = r
take_message timeout r = reconcile r
take_message failed r = r

abbrev is_nil : List String → Bool
is_nil [] = true
is_nil (x ∷ xs) = false

-- One turn of the loop; without a channel it only reconciles.
unfoldable pub loop_turn : Message → TickRouter → TickRouter
unfolding reconcile
loop_turn m r = if is_nil r.subscribed then reconcile r else take_message m r

-- What happens to the router: a vessel registers or unregisters for a token, or reconciles after a
-- shift of its basket; a turn of the loop, or its start.
pub data Happening : Type 0 where
  registers : String → ℕ → Happening
  unregisters : String → ℕ → Happening
  turns : Message → Happening
  reconciles : Happening
  starts : Happening

abbrev pub after : Happening → TickRouter → TickRouter
after (registers token v) r = register token v r
after (unregisters token v) r = unregister token v r
after (turns m) r = loop_turn m r
after reconciles r = reconcile r
after starts r = reconcile (record r { connected = true })

unfoldable pub run_router : List Happening → TickRouter → TickRouter
unfolding register unregister reconcile loop_turn
run_router [] r = r
run_router (h ∷ hs) r = run_router hs (after h r)
