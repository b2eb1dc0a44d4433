-- ===== src/Vessel/Router/Channels.antt =====
-- The router is subscribed to the channels of exactly those tokens that a vessel listens to.
use pcr_momentum.Base.{
  ℕ, ◌≡◌, refl, ap, sym, ◌∙◌, String, str_eq, eq_iff, Bool, true, false, not, ◌&&◌, ◌||◌, Option,
  none, some, List, [], ◌∷◌, ◌++◌, map, if◌then◌else◌, arith,
}
use pcr_momentum.Base.Dict.{Dict, get, get-put, get-remove}
use pcr_momentum.Feed.Boot.{minus}
use pcr_momentum.Feed.Processor.{mem, or_nil}
use pcr_momentum.Vessel.Router.{
  TickRouter, listeners, append_new, remove_first, put_or_delete, desired_channels, register,
  unregister, reconcile, loop_turn, Message, tick, nothing, timeout, failed, Happening, registers,
  unregisters, turns, reconciles, starts, after, run_router,
}

mem-append : (t : String) (xs ys : List String) → mem t (xs ++ ys) ≡ (mem t xs || mem t ys)
mem-append t [] ys = refl
mem-append t (x ∷ xs) ys = ground (arith, mem-append t xs ys)

-- x in front of the rest of a difference, unless x is in the other set.
kept :
    (e mx mt m : Bool)
    → (e ≡ true → mx ≡ mt)
    → (if mx then m && not mt else (e || (m && not mt))) ≡ ((e || m) && not mt)
kept e mx mt m h = ground arith

mem-if :
    (t x : String) (b : Bool) (rest : List String)
    → mem t (if b then rest else x ∷ rest) ≡ (if b then mem t rest else (str_eq t x || mem t rest))
mem-if t x true rest = refl
mem-if t x false rest = refl

mem-minus : (t : String) (xs ys : List String) → mem t (minus xs ys) ≡ (mem t xs && not (mem t ys))
mem-minus t [] ys = refl
mem-minus t (x ∷ xs) ys =
    mem-if t x (mem x ys) (minus xs ys)
    ∙ ap (λ b. if mem x ys then b else (str_eq t x || b)) (mem-minus t xs ys)
    ∙ kept (str_eq t x) (mem x ys) (mem t ys) (mem t xs)
        (λ e. ap (λ y. mem y ys) (sym ((eq_iff t x).0 e)))

abbrev pub is_live : Option (List ℕ) → Bool
is_live none = true
is_live (some []) = false
is_live (some (v ∷ vs)) = true

abbrev pub is_some : Option (List ℕ) → Bool
is_some none = false
is_some (some vs) = true

abbrev pub has_any : List ℕ → Bool
has_any [] = false
has_any (v ∷ vs) = true

mem-channels : (t : String) (d : Dict (List ℕ)) → mem t (map (λ e. e.0) d) ≡ is_some (get t d)
unfolding get
mem-channels t [] = refl
mem-channels t ((k, vs) ∷ d) = ground (arith, mem-channels t d, eq_iff t k, eq_iff k t)

live-has_any : (o : Option (List ℕ)) → is_live o ≡ true → is_some o ≡ has_any (or_nil o)
live-has_any none h = refl
live-has_any (some []) h = sym h
live-has_any (some (v ∷ vs)) h = refl

-- No token has an empty list of listeners.
IsClean : TickRouter → Type 0
IsClean r = (t : String) → is_live (get t r.routes) ≡ true

live-append_new : (v : ℕ) (vs : List ℕ) → is_live (some (append_new v vs)) ≡ true
live-append_new v [] = refl
live-append_new v (w ∷ vs) = ground arith

live-if :
    (b : Bool) (x y : Option (List ℕ))
    → is_live x ≡ true
    → is_live y ≡ true
    → is_live (if b then x else y) ≡ true
live-if true x y h k = h
live-if false x y h k = k

register-IsClean :
    (token : String) (v : ℕ) (r : TickRouter) → IsClean r → IsClean (register token v r)
unfolding IsClean register
register-IsClean token v r h t =
    ap is_live (get-put token t (append_new v (listeners token r)) r.routes)
    ∙ live-if (str_eq token t) (some (append_new v (listeners token r))) (get t r.routes)
        (live-append_new v (listeners token r)) (h t)

put_or_delete-live :
    (token t : String) (vs : List ℕ) (d : Dict (List ℕ))
    → is_live (get t d) ≡ true
    → is_live (get t (put_or_delete token vs d)) ≡ true
put_or_delete-live token t [] d h =
    ap is_live (get-remove token t d) ∙ live-if (str_eq token t) none (get t d) refl h
put_or_delete-live token t (v ∷ vs) d h =
    ap is_live (get-put token t (v ∷ vs) d)
    ∙ live-if (str_eq token t) (some (v ∷ vs)) (get t d) refl h

unregister-IsClean :
    (token : String) (v : ℕ) (r : TickRouter) → IsClean r → IsClean (unregister token v r)
unfolding IsClean unregister
unregister-IsClean token v r h t =
    put_or_delete-live token t (remove_first v (listeners token r)) r.routes (h t)

reconcile-routes : (r : TickRouter) → (reconcile r).routes ≡ r.routes
unfolding reconcile
reconcile-routes r = ground arith

loop_turn-routes : (m : Message) (r : TickRouter) → (loop_turn m r).routes ≡ r.routes
unfolding loop_turn
loop_turn-routes (tick token) r = ground (arith, reconcile-routes r)
loop_turn-routes nothing r = ground (arith, reconcile-routes r)
loop_turn-routes timeout r = ground (arith, reconcile-routes r)
loop_turn-routes failed r = ground (arith, reconcile-routes r)

same_routes-IsClean : (r s : TickRouter) → s.routes ≡ r.routes → IsClean r → IsClean s
unfolding IsClean
same_routes-IsClean r s e h t = ap (λ d. is_live (get t d)) e ∙ h t

after-IsClean : (h : Happening) (r : TickRouter) → IsClean r → IsClean (after h r)
after-IsClean (registers token v) r c = register-IsClean token v r c
after-IsClean (unregisters token v) r c = unregister-IsClean token v r c
after-IsClean (turns m) r c = same_routes-IsClean r (loop_turn m r) (loop_turn-routes m r) c
after-IsClean reconciles r c = same_routes-IsClean r (reconcile r) (reconcile-routes r) c
after-IsClean starts r c =
    same_routes-IsClean r (reconcile (record r { connected = true }))
      (reconcile-routes (record r { connected = true })) c

run_router-IsClean : (hs : List Happening) (r : TickRouter) → IsClean r → IsClean (run_router hs r)
unfolding run_router
run_router-IsClean [] r c = c
run_router-IsClean (h ∷ hs) r c = run_router-IsClean hs (after h r) (after-IsClean h r c)

merged : (s d : Bool) → ((s && not (s && not d)) || (d && not s)) ≡ d
merged true true = refl
merged true false = refl
merged false true = refl
merged false false = refl

mem-reconcile :
    (t : String) (r : TickRouter)
    → r.connected ≡ true
    → mem t (reconcile r).subscribed ≡ mem t (desired_channels r)
unfolding reconcile
mem-reconcile t r h = rw h (
    mem-append t (minus r.subscribed (minus r.subscribed (desired_channels r)))
      (minus (desired_channels r) r.subscribed)
    ∙ rw
        (
          mem-minus t r.subscribed (minus r.subscribed (desired_channels r)),
          mem-minus t r.subscribed (desired_channels r),
          mem-minus t (desired_channels r) r.subscribed,
        )
        (merged (mem t r.subscribed) (mem t (desired_channels r))))

abbrev pub no_router : TickRouter
no_router = record { routes = []; subscribed = []; connected = false; dirty = [] }

empty-IsClean : IsClean no_router
unfolding IsClean get
empty-IsClean t = refl

-- However the vessels have registered and unregistered while the loop ran: when a connected router
-- reconciles, it is subscribed to the channel of a token exactly when some vessel listens to the token.
pub reconcile-listeners :
    (hs : List Happening) (t : String)
    → (run_router hs no_router).connected ≡ true
    → mem t (reconcile (run_router hs no_router)).subscribed
      ≡ has_any (listeners t (run_router hs no_router))
unfolding IsClean
reconcile-listeners hs t h =
    let r = run_router hs no_router in
    mem-reconcile t r h
    ∙ mem-channels t r.routes
    ∙ live-has_any (get t r.routes) (run_router-IsClean hs no_router empty-IsClean t)
