-- ===== src/Health/Summary.antt =====
-- The probe of the market feed reads fields that nothing writes, and what follows for the summary.
use pcr_momentum.Base.{
  ℕ, ◌+◌, ◌≡◌, refl, ap, ◌∙◌, String, str_eq, Bool, true, false, ◌||◌, Option, none, some, List, [],
  ◌∷◌, ◌++◌, length, Bool-cases, inl, inr, length-append, if◌then◌else◌,
}
use pcr_momentum.Base.Int.{ℤ}
use pcr_momentum.Base.Dict.{Dict, get, put, get-put}
use pcr_momentum.Float.{Float}
use pcr_momentum.Json.{Try, raised, value}
use pcr_momentum.Feed.Shape.{Returns, >>=-Returns}
use pcr_momentum.Health.{
  Status, green, yellow, red, ProbeResult, Texts, WsUpdate, put_int, update_ws_status,
  probe_broker_ws, has_status, aggregate_status, results, HealthStore, Cycle, run_probes,
  publish_results, probe_engines, after_probes, is_status, was_red, health_cycle, health_loop,
}

-- market_data:ws_status:market_ws after some calls of update_ws_status, from the empty hash on.
unfoldable pub written : Texts → List WsUpdate → Dict String
written tx [] = []
written tx (u ∷ us) = update_ws_status tx u (written tx us)

get-put_int :
    (tx : Texts) (k : String) (n : Option ℤ) (d : Dict String)
    → str_eq k "ts_ms" ≡ false
    → get "ts_ms" (put_int tx k n d) ≡ get "ts_ms" d
get-put_int tx k none d h = refl
get-put_int tx k (some n) d h = get-put k "ts_ms" (tx.print_int n) d ∙ rw h refl

get-written : (tx : Texts) (us : List WsUpdate) → get "ts_ms" (written tx us) ≡ none
unfolding written update_ws_status get
get-written tx [] = refl
get-written tx (u ∷ us) =
    let d = put "connected" (if u.connected then "true" else "false") (written tx us) in
    get-put_int tx "reconnect_count" u.reconnect_count
      (put_int tx "last_frame_ts" u.last_frame_ts d) refl
    ∙ get-put_int tx "last_frame_ts" u.last_frame_ts d refl
    ∙ get-put "connected" "ts_ms" (if u.connected then "true" else "false") (written tx us)
    ∙ get-written tx us

module _ {F : Type 0} ⦃fl : Float F⦄ where
  abbrev pub IsRed : ProbeResult F → Type 0
  IsRed r = r.0 ≡ red

or_third : (a b c d : Bool) → (a || (b || (c || (true || d)))) ≡ true
or_third true b c d = refl
or_third false true c d = refl
or_third false false true d = refl
or_third false false false d = refl

module _ (F : Type 0) ⦃fl : Float F⦄ where
  probe-IsRed :
      (tx : Texts) (now : ℤ) (d : Dict String)
      → get "ts_ms" d ≡ none
      → Returns (IsRed {F = F}) (probe_broker_ws tx now d)
  unfolding probe_broker_ws
  probe-IsRed tx now [] h = refl
  probe-IsRed tx now (e ∷ d) h = rw h refl

  worst-red :
      (parts : List (ProbeResult F)) → has_status red parts ≡ true → aggregate_status parts ≡ red
  unfolding aggregate_status
  worst-red parts h = rw h refl

  aggregate-red :
      (a b c r : ProbeResult F) (rest : List (ProbeResult F))
      → r.0 ≡ red
      → aggregate_status (a ∷ b ∷ c ∷ r ∷ rest) ≡ red
  aggregate-red a b c (red, _) rest h =
      worst-red (a ∷ b ∷ c ∷ (red, _) ∷ rest)
        (or_third (is_status red a.0) (is_status red b.0) (is_status red c.0) (has_status red rest))
  aggregate-red a b c (green, _) rest h = cc
  aggregate-red a b c (yellow, _) rest h = cc

  abbrev IsRedRun : Dict (ProbeResult F) → Type 0
  IsRedRun deps = (more : List (ProbeResult F)) → aggregate_status (results deps ++ more) ≡ red

  run-IsRedRun :
      (tx : Texts) (c : Cycle F)
      → get "ts_ms" c.ws_status ≡ none
      → Returns IsRedRun (run_probes tx c)
  unfolding run_probes
  run-IsRedRun tx c h =
      >>=-Returns IsRed IsRedRun (probe_broker_ws tx c.now c.ws_status) _
        (probe-IsRed tx c.now c.ws_status h) λ r e more. aggregate-red _ _ _ r _ e

  -- How the store stands after a cycle that was red before, or was the first.
  abbrev After : ℕ → Option Status × HealthStore F → Type 0
  After n (prev, s) = (prev ≡ some red) × (s.summary ≡ some red) × (length s.alerts ≡ n)

  publish-After :
      (deps engines : Dict (ProbeResult F)) (prev : Option Status) (s : HealthStore F)
      → IsRedRun deps
      → let r = publish_results deps engines prev s in
        After (if was_red prev then length s.alerts else length s.alerts + 1) (some r.0, r.1)
  unfolding publish_results
  publish-After deps engines prev s h = elim (Bool-cases (was_red prev)) [
    | inl e ↦ rw (h (results engines), e) (refl, refl, refl)
    | inr e ↦ rw (h (results engines), e) (refl, refl, length-append s.alerts _)
  ]

  probed-After :
      (tx : Texts) (c : Cycle F) (o : Try (Dict (ProbeResult F))) (prev : Option Status)
      (s : HealthStore F)
      → Returns IsRedRun o
      → After
          (if was_red prev then length s.alerts else length s.alerts + 1)
          (after_probes tx c o (prev, s))
  probed-After tx c raised prev s h = absurd h
  probed-After tx c (value deps) prev s h =
      publish-After deps (probe_engines tx c.now c.heartbeats) prev s h

  unwritten :
      (tx : Texts) (c : Cycle F)
      → (us : List WsUpdate) × (c.ws_status ≡ written tx us)
      → get "ts_ms" c.ws_status ≡ none
  unwritten tx c (us, e) = ap (get "ts_ms") e ∙ get-written tx us

  cycle-After :
      (tx : Texts) (c : Cycle F) (prev : Option Status) (s : HealthStore F)
      → get "ts_ms" c.ws_status ≡ none
      → After
          (if was_red prev then length s.alerts else length s.alerts + 1)
          (health_cycle tx c (prev, s))
  unfolding health_cycle
  cycle-After tx c prev s h = probed-After tx c (run_probes tx c) prev s (run-IsRedRun tx c h)

  -- The hash of the market feed holds what update_ws_status wrote.
  abbrev pub AreWritten : Texts → List (Cycle F) → Type 0
  AreWritten tx [] = Unit
  AreWritten tx (c ∷ cycles) =
      ((us : List WsUpdate) × (c.ws_status ≡ written tx us)) × AreWritten tx cycles

  loop-After :
      (tx : Texts) (cycles : List (Cycle F)) (n : ℕ) (prev : Option Status) (s : HealthStore F)
      → AreWritten tx cycles
      → After n (prev, s)
      → After n (health_loop tx cycles (prev, s))
  unfolding health_loop
  loop-After tx [] n prev s w h = h
  loop-After tx (c ∷ cycles) n prev s w h =
      let r = health_cycle tx c (prev, s) in
      let one = cycle-After tx c prev s (unwritten tx c w.0) in
      loop-After tx cycles n r.0 r.1 w.1 (one.0, one.1, one.2 ∙ (rw h.0 h.2))

module _ {F : Type 0} ⦃fl : Float F⦄ where
  -- While the hash of the market feed, empty at the start, holds only what the data pipeline writes to
  -- it, the summary is red after every cycle, whatever the feed and the other probes show; and from the
  -- first cycle on there is one alert, and never another.
  pub health_loop-red :
      (tx : Texts) (c : Cycle F) (cycles : List (Cycle F)) (s : HealthStore F)
      → AreWritten F tx (c ∷ cycles)
      → let r = health_loop tx (c ∷ cycles) (none, s) in
        (r.1.summary ≡ some red) × (length r.1.alerts ≡ length s.alerts + 1)
  unfolding health_loop
  health_loop-red tx c cycles s w =
      let r = health_cycle tx c (none, s) in
      let a =
        loop-After F tx cycles (length s.alerts + 1) r.0 r.1 w.1
          (cycle-After F tx c none s (unwritten F tx c w.0)) in
      (a.1, a.2)
