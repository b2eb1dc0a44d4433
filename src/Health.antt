-- ===== src/Health.antt =====
-- backend/engines/health/probes.py and main.py: the probes, their summary and the alerts; with them
-- update_ws_status of backend/engines/data_pipeline/aggregator.py, which writes what one probe reads.
-- `str`, `int` and `str.lower` on texts are parameters; the texts of details are values.
pub mod Summary
use pcr_momentum.Base.{
  ℕ, String, str_eq, Bool, true, false, not, ◌&&◌, ◌||◌, Option, none, some, List, [], ◌∷◌, ◌++◌,
  any, map, if◌then◌else◌,
}
use pcr_momentum.Base.Int.{ℤ, pos, ◌-ℤ◌, eqb_ℤ}
use pcr_momentum.Base.Dict.{Dict, get, put}
use pcr_momentum.Float.{Float, ◌>f◌, ◌≥f◌, ◌/f◌}
use pcr_momentum.Json.{Try, raised, value, ◌>>=◌}

pub data Status : Type 0 where
  green yellow red : Status

pub data Detail (F : Type 0) : Type 0 where
  note : String → Detail F
  stale : F → Detail F
  fresh : F → Detail F
  ws_state : String → Detail F
  ws_fresh : String → F → Detail F
  load : F → ℤ → Detail F
  swap : F → Detail F

abbrev pub ProbeResult : Type 0 → Type 0
ProbeResult F = Status × Detail F

pub record Texts : Type 0 where
  pub print_int : ℤ → String
  pub parse_int : String → Option ℤ
  pub lower : String → String

-- One call of update_ws_status; its time and count may be missing.
pub record WsUpdate : Type 0 where
  pub connected : Bool
  pub last_frame_ts : Option ℤ
  pub reconnect_count : Option ℤ

abbrev put_int : Texts → String → Option ℤ → Dict String → Dict String
put_int tx k none d = d
put_int tx k (some n) d = put k (tx.print_int n) d

unfoldable pub update_ws_status : Texts → WsUpdate → Dict String → Dict String
update_ws_status tx u d = put_int tx "reconnect_count" u.reconnect_count (
    put_int tx "last_frame_ts" u.last_frame_ts
      (put "connected" (if u.connected then "true" else "false") d))

abbrev text_or_empty : Option String → String
text_or_empty none = ""
text_or_empty (some s) = s

abbrev is_down : String → Bool
is_down s = str_eq s "disconnected" || str_eq s "down" || str_eq s "error"

abbrev parsed : Option ℤ → Try ℤ
parsed none = raised
parsed (some n) = value n

-- `int(decoded.get("ts_ms") or 0)`
abbrev ts_of : Texts → Option String → Try ℤ
ts_of tx none = value (pos 0)
ts_of tx (some s) = if str_eq s "" then value (pos 0) else parsed (tx.parse_int s)

module _ {F : Type 0} ⦃fl : Float F⦄ where
  -- PING: none where it raises.
  unfoldable pub probe_redis : Option Bool → ProbeResult F
  probe_redis none = (red, note "ping_failed")
  probe_redis (some true) = (green, note "ok")
  probe_redis (some false) = (red, note "no_pong")

  -- No pool, or the row of SELECT 1, none where it raises.
  unfoldable pub probe_postgres : Option (Option ℤ) → ProbeResult F
  probe_postgres none = (red, note "no_pool")
  probe_postgres (some none) = (red, note "select_failed")
  probe_postgres (some (some row)) =
      if eqb_ℤ row (pos 1) then (green, note "ok") else (red, note "unexpected_row")

  -- The broker's answer: whether it is a success, and the error's text.
  unfoldable pub probe_broker_rest : Option (Bool × String) → ProbeResult F
  probe_broker_rest none = (red, note "raised")
  probe_broker_rest (some (true, _)) = (green, note "ok")
  probe_broker_rest (some (false, error)) =
      (yellow, note (if str_eq error "" then "rest_error" else error))

  abbrev age_sec : ℤ → ℤ → F
  age_sec now ts = fl.of_int (now -ℤ ts) /f fl.dec 1000 0

  -- From the time of the last frame on.
  abbrev ws_of_ts : Texts → ℤ → Dict String → ℤ → ProbeResult F
  ws_of_ts tx now d ts =
      let state = text_or_empty (get "state" d) in
      let age = age_sec now ts in
      if eqb_ℤ ts (pos 0)
      then (red, note "no_ts")
      else if is_down (tx.lower state)
      then (red, ws_state state)
      else if age >f fl.dec 30 0
      then (red, stale age)
      else if age >f fl.dec 15 0
      then (yellow, stale age)
      else (green, ws_fresh state age)

  unfoldable pub probe_broker_ws : Texts → ℤ → Dict String → Try (ProbeResult F)
  probe_broker_ws tx now [] = value (red, note "no_ws_status")
  probe_broker_ws tx now (e ∷ d) =
      ts_of tx (get "ts_ms" (e ∷ d)) >>= λ ts. value (ws_of_ts tx now (e ∷ d) ts)

  -- The load of the last minute and the number of processors; none where it raises.
  unfoldable pub probe_system_load : Option (F × ℤ) → ProbeResult F
  probe_system_load none = (red, note "loadavg_failed")
  probe_system_load (some (load1, cpus)) =
      let norm = load1 /f fl.of_int cpus in
      if norm ≥f fl.dec 95 2
      then (red, load load1 cpus)
      else if norm ≥f fl.dec 75 2
      then (yellow, load load1 cpus)
      else (green, load load1 cpus)

  unfoldable pub probe_swap : Option F → ProbeResult F
  probe_swap none = (red, note "swap_read_failed")
  probe_swap (some pct) =
      if pct ≥f fl.dec 80 0
      then (red, swap pct)
      else if pct ≥f fl.dec 50 0
      then (yellow, swap pct)
      else (green, swap pct)

  abbrev engine_of_age : F → ProbeResult F
  engine_of_age age =
      if age >f fl.dec 30 0
      then (red, stale age)
      else if age >f fl.dec 15 0
      then (yellow, stale age)
      else (green, fresh age)

  abbrev engine_of_ts : ℤ → Option ℤ → ProbeResult F
  engine_of_ts now none = (red, note "bad_ts")
  engine_of_ts now (some ts) = engine_of_age (age_sec now ts)

  -- The heartbeats by engine.
  unfoldable pub probe_engines : Texts → ℤ → Dict String → Dict (ProbeResult F)
  probe_engines tx now [] = []
  probe_engines tx now ((engine, ts) ∷ beats) =
      (engine, engine_of_ts now (tx.parse_int ts)) ∷ probe_engines tx now beats

abbrev pub is_status : Status → Status → Bool
is_status green green = true
is_status yellow yellow = true
is_status red red = true
is_status _ _ = false

abbrev pub has_status : {F : Type 0} → Status → List (ProbeResult F) → Bool
has_status s parts = any (λ p. is_status s p.0) parts

-- Worst-of; nothing at all is red.
unfoldable pub aggregate_status : {F : Type 0} → List (ProbeResult F) → Status
aggregate_status parts =
    if has_status red parts
    then red
    else if has_status yellow parts
    then yellow
    else if has_status green parts
    then green
    else red

abbrev pub results : {F : Type 0} → Dict (ProbeResult F) → List (ProbeResult F)
results [] = []
results ((_, r) ∷ d) = r ∷ results d

abbrev pub red_parts : {F : Type 0} → Dict (ProbeResult F) → List String
red_parts [] = []
red_parts ((k, r) ∷ d) = let rest = red_parts d in if is_status red r.0 then k ∷ rest else rest

-- system:health:dependencies, :engines, :summary and :alerts; an alert names the red parts.
pub record HealthStore (F : Type 0) : Type 0 where
  pub dependencies : Dict (ProbeResult F)
  pub engines : Dict (ProbeResult F)
  pub summary : Option Status
  pub alerts : List (List String)

-- What one cycle meets.
pub record Cycle (F : Type 0) : Type 0 where
  pub now : ℤ
  pub ping : Option Bool
  pub row : Option (Option ℤ)
  pub rest : Option (Bool × String)
  pub ws_status : Dict String
  pub load1 : Option (F × ℤ)
  pub swap_percent : Option F
  pub heartbeats : Dict String

abbrev put_all : {F : Type 0} → Dict (ProbeResult F) → Dict (ProbeResult F) → Dict (ProbeResult F)
put_all [] stored = stored
put_all ((k, r) ∷ d) stored = put_all d (put k r stored)

abbrev was_red : Option Status → Bool
was_red none = false
was_red (some s) = is_status red s

module _ {F : Type 0} ⦃fl : Float F⦄ where
  unfoldable pub run_probes : Texts → Cycle F → Try (Dict (ProbeResult F))
  unfolding probe_redis probe_postgres probe_broker_rest probe_broker_ws probe_system_load
      probe_swap
  run_probes tx c = probe_broker_ws tx c.now c.ws_status >>= λ ws. value (
      ("redis", probe_redis c.ping)
      ∷ ("postgres", probe_postgres c.row)
      ∷ ("broker_rest", probe_broker_rest c.rest)
      ∷ ("broker_ws", ws)
      ∷ ("system_load", probe_system_load c.load1)
      ∷ ("swap", probe_swap c.swap_percent)
      ∷ [])

  -- The summary of the cycle before is an argument, that of this one is returned.
  unfoldable pub publish_results :
      Dict (ProbeResult F)
      → Dict (ProbeResult F)
      → Option Status
      → HealthStore F
      → Status × HealthStore F
  unfolding aggregate_status
  publish_results deps engines prev s =
      let status = aggregate_status (results deps ++ results engines) in
      let alert = is_status red status && not (was_red prev) in
      (
        status,
        record {
          dependencies = put_all deps s.dependencies;
          engines = put_all engines s.engines;
          summary = some status;
          alerts = if alert then s.alerts ++ (red_parts (deps ++ engines) ∷ []) else s.alerts;
        },
      )

  -- One cycle of the loop; a probe that raises leaves everything as it was.
  abbrev after_probes :
      Texts
      → Cycle F
      → Try (Dict (ProbeResult F))
      → Option Status × HealthStore F
      → Option Status × HealthStore F
  after_probes tx c raised (prev, s) = (prev, s)
  after_probes tx c (value deps) (prev, s) =
      let r = publish_results deps (probe_engines tx c.now c.heartbeats) prev s in (some r.0, r.1)

  unfoldable pub health_cycle :
      Texts → Cycle F → Option Status × HealthStore F → Option Status × HealthStore F
  unfolding run_probes publish_results probe_engines
  health_cycle tx c s = after_probes tx c (run_probes tx c) s

  unfoldable pub health_loop :
      Texts → List (Cycle F) → Option Status × HealthStore F → Option Status × HealthStore F
  unfolding health_cycle
  health_loop tx [] s = s
  health_loop tx (c ∷ cycles) s = health_loop tx cycles (health_cycle tx c s)
