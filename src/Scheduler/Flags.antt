-- ===== src/Scheduler/Flags.antt =====
-- The flags after the jobs of a day, the table of triggers, and the events that are acknowledged.
use mathlib.Core.Path.{subst}
use pcr_momentum.Base.{
  ◌≡◌, refl, ap, sym, ◌∙◌, String, Bool, true, false, not, ◌&&◌, some, List, [], ◌∷◌, ◌++◌, all,
  arith,
}
use pcr_momentum.Base.Dict.{get, put, remove, get-put, get-remove}
use pcr_momentum.Scheduler.{
  Job, pre_open_snapshot, market_open, entry_freeze, eod_squareoff, market_close, daily_reset,
  instrument_refresh, nightly_maintenance, Firing, System, publish, set_flags, run_job, run_jobs,
}

abbrev active : String
active = "system:flags:trading_active"

abbrev reason : String
reason = "system:flags:trading_disabled_reason"

abbrev pub is_session : Job → Bool
is_session market_open = true
is_session market_close = true
is_session _ = false

publish-flags :
    (k : String) (now : _) (ok : Bool) (s : System) → (publish k now ok s).flags ≡ s.flags
unfolding publish
publish-flags k now true s = refl
publish-flags k now false s = refl

run_jobs-append :
    (fs gs : List Firing) (s : System) → run_jobs (fs ++ gs) s ≡ run_jobs gs (run_jobs fs s)
unfolding run_jobs
run_jobs-append [] gs s = refl
run_jobs-append (f ∷ fs) gs s = run_jobs-append fs gs (run_job f s)

-- A job that neither opens nor closes the market leaves the two flags alone.
set_flags-active :
    (j : Job) (s : System)
    → is_session j ≡ false
    → get active (set_flags j s).flags ≡ get active s.flags
unfolding set_flags
set_flags-active pre_open_snapshot s h = get-put _ active _ s.flags
set_flags-active market_open s h = cc
set_flags-active entry_freeze s h = get-put _ active _ s.flags
set_flags-active eod_squareoff s h = get-put _ active _ s.flags
set_flags-active market_close s h = cc
set_flags-active daily_reset s h =
    get-remove _ active (remove "system:flags:entry_freeze" s.flags) ∙ get-remove _ active s.flags
set_flags-active instrument_refresh s h = refl
set_flags-active nightly_maintenance s h = refl

set_flags-reason :
    (j : Job) (s : System)
    → is_session j ≡ false
    → get reason (set_flags j s).flags ≡ get reason s.flags
unfolding set_flags
set_flags-reason pre_open_snapshot s h = get-put _ reason _ s.flags
set_flags-reason market_open s h = cc
set_flags-reason entry_freeze s h = get-put _ reason _ s.flags
set_flags-reason eod_squareoff s h = get-put _ reason _ s.flags
set_flags-reason market_close s h = cc
set_flags-reason daily_reset s h =
    get-remove _ reason (remove "system:flags:entry_freeze" s.flags) ∙ get-remove _ reason s.flags
set_flags-reason instrument_refresh s h = refl
set_flags-reason nightly_maintenance s h = refl

abbrev pub no_session : List Firing → Bool
no_session fs = all (λ f. not (is_session f.job)) fs

-- Trading is on and no reason is given, or it is off because the market has closed.
abbrev pub ShowsSession : Bool → System → Type 0
ShowsSession true s = (get active s.flags ≡ some "true") × (get reason s.flags ≡ some "none")
ShowsSession false s =
    (get active s.flags ≡ some "false") × (get reason s.flags ≡ some "market_closed")

abbrev pub session_job : Bool → Job
session_job true = market_open
session_job false = market_close

quiet_head : (a b : Bool) → (not a && b) ≡ true → (a ≡ false) × (b ≡ true)
quiet_head a b h = (ground arith, ground arith)

run_job-active :
    (f : Firing) (s : System)
    → is_session f.job ≡ false
    → (get active (run_job f s).flags ≡ get active s.flags)
      × (get reason (run_job f s).flags ≡ get reason s.flags)
unfolding run_job
run_job-active f s h = (
  ap (get active) (publish-flags _ f.now f.xadd_ok (set_flags f.job s))
      ∙ set_flags-active f.job s h,
  ap (get reason) (publish-flags _ f.now f.xadd_ok (set_flags f.job s))
      ∙ set_flags-reason f.job s h,
)

stays :
    (b : Bool) (s t : System)
    → (get active t.flags ≡ get active s.flags) × (get reason t.flags ≡ get reason s.flags)
    → ShowsSession b s
    → ShowsSession b t
stays true s t (p, q) (h, k) = (p ∙ h, q ∙ k)
stays false s t (p, q) (h, k) = (p ∙ h, q ∙ k)

run_jobs-ShowsSession :
    (fs : List Firing) (b : Bool) (s : System)
    → no_session fs ≡ true
    → ShowsSession b s
    → ShowsSession b (run_jobs fs s)
unfolding run_jobs
run_jobs-ShowsSession [] b s h k = k
run_jobs-ShowsSession (f ∷ fs) b s h k =
    let (quiet, rest) = quiet_head (is_session f.job) (no_session fs) h in
    run_jobs-ShowsSession fs b (run_job f s) rest
      (stays b s (run_job f s) (run_job-active f s quiet) k)

set_flags-session : (b : Bool) (s : System) → ShowsSession b (set_flags (session_job b) s)
unfolding set_flags
set_flags-session true s = (
  get-put reason active "none" (put active "true" s.flags) ∙ get-put active active "true" s.flags,
  get-put reason reason _ (put active "true" s.flags),
)
set_flags-session false s = (
  get-put reason active "market_closed" (put active "false" s.flags)
      ∙ get-put active active "false" s.flags,
  get-put reason reason _ (put active "false" s.flags),
)

run_job-session :
    (b : Bool) (now : _) (ok : Bool) (s : System)
    → ShowsSession b (run_job (record { job = session_job b; now = now; xadd_ok = ok }) s)
unfolding run_job
run_job-session b now ok s =
    stays b (set_flags (session_job b) s) _
      (
        ap (get active) (publish-flags _ now ok (set_flags (session_job b) s)),
        ap (get reason) (publish-flags _ now ok (set_flags (session_job b) s)),
      )
      (set_flags-session b s)

-- Whatever jobs a day has fired, the market's flags show its last opening or closing: after a job
-- that opens or closes the market, and then any jobs that do neither, trading is active with the reason
-- none after an opening, and inactive with the reason market_closed after a closing, also where events
-- could not be published.
pub run_jobs-session :
    (before later : List Firing) (opens ok : Bool) (now : _) (s : System)
    → no_session later ≡ true
    → ShowsSession opens
        (run_jobs (before ++ record { job = session_job opens; now = now; xadd_ok = ok } ∷ later) s)
unfolding run_jobs
run_jobs-session before later opens ok now s h =
    let f : Firing = record { job = session_job opens; now = now; xadd_ok = ok } in
    subst (ShowsSession opens) (sym (run_jobs-append before (f ∷ later) s)) (
      run_jobs-ShowsSession later opens (run_job f (run_jobs before s)) h
        (run_job-session opens now ok (run_jobs before s)))
