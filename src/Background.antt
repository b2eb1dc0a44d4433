-- ===== src/Background.antt =====
-- backend/engines/background/report_drainer.py with the buffer of worker.py that it empties, and
-- backend/engines/background/kill_switch_poller.py. Whether a text is a report is a parameter: orjson
-- and pydantic decide it. A broker token with no text counts as none; errors' texts are left out.
pub mod Queue
use pcr_momentum.Base.{
  ℕ, suc, ◌+◌, ◌-◌, String, Bool, true, false, Option, none, some, List, [], ◌∷◌, ◌++◌, drop,
  length, leb, if◌then◌else◌,
}

-- orders:reports:pending, the table of closed positions, and what has been dropped or lost on the way.
pub record Reports : Type 0 where
  pub pending : List String
  pub persisted : List String
  pub malformed : List String
  pub lost : List String

-- LTRIM key -n -1: the last n entries.
abbrev pub keep_last : ℕ → List String → List String
keep_last n l = drop (length l - n) l

abbrev pub max_pending : ℕ
max_pending = 10000

-- `_buffer_report_for_persistence`: RPUSH and LTRIM.
unfoldable pub buffer_report : String → Reports → Reports
buffer_report report r = record r { pending = keep_last max_pending (r.pending ++ report ∷ []) }

-- What one turn of the drainer meets: a worker has buffered a report; BLPOP fails; or it answers, with
-- whether the database takes the report, and whether a report that it does not take can be pushed
-- back.
pub data DrainTurn : Type 0 where
  buffered : String → DrainTurn
  unread : DrainTurn
  popped : (insert_ok requeue_ok : Bool) → DrainTurn

module _ (is_report : String → Bool) where
  abbrev requeued : Bool → String → Reports → Reports
  requeued true report r = record r { pending = report ∷ r.pending }
  requeued false report r = record r { lost = r.lost ++ report ∷ [] }

  -- `_persist_one`, and what the loop makes of its answer.
  abbrev pub persist_one : Bool → Bool → String → Reports → Reports
  persist_one insert_ok requeue_ok report r =
      if is_report report
      then if insert_ok
        then record r { persisted = r.persisted ++ report ∷ [] }
        else requeued requeue_ok report r
      else record r { malformed = r.malformed ++ report ∷ [] }

  abbrev pub pop_one : Bool → Bool → List String → Reports → Reports
  pop_one insert_ok requeue_ok [] r = r
  pop_one insert_ok requeue_ok (report ∷ pending) r =
      persist_one insert_ok requeue_ok report (record r { pending = pending })

  unfoldable pub drain_turn : DrainTurn → Reports → Reports
  unfolding buffer_report
  drain_turn (buffered report) r = buffer_report report r
  drain_turn unread r = r
  drain_turn (popped insert_ok requeue_ok) r = pop_one insert_ok requeue_ok r.pending r

  unfoldable pub drain_loop : List DrainTurn → Reports → Reports
  unfolding drain_turn
  drain_loop [] r = r
  drain_loop (t ∷ turns) r = drain_loop turns (drain_turn t r)

-- user:capital:kill_switch, the failures in a row, and the alerts, each with its count.
pub record Poller : Type 0 where
  pub snapshot : Option String
  pub consecutive_failures : ℕ
  pub alerts : List ℕ

-- One poll: no token; no answer, or one that is no success; or a snapshot, and whether SET works.
pub data Poll : Type 0 where
  no_token : Poll
  failure : Poll
  success : String → Bool → Poll

unfoldable pub poll : Poll → Poller → Poller
poll no_token p = p
poll failure p =
    let n = suc p.consecutive_failures in
    record p { consecutive_failures = n; alerts = if leb 3 n then p.alerts ++ n ∷ [] else p.alerts }
poll (success snapshot set_ok) p = record p {
  consecutive_failures = 0;
  snapshot = if set_ok then some snapshot else p.snapshot;
}

unfoldable pub poll_loop : List Poll → Poller → Poller
unfolding poll
poll_loop [] p = p
poll_loop (x ∷ polls) p = poll_loop polls (poll x p)
