-- ===== src/Decisions/Timing.antt =====
-- decisions/timing.py: the minimum score by the time of day. A time is its microseconds since
-- midnight.
pub mod Windows
use pcr_momentum.Base.{
  ℕ, ◌+◌, ◌*◌, String, Bool, true, false, ◌&&◌, Option, none, some, List, [], ◌∷◌, ◌++◌, find_first,
  ltb, leb, str_eq, if◌then◌else◌,
}
use pcr_momentum.Base.Int.{ℤ, pos, negsuc, ltb_ℤ}
use pcr_momentum.Decisions.{
  Reason, no_reason, outside_trading_window, phase_blocks_entries, score_below_phase_min,
}

pub record TimingWindow : Type 0 where
  pub start : ℕ
  pub end : ℕ
  pub phase : String
  pub min_score : Option ℤ

-- One entry of the `time_windows` config. `start` and `end` are the parts of the text between
-- colons, `none` where the key is missing or is no text; so for the score, whose value may be null.
pub record WindowConfig : Type 0 where
  pub start_parts : Option (List String)
  pub end_parts : Option (List String)
  pub phase : Option String
  pub min_score : Option (Option ℤ)

abbrev pub minute_us : ℕ
minute_us = 60000000

-- `dt_time(h, m)` raises ValueError out of range.
abbrev dt_time : Option ℤ → Option ℤ → Option ℕ
dt_time (some (pos h)) (some (pos m)) =
    if ltb h 24 && ltb m 60 then some ((h * 60 + m) * minute_us) else none
dt_time _ _ = none

-- The arguments `read_int` are Python's `int(text)`, `none` for a ValueError.
clock_time : (String → Option ℤ) → Option (List String) → Option ℕ
clock_time read_int (some (h ∷ m ∷ [])) = dt_time (read_int h) (read_int m)
clock_time read_int _ = none

abbrev phase_or_unknown : Option String → String
phase_or_unknown none = "UNKNOWN"
phase_or_unknown (some p) = p

-- `none` where `int(min_score)` raises.
typed_window : Option ℕ → Option ℕ → WindowConfig → Option (Option ℤ) → List TimingWindow
typed_window (some start) (some end) w (some score) =
    record { start = start; end = end; phase = phase_or_unknown w.phase; min_score = score } ∷ []
typed_window _ _ w _ = []

unfoldable pub parse_windows : (String → Option ℤ) → List WindowConfig → List TimingWindow
unfolding clock_time typed_window
parse_windows read_int [] = []
parse_windows read_int (w ∷ ws) =
    typed_window (clock_time read_int w.start_parts) (clock_time read_int w.end_parts) w w.min_score
    ++ parse_windows read_int ws

abbrev pub contains_time : ℕ → TimingWindow → Bool
contains_time now w = leb w.start now && ltb now w.end

unfoldable pub current_window : ℕ → List TimingWindow → Option TimingWindow
current_window now windows = find_first (contains_time now) windows

module _ {F : Type 0} where
  abbrev phase_verdict : String → Option ℤ → ℕ → Bool × Reason F
  phase_verdict phase none score = (false, phase_blocks_entries phase)
  phase_verdict phase (some least) score =
      if ltb_ℤ (pos score) least
      then (false, score_below_phase_min score phase least)
      else (true, no_reason)

  abbrev window_verdict : Option TimingWindow → ℕ → Bool × Reason F
  window_verdict none score = (false, outside_trading_window)
  window_verdict (some w) score = phase_verdict w.phase w.min_score score

  unfoldable pub entry_allowed : ℕ → List TimingWindow → ℕ → Bool × Reason F
  entry_allowed now windows score = window_verdict (current_window now windows) score

abbrev in_phase : String → Option TimingWindow → Bool
in_phase name none = false
in_phase name (some w) = str_eq w.phase name

unfoldable pub is_continuation_phase : ℕ → List TimingWindow → Bool
unfolding current_window
is_continuation_phase now windows = in_phase "CONTINUATION_ONLY" (current_window now windows)

unfoldable pub is_exit_only_phase : ℕ → List TimingWindow → Bool
unfolding current_window
is_exit_only_phase now windows = in_phase "EXIT_ONLY" (current_window now windows)
