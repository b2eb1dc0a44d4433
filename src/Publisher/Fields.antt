-- ===== src/Publisher/Fields.antt =====
-- publisher.py, the fields of the stream entry: `model_dump` without the values that are None, numbers as
-- their texts. `print_int` and `print_float` stand for `str`, `breakdown` and `ts` for the texts of the
-- score's breakdown and of the time; fields that only carry telemetry are left out.
use pcr_momentum.Base.{ℕ, String, Option, none, some, [], ◌∷◌}
use pcr_momentum.Base.Int.{ℤ, pos}
use pcr_momentum.Base.Dict.{Dict}
use pcr_momentum.Float.{Float}
use pcr_momentum.Snapshot.{Side, ce, pe}
use pcr_momentum.Publisher.{Signal, SignalIntent, fresh_entry, reversal_flip, manual_exit}

abbrev pub side_text : Side → String
side_text ce = "CE"
side_text pe = "PE"

abbrev pub intent_text : SignalIntent → String
intent_text fresh_entry = "FRESH_ENTRY"
intent_text reversal_flip = "REVERSAL_FLIP"
intent_text manual_exit = "MANUAL_EXIT"

module _ {F : Type 0} ⦃fl : Float F⦄ (print_int : ℤ → String) (print_float : F → String) where
  abbrev pub with_score : Option ℕ → Dict String → Dict String
  with_score none fields = fields
  with_score (some n) fields = ("score", print_float (fl.of_int (pos n))) ∷ fields

  unfoldable pub stream_fields : String → String → String → Signal → Dict String
  stream_fields strategy_id breakdown ts sig =
      ("sig_id", sig.sig_id)
      ∷ ("strategy_id", strategy_id)
      ∷ ("instrument_id", sig.index)
      ∷ ("index", sig.index)
      ∷ ("side", side_text sig.side)
      ∷ ("strike", print_int sig.strike)
      ∷ ("instrument_token", sig.instrument_token)
      ∷ ("intent", intent_text sig.intent)
      ∷ ("qty_lots", print_int sig.qty_lots)
      ∷ with_score sig.score (
          ("score_breakdown", breakdown)
          ∷ ("decision_ts", print_int sig.decision_ts)
          ∷ ("ts", ts)
          ∷ [])
