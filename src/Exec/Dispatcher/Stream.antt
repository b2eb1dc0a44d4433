-- ===== src/Exec/Dispatcher/Stream.antt =====
-- dispatcher.py reads what publisher.py writes, and every entry is acknowledged.
use pcr_momentum.Base.{
  ◌≡◌, refl, ℕ, eq_iff, String, str_eq, true, false, Option, none, some, inl, inr, truthy,
  Bool-cases,
}
use mathlib.Core.Path.{subst}
use pcr_momentum.Base.Int.{ℤ, pos, leb_ℤ, eqb_ℤ}
use pcr_momentum.Base.Dict.{get}
use pcr_momentum.Float.{Float}
use pcr_momentum.Snapshot.{Side, ce, pe}
use pcr_momentum.Publisher.{SignalIntent, fresh_entry, reversal_flip, manual_exit, Signal}
use pcr_momentum.Publisher.Fields.{side_text, intent_text, stream_fields}
use pcr_momentum.Exec.Dispatcher.{
  floated, side_of, intent_of_text, Texts, Received, is_none_word, known_index, opt_float, opt_int,
  signal_from_payload, validate,
}

known-truthy : (s : String) → known_index s ≡ true → truthy s ≡ true
known-truthy s h = elim (Bool-cases (str_eq s "")) [
  | inl e ↦
      let p : known_index "" ≡ true = subst (λ x. known_index x ≡ true) ((eq_iff s "").0 e) h in cc
  | inr e ↦ rw e refl
]

side_of-text : (d : Side) → side_of (side_text d) ≡ some d
side_of-text ce = refl
side_of-text pe = refl

intent_of-text : (i : SignalIntent) → intent_of_text (intent_text i) ≡ some i
intent_of-text fresh_entry = refl
intent_of-text reversal_flip = refl
intent_of-text manual_exit = refl

module _ {F : Type 0} ⦃fl : Float F⦄ (tx : Texts) (print_float : F → String) where
  -- The text of a float stands for a value, and reads back as it.
  abbrev pub ReadsAs : String → F → Type 0
  ReadsAs s x = (is_none_word tx s ≡ false) × (fl.parse s ≡ some x)

  abbrev pub scored : Option ℕ → Option F
  scored none = none
  scored (some n) = some (fl.of_int (pos n))

  abbrev pub ScoreReads : Option ℕ → Type 0
  ScoreReads none = Unit
  ScoreReads (some n) = let x = fl.of_int (pos n) in ReadsAs (print_float x) x

  -- The numbers of the signal read back from their texts, the time is not 0, and pydantic accepts the
  -- index, the quantity, the breakdown and the time.
  pub record IsCarried (breakdown ts : String) (sig : Signal) : Type 0 where
    pub strike : tx.parse_int (tx.print_int sig.strike) ≡ some sig.strike
    pub qty_lots : tx.parse_int (tx.print_int sig.qty_lots) ≡ some sig.qty_lots
    pub decision_text : ReadsAs (tx.print_int sig.decision_ts) (fl.of_int sig.decision_ts)
    pub decision_ts : fl.trunc (fl.of_int sig.decision_ts) ≡ some sig.decision_ts
    pub nonzero : eqb_ℤ sig.decision_ts (pos 0) ≡ false
    pub score : ScoreReads sig.score
    pub index : known_index sig.index ≡ true
    pub positive : leb_ℤ sig.qty_lots (pos 0) ≡ false
    pub datetime : tx.is_datetime ts ≡ true
    pub accepted : tx.is_breakdown breakdown ≡ true

  abbrev pub received : String → String → Signal → Received F
  received strategy_id ts sig = record {
    sig_id = sig.sig_id;
    strategy_id = strategy_id;
    instrument_id = sig.index;
    index = sig.index;
    side = sig.side;
    strike = sig.strike;
    instrument_token = sig.instrument_token;
    intent = sig.intent;
    qty_lots = sig.qty_lots;
    score = scored sig.score;
    decision_ts = sig.decision_ts;
    ts = ts;
  }

  floated-ReadsAs : (s : String) (x : F) → ReadsAs s x → floated tx s ≡ some x
  floated-ReadsAs s x h = rw (h.0, h.1) refl

  read_fields :
      (now : ℤ) (strategy_id breakdown ts sig_id index : String) (side : Side) (strike : ℤ)
      (token : String) (intent : SignalIntent) (qty_lots : ℤ) (score : Option ℕ) (decision_ts : ℤ)
      → let sig : Signal = record {
        sig_id = sig_id;
        index = index;
        side = side;
        strike = strike;
        instrument_token = token;
        intent = intent;
        qty_lots = qty_lots;
        score = score;
        decision_ts = decision_ts;
      } in
        IsCarried breakdown ts sig
        → signal_from_payload tx now
            (stream_fields tx.print_int print_float strategy_id breakdown ts sig)
          ≡ some (received strategy_id ts sig)
  unfolding signal_from_payload validate stream_fields get opt_float opt_int
  read_fields now sid breakdown ts id index side strike token intent qty none dts h = simp (
    h.strike,
    h.qty_lots,
    side_of-text,
    intent_of-text,
    h.index,
    known-truthy index h.index,
    h.positive,
    h.datetime,
    h.accepted,
    floated-ReadsAs _ _ h.decision_text,
    h.decision_ts,
    h.nonzero,
  )
  read_fields now sid breakdown ts id index side strike token intent qty (some n) dts h = simp (
    h.strike,
    h.qty_lots,
    side_of-text,
    intent_of-text,
    h.index,
    known-truthy index h.index,
    h.positive,
    h.datetime,
    h.accepted,
    floated-ReadsAs _ _ h.decision_text,
    h.decision_ts,
    h.nonzero,
    floated-ReadsAs _ _ h.score,
  )

  -- A signal that is carried by its texts comes out of the stream as it was put in: the dispatcher
  -- reads the fields that the publisher writes back as the same signal, whatever its side, intent and
  -- score, and whether it has a score.
  pub stream_fields-signal_from_payload :
      (now : ℤ) (strategy_id breakdown ts : String) (sig : Signal)
      → IsCarried breakdown ts sig
      → signal_from_payload tx now
          (stream_fields tx.print_int print_float strategy_id breakdown ts sig)
        ≡ some (received strategy_id ts sig)
  stream_fields-signal_from_payload now strategy_id breakdown ts sig h =
      read_fields now strategy_id breakdown ts sig.sig_id sig.index sig.side sig.strike
        sig.instrument_token sig.intent sig.qty_lots sig.score sig.decision_ts h
