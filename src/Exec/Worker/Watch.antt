-- ===== src/Exec/Worker/Watch.antt =====
-- The watch over a position ends, and the vessel reads what became of it.
use pcr_momentum.Base.{
  ℕ, ◌≡◌, ◌⊎◌, inl, inr, refl, ◌∙◌, Bool, true, ◌||◌, Option, none, some, List, [], ◌∷◌, any, leb,
  is_some, Bool-cases, arith, ◌≤◌,
}
use pcr_momentum.Float.{Float}
use pcr_momentum.Exec.{Position, ExitReason}
use pcr_momentum.Exec.ExitEval.{held_seconds, evaluate, update_trailing_state}
use pcr_momentum.Exec.ExitEval.Cascade.{evaluate-bounded}
use pcr_momentum.Exec.Worker.{
  Look, after_look, mark_to_market, moment_of, premium_of, closed_or, watch,
}

module _ {F : Type 0} ⦃fl : Float F⦄ where
  -- At this look the square-off has come, or the holding time is over.
  abbrev pub is_due : ℕ → ℕ → Look F → Bool
  is_due entry_ts_ms max_hold_sec l =
      leb l.eod_minute l.now_minute || leb max_hold_sec (held_seconds l.now_ts_ms entry_ts_ms)

  after_look-keeps :
      (l : Look F) (p : Position F)
      → ((after_look l p).entry_ts_ms ≡ p.entry_ts_ms)
        × ((after_look l p).max_hold_sec ≡ p.max_hold_sec)
  unfolding after_look mark_to_market update_trailing_state
  after_look-keeps l p = (refl, refl)

  due_closes :
      (l : Look F) (p : Position F) (premium : F)
      → is_due p.entry_ts_ms p.max_hold_sec l ≡ true
      → is_some (evaluate p (moment_of l premium)) ≡ true
  due_closes l p premium h =
      let late : (l.eod_minute ≤ l.now_minute)
          ⊎ (p.max_hold_sec ≤ held_seconds l.now_ts_ms p.entry_ts_ms) =
        ground arith in
      let (r, e) = evaluate-bounded p (moment_of l premium) late in rw e refl

  closed_or-is_some :
      (c : Option ExitReason) (p : Position F) (rest : Option (ExitReason × Position F))
      → is_some (closed_or c p rest) ≡ is_some c || is_some rest
  closed_or-is_some none p rest = refl
  closed_or-is_some (some r) p rest = refl

  -- The watch never outlasts the day or the holding time: if any of its looks is at or after the
  -- square-off, or when the holding time is over, the position has been closed.
  pub watch-closes :
      (ls : List (Look F)) (p : Position F)
      → any (is_due p.entry_ts_ms p.max_hold_sec) ls ≡ true
      → is_some (watch ls p) ≡ true
  unfolding watch
  watch-closes [] p h = absurd (ground arith)
  watch-closes (l ∷ ls) p h =
      let p' = after_look l p in
      let keeps = after_look-keeps l p in
      let m = moment_of l (premium_of l.leaf p) in
      let whole = closed_or-is_some (evaluate p' m) p' (watch ls p') in
      elim (Bool-cases (is_due p.entry_ts_ms p.max_hold_sec l)) [
        | inl due ↦
            let now : is_some (evaluate p' m) ≡ true =
              due_closes l p' (premium_of l.leaf p) (rw (keeps.0, keeps.1) due) in
            whole ∙ rw now refl
        | inr early ↦
            let later : any (is_due p.entry_ts_ms p.max_hold_sec) ls ≡ true = ground arith in
            let rest : is_some (watch ls p') ≡ true =
              watch-closes ls p' (rw (keeps.0, keeps.1) later) in
            whole ∙ ground (arith, rest)
      ]
