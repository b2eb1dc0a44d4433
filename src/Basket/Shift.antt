-- ===== src/Basket/Shift.antt =====
-- The strikes that a basket watches, and when it moves.
use pcr_momentum.Base.{
  ℕ, zero, suc, ◌+◌, ◌*◌, String, ◌≡◌, refl, ◌∙◌, true, false, Option, none, some, List, [], ◌∷◌,
  arith, length,
}
use pcr_momentum.Base.Int.{ℤ, pos, eqb_ℤ, ◌+ℤ◌, ◌-ℤ◌}
use pcr_momentum.Float.{Float}
use pcr_momentum.Snapshot.{Side}
use pcr_momentum.Basket.{
  Basket, BasketTransition, transition_to, maybe_shift_basket, sorted, insert_sorted, strikes_from,
  compute_strike_set, is_recent, is_populated, compute_atm,
}

length-insert : (n : ℤ) (l : List ℤ) → length (insert_sorted n l) ≡ suc (length l)
unfolding insert_sorted
length-insert n [] = refl
length-insert n (m ∷ l) = ground (arith, length-insert n l)

length-sorted : (l : List ℤ) → length (sorted l) ≡ length l
unfolding sorted
length-sorted [] = refl
length-sorted (n ∷ l) = omega (arith, length-sorted l, length-insert n (sorted l))

length-strikes_from : (atm step i : ℤ) (count : ℕ) → length (strikes_from atm step i count) ≡ count
unfolding strikes_from
length-strikes_from atm step i zero = refl
length-strikes_from atm step i (suc count) =
    omega (arith, length-strikes_from atm step (i +ℤ pos 1) count)

-- Both sides watch the same strikes: the ATM and `basket_size` of them on each side.
pub compute_strike_set-length :
    (atm step : ℤ) (size : ℕ)
    → let (ces, pes) = compute_strike_set atm step size in (ces ≡ pes) × (length ces ≡ 2 * size + 1)
unfolding compute_strike_set
compute_strike_set-length atm step size =
    let strikes = strikes_from atm step (pos 0 -ℤ pos size) (2 * size + 1) in
    (refl, length-sorted strikes ∙ length-strikes_from atm step (pos 0 -ℤ pos size) (2 * size + 1))

module _ {F : Type 0} ⦃fl : Float F⦄ where
  -- A populated basket does not move while the spot has no value or its ATM is the basket's, and
  -- within `hysteresis_sec` of the last move; otherwise the move is to the ATM of the spot at that
  -- time.
  pub maybe_shift_basket-moves :
      (b : Basket) (spot : Option F) (step : ℤ) (size : ℕ) (now_ms hysteresis_sec : ℤ)
      (lookup : ℤ → Side → Option String) (t : BasketTransition)
      → is_populated b.ce_tokens ≡ true
      → maybe_shift_basket b spot step size now_ms hysteresis_sec lookup ≡ some t
      → (eqb_ℤ t.new_basket.atm b.atm ≡ false)
        × (is_recent b.last_shift_ts now_ms hysteresis_sec ≡ false)
        × (t.new_basket.last_shift_ts ≡ now_ms)
        × (t.reason ≡ some (b.atm, t.new_basket.atm))
  unfolding maybe_shift_basket transition_to
  maybe_shift_basket-moves b none step size now_ms hysteresis_sec lookup t p e = ground arith
  maybe_shift_basket-moves b (some spot) step size now_ms hysteresis_sec lookup t p e =
      let moved : transition_to b (compute_atm spot step) step size now_ms lookup ≡ t =
        ground arith in
      rw (← moved) (ground arith, ground arith, refl, rw p refl)
