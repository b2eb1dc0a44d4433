-- ===== src/Exec/ExitEval/Trailing.antt =====
-- The trailing stop only moves one way.
use pcr_momentum.Base.{ℕ, ◌≡◌, refl, true, Option, none, some, arith}
use pcr_momentum.Float.{Float, IsOrdered, IsNum, nought, max_f, ◌≤f◌, ◌-f◌}
use pcr_momentum.Exec.{Position}
use pcr_momentum.Exec.ExitEval.{trail_level, update_trailing_state}

-- The stop level falls no lower when the peak rises: multiplying by a fixed factor that is not
-- negative, where both products are numbers, and rounding keep the order of doubles.
pub record IsMonotone (F : Type 0) ⦃fl : Float F⦄ : Type 0 where
  pub mul_mono :
      (x y k : F)
      → fl.le x y ≡ true
      → fl.le nought k ≡ true
      → IsNum (fl.mul x k)
      → IsNum (fl.mul y k)
      → fl.le (fl.mul x k) (fl.mul y k) ≡ true
  pub round_mono :
      (n : ℕ) (x y : F) → fl.le x y ≡ true → fl.le (fl.round_to n x) (fl.round_to n y) ≡ true

module _ {F : Type 0} ⦃fl : Float F⦄ where
  -- An armed position has the level of its peak.
  abbrev pub IsTrailing : Position F → Type 0
  IsTrailing p =
      p.tsl_armed ≡ true → p.tsl_level ≡ some (trail_level p.peak_premium p.tsl_trail_pct)

  abbrev pub NotBelow : Option F → Option F → Type 0
  NotBelow none after = Unit
  NotBelow (some x) none = ⊥
  NotBelow (some x) (some y) = fl.le x y ≡ true

  max_f-le : (o : IsOrdered F) (x y : F) → IsNum x → IsNum y → fl.le x (max_f x y) ≡ true
  max_f-le o x y nx ny = ground (arith, o.le_of_lt x y)

  le-max_f : (o : IsOrdered F) (x y : F) → IsNum x → IsNum y → fl.le y (max_f x y) ≡ true
  le-max_f o x y nx ny = ground (arith, o.total y x)

  trail_level_mono :
      (mono : IsMonotone F) (x y k : F)
      → fl.le x y ≡ true
      → fl.le nought (fl.dec 1 0 -f k) ≡ true
      → IsNum (fl.mul x (fl.dec 1 0 -f k))
      → IsNum (fl.mul y (fl.dec 1 0 -f k))
      → fl.le (trail_level x k) (trail_level y k) ≡ true
  trail_level_mono mono x y k h pos_factor nx ny =
      mono.round_mono 4 _ _ (mono.mul_mono x y (fl.dec 1 0 -f k) h pos_factor nx ny)

  max_f-mul : (x y k : F) → IsNum (fl.mul x k) → IsNum (fl.mul y k) → IsNum (fl.mul (max_f x y) k)
  max_f-mul x y k nx ny = ground arith

  -- One update, where premium and peak are numbers and so are their products with the trailing factor,
  -- the trailing distance is at most 1, such products and roundings keep the order of floats, and the
  -- level of an armed stop is the level of the peak: the peak
  -- does not fall and covers the premium, an armed stop stays armed and at the level of the peak, and
  -- its level does not fall.
  pub update-IsTrailing :
      (o : IsOrdered F) (mono : IsMonotone F) (p : Position F) (premium : F)
      → IsNum p.peak_premium
      → IsNum premium
      → (nought ≤f (fl.dec 1 0 -f p.tsl_trail_pct)) ≡ true
      → IsNum (fl.mul p.peak_premium (fl.dec 1 0 -f p.tsl_trail_pct))
      → IsNum (fl.mul premium (fl.dec 1 0 -f p.tsl_trail_pct))
      → IsTrailing p
      → let q = update_trailing_state p premium in
        ((p.peak_premium ≤f q.peak_premium) ≡ true)
        × ((premium ≤f q.peak_premium) ≡ true)
        × IsTrailing q
        × (p.tsl_armed ≡ true → (q.tsl_armed ≡ true) × NotBelow p.tsl_level q.tsl_level)
  unfolding update_trailing_state
  update-IsTrailing o mono p premium np nm factor kp km trailing =
      let up = max_f-le o p.peak_premium premium np nm in
      (
        up,
        le-max_f o p.peak_premium premium np nm,
        ground arith,
        λ armed.
            let level =
              trail_level_mono mono p.peak_premium (max_f p.peak_premium premium) p.tsl_trail_pct up
                factor kp
                (max_f-mul p.peak_premium premium (fl.dec 1 0 -f p.tsl_trail_pct) kp km) in
            rw (armed, trailing armed) (refl, level),
      )
