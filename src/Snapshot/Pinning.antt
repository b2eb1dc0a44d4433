-- ===== src/Snapshot/Pinning.antt =====
-- The held leg is in every snapshot, also after the basket has moved away from its strike.
use pcr_momentum.Base.{
  String, str_eq, eq_iff, ◌≡◌, ◌⊎◌, refl, true, false, Option, none, some, List, [], ◌∷◌, ◌++◌,
  arith, truthy, Bool-cases, inl, inr,
}
use pcr_momentum.Base.Int.{ℤ}
use pcr_momentum.Float.{Float}
use pcr_momentum.Snapshot.{
  Side, ce, pe, StrikeLeg, Snapshot, Raw, Leaf, Chain, chain_leaf, build_leg, has_token, pin,
  basket_legs, build_snapshot,
}

abbrev pub side_legs : {F : Type 0} → Side → Snapshot F → List (StrikeLeg F)
side_legs ce s = s.ce_legs
side_legs pe s = s.pe_legs

-- A leaf names its own token or none.
abbrev pub AgreesOn : {F : Type 0} → String → Option (Leaf F) → Type 0
AgreesOn token none = Unit
AgreesOn token (some leaf) = (leaf.token ≡ token) ⊎ (truthy leaf.token ≡ false)

same-token : (t : String) → str_eq t t ≡ true
same-token t = (eq_iff t t).1 refl

module _ {F : Type 0} ⦃fl : Float F⦄ where
  build_leg-token :
      (token : String) (strike : ℤ) (side : Side) (leaf : Option (Leaf F))
      → AgreesOn token leaf
      → (build_leg token strike side leaf).token ≡ token
  unfolding build_leg
  build_leg-token token strike side none h = refl
  build_leg-token token strike side (some leaf) h = ground arith

  has_token-last :
      (token : String) (legs : List (StrikeLeg F)) (leg : StrikeLeg F)
      → leg.token ≡ token
      → has_token token (legs ++ leg ∷ []) ≡ true
  has_token-last token [] leg e = rw e (rw (same-token token) refl)
  has_token-last token (x ∷ legs) leg e = ground (arith, has_token-last token legs leg e)

  pin-has_token :
      (chain : Chain F) (side : Side) (token : String) (strike : ℤ) (legs : List (StrikeLeg F))
      → AgreesOn token (chain_leaf chain strike side)
      → has_token token (pin chain side token strike legs) ≡ true
  unfolding pin
  pin-has_token chain side token strike legs h = elim (Bool-cases (has_token token legs)) [
    | inl there ↦ rw (there, there) refl
    | inr missing ↦ rw missing (
        has_token-last token legs (build_leg token strike side (chain_leaf chain strike side))
          (build_leg-token token strike side (chain_leaf chain strike side) h))
  ]

  -- A snapshot with a held leg, of a token that is not empty and that the chain's leaf at that strike
  -- does not contradict, has a leg of that token on the held side.
  pub build_snapshot-has_held :
      (id : String) (atm : ℤ) (ces pes : List (ℤ × String)) (chain : Chain F) (spot ts : Raw F)
      (now_ms : ℤ) (token : String) (side : Side) (strike : ℤ)
      → truthy token ≡ true
      → AgreesOn token (chain_leaf chain strike side)
      → has_token token (
          side_legs side (
            build_snapshot id atm ces pes chain spot ts now_ms
              (record { token = some token; side = some side; strike = some strike })))
        ≡ true
  unfolding build_snapshot
  build_snapshot-has_held id atm ces pes chain spot ts now_ms token ce strike t h =
      rw t (pin-has_token chain ce token strike (basket_legs chain ce ces) h)
  build_snapshot-has_held id atm ces pes chain spot ts now_ms token pe strike t h =
      rw t (pin-has_token chain pe token strike (basket_legs chain pe pes) h)
