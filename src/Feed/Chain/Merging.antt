-- ===== src/Feed/Chain/Merging.antt =====
-- aggregator.py, update_option_chain_leaf on the whole chain: one leg is merged, all else stays.
use pcr_momentum.Base.{
  ◌≡◌, refl, inl, inr, ap, String, Bool, true, false, ◌&&◌, Option, none, some, [], ◌∷◌,
  if◌then◌else◌, arith, Bool-cases,
}
use pcr_momentum.Base.Int.{ℤ, eqb_ℤ, eq_of_parts}
use pcr_momentum.Float.{Float}
use pcr_momentum.Snapshot.{Side, ce, pe, chain_leaf, build_leg, StrikeLeg}
use pcr_momentum.Json.{Fields, end, find}
use pcr_momentum.Feed.{ParsedTick}
use pcr_momentum.Feed.Ticks.{HasFive}
use pcr_momentum.Feed.Chain.{
  FeedChain, or_end, existing_leaf, merged_leaf, update_option_chain_leaf,
}
use pcr_momentum.Feed.Chain.Leaves.{
  as_leaf, opt_leaf, as_chain, leg_at, has_strike, IsReadable, Shows, merged_leaf-Shows,
}

abbrev pub is_side : Side → Side → Bool
is_side ce ce = true
is_side pe pe = true
is_side _ _ = false

module _ {F : Type 0} ⦃fl : Float F⦄ where
  existing_at : FeedChain F → ℤ → Side → Fields F
  existing_at [] k d = end
  existing_at (s ∷ chain) k d =
      if eqb_ℤ s.strike k then existing_leaf d s else existing_at chain k d

  leg-none :
      (token : String) (k : ℤ) (d : Side)
      → build_leg {F = F} token k d none ≡ build_leg token k d (some (as_leaf end))
  unfolding build_leg find
  leg-none token k d = refl

  leg-or_end :
      (token : String) (k : ℤ) (d : Side) (o : Option (Fields F))
      → build_leg token k d (opt_leaf o) ≡ build_leg token k d (some (as_leaf (or_end o)))
  leg-or_end token k d none = leg-none token k d
  leg-or_end token k d (some _) = refl

  leg-existing :
      (token : String) (k : ℤ) (d : Side) (chain : FeedChain F)
      → leg_at chain token k d ≡ build_leg token k d (some (as_leaf (existing_at chain k d)))
  unfolding existing_at chain_leaf
  leg-existing token k d [] = leg-none token k d
  leg-existing token k ce (s ∷ chain) = elim (Bool-cases (eqb_ℤ s.strike k)) [
    | inl e ↦ rw e (leg-or_end token k ce s.ce_leaf)
    | inr e ↦ rw e (leg-existing token k ce chain)
  ]
  leg-existing token k pe (s ∷ chain) = elim (Bool-cases (eqb_ℤ s.strike k)) [
    | inl e ↦ rw e (leg-or_end token k pe s.pe_leaf)
    | inr e ↦ rw e (leg-existing token k pe chain)
  ]

  chain_leaf-update :
      (chain : FeedChain F) (k : ℤ) (d : Side) (t : ParsedTick F)
      → has_strike k chain ≡ true
      → chain_leaf (as_chain (update_option_chain_leaf chain k d t)) k d
        ≡ some (as_leaf (merged_leaf (existing_at chain k d) t))
  unfolding existing_at chain_leaf update_option_chain_leaf
  chain_leaf-update [] k d t h = cc
  chain_leaf-update (s ∷ chain) k ce t h = elim (Bool-cases (eqb_ℤ s.strike k)) [
    | inl e ↦ rw e (rw e refl)
    | inr e ↦ rw e (rw e (chain_leaf-update chain k ce t (rw e at h)))
  ]
  chain_leaf-update (s ∷ chain) k pe t h = elim (Bool-cases (eqb_ℤ s.strike k)) [
    | inl e ↦ rw e (rw e refl)
    | inr e ↦ rw e (rw e (chain_leaf-update chain k pe t (rw e at h)))
  ]

  has_strike-update :
      (chain : FeedChain F) (strike : ℤ) (side : Side) (t : ParsedTick F) (k : ℤ)
      → has_strike k (update_option_chain_leaf chain strike side t) ≡ has_strike k chain
  unfolding update_option_chain_leaf
  has_strike-update [] strike side t k = refl
  has_strike-update (s ∷ chain) strike ce t k =
      ground (arith, has_strike-update chain strike ce t k)
  has_strike-update (s ∷ chain) strike pe t k =
      ground (arith, has_strike-update chain strike pe t k)

  chain_leaf-other :
      (chain : FeedChain F) (strike : ℤ) (side : Side) (t : ParsedTick F) (k : ℤ) (d : Side)
      → (eqb_ℤ k strike && is_side d side) ≡ false
      → chain_leaf (as_chain (update_option_chain_leaf chain strike side t)) k d
        ≡ chain_leaf (as_chain chain) k d
  unfolding update_option_chain_leaf chain_leaf
  chain_leaf-other [] strike side t k d h = refl
  chain_leaf-other (s ∷ chain) strike ce t k ce h =
      ground (arith, chain_leaf-other chain strike ce t k ce)
  chain_leaf-other (s ∷ chain) strike ce t k pe h =
      ground (arith, chain_leaf-other chain strike ce t k pe)
  chain_leaf-other (s ∷ chain) strike pe t k ce h =
      ground (arith, chain_leaf-other chain strike pe t k ce)
  chain_leaf-other (s ∷ chain) strike pe t k pe h =
      ground (arith, chain_leaf-other chain strike pe t k pe)

  abbrev pub updated_leg : FeedChain F → ℤ → Side → ParsedTick F → String → ℤ → Side → StrikeLeg F
  updated_leg chain strike side t token k d =
      leg_at (update_option_chain_leaf chain strike side t) token k d

  same_leg :
      (chain : FeedChain F) (token : String) (k strike : ℤ) (d side : Side)
      → (eqb_ℤ k strike && is_side d side) ≡ true
      → leg_at chain token k d ≡ leg_at chain token strike side
  same_leg chain token k strike ce ce h =
      ap (λ x. leg_at chain token x ce) (eq_of_parts k strike (ground arith))
  same_leg chain token k strike pe pe h =
      ap (λ x. leg_at chain token x pe) (eq_of_parts k strike (ground arith))
  same_leg chain token k strike ce pe h = absurd (ground arith)
  same_leg chain token k strike pe ce h = absurd (ground arith)

  -- After a tick for a strike of the chain, with numbers that JSON keeps and five levels: the vessel's
  -- leg there has the tick's values, and where the tick has none it has what it had before, so that no
  -- known value is lost; every other leg reads as before, and the chain has the same strikes.
  pub update_option_chain_leaf-Shows :
      (chain : FeedChain F) (strike : ℤ) (side : Side) (t : ParsedTick F) (token : String) (k : ℤ)
      (d : Side)
      → HasFive t
      → IsReadable t
      → has_strike strike chain ≡ true
      → Shows t (leg_at chain token strike side) (updated_leg chain strike side t token strike side)
        × (updated_leg chain strike side t token k d ≡ (
            if eqb_ℤ k strike && is_side d side
            then updated_leg chain strike side t token strike side
            else leg_at chain token k d))
        × (has_strike k (update_option_chain_leaf chain strike side t) ≡ has_strike k chain)
  update_option_chain_leaf-Shows chain strike side t token k d five r h = (
    rw (leg-existing token strike side chain, chain_leaf-update chain strike side t h)
        (merged_leaf-Shows (existing_at chain strike side) t token strike side five r),
    elim (Bool-cases (eqb_ℤ k strike && is_side d side)) [
      | inl e ↦
          rw e (same_leg (update_option_chain_leaf chain strike side t) token k strike d side e)
      | inr e ↦ rw e (ap (build_leg token k d) (chain_leaf-other chain strike side t k d e))
    ],
    has_strike-update chain strike side t k,
  )
