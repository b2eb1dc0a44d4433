-- ===== src/Init/Template.antt =====
-- The template of the option chain has the strikes of the window, and the right contract at each leg.
use pcr_momentum.Base.{
  ◌≡◌, refl, ap, ◌∙◌, Bool, true, false, ◌&&◌, Option, none, some, List, [], ◌∷◌, if◌then◌else◌,
  arith,
}
use pcr_momentum.Base.Int.{ℤ, eqb_ℤ}
use pcr_momentum.Float.{Float}
use pcr_momentum.Snapshot.{Side, ce, pe}
use pcr_momentum.Json.{Fields}
use pcr_momentum.Feed.Chain.{Strike, FeedChain}
use pcr_momentum.Feed.Chain.Leaves.{has_strike}
use pcr_momentum.Feed.Chain.Merging.{is_side}
use pcr_momentum.Init.{
  Contract, mem_ℤ, template_leaf, empty_chain, put_leg, put_contract, put_contracts,
  build_option_chain_template,
}

abbrev pub leaf_of : {F : Type 0} → Side → Strike F → Option (Fields F)
leaf_of ce s = s.ce_leaf
leaf_of pe s = s.pe_leaf

abbrev pub leaf_at : {F : Type 0} → ℤ → Side → FeedChain F → Option (Fields F)
leaf_at k d [] = none
leaf_at k d (s ∷ chain) = if eqb_ℤ s.strike k then leaf_of d s else leaf_at k d chain

abbrev pub on_side : Side → Option Side → Bool
on_side d none = false
on_side d (some side) = is_side d side

abbrev pub or_this : {A : Type 0} → Option A → Option A → Option A
or_this none y = y
or_this (some x) y = some x

-- The last contract at a strike and on a side.
abbrev pub last_contract : ℤ → Side → List Contract → Option Contract
last_contract k d [] = none
last_contract k d (c ∷ contracts) =
    or_this (last_contract k d contracts)
      (if eqb_ℤ k c.strike_price && on_side d c.side then some c else none)

has_strike-empty :
    (F : Type 0) ⦃fl : Float F⦄ (strikes : List ℤ) (j : ℤ)
    → has_strike {F = F} j (empty_chain strikes) ≡ mem_ℤ j strikes
unfolding empty_chain
has_strike-empty F [] j = refl
has_strike-empty F (k ∷ strikes) j = ground (arith, has_strike-empty F strikes j)

module _ {F : Type 0} ⦃fl : Float F⦄ where
  abbrev pub leaf_or : Option (Fields F) → Option Contract → Option (Fields F)
  leaf_or o none = o
  leaf_or o (some c) = some (template_leaf c)

  has_strike-put_leg :
      (k j : ℤ) (side : Side) (leaf : Fields F) (chain : FeedChain F)
      → has_strike j (put_leg k side leaf chain) ≡ has_strike j chain
  unfolding put_leg
  has_strike-put_leg k j side leaf [] = refl
  has_strike-put_leg k j ce leaf (s ∷ chain) = ground (arith, has_strike-put_leg k j ce leaf chain)
  has_strike-put_leg k j pe leaf (s ∷ chain) = ground (arith, has_strike-put_leg k j pe leaf chain)

  leaf_at-put_leg :
      (k j : ℤ) (side d : Side) (leaf : Fields F) (chain : FeedChain F)
      → has_strike j chain ≡ true
      → leaf_at j d (put_leg k side leaf chain)
        ≡ (if eqb_ℤ j k && is_side d side then some leaf else leaf_at j d chain)
  unfolding put_leg
  leaf_at-put_leg k j side d leaf [] h = cc
  leaf_at-put_leg k j ce ce leaf (s ∷ chain) h =
      ground (arith, leaf_at-put_leg k j ce ce leaf chain)
  leaf_at-put_leg k j ce pe leaf (s ∷ chain) h =
      ground (arith, leaf_at-put_leg k j ce pe leaf chain)
  leaf_at-put_leg k j pe ce leaf (s ∷ chain) h =
      ground (arith, leaf_at-put_leg k j pe ce leaf chain)
  leaf_at-put_leg k j pe pe leaf (s ∷ chain) h =
      ground (arith, leaf_at-put_leg k j pe pe leaf chain)

  has_strike-put_contract :
      (c : Contract) (o : Option Side) (j : ℤ) (chain : FeedChain F)
      → has_strike j (put_contract c o chain) ≡ has_strike j chain
  has_strike-put_contract c none j chain = refl
  has_strike-put_contract c (some side) j chain =
      has_strike-put_leg c.strike_price j side (template_leaf c) chain

  leaf_at-put_contract :
      (c : Contract) (o : Option Side) (j : ℤ) (d : Side) (chain : FeedChain F)
      → has_strike j chain ≡ true
      → leaf_at j d (put_contract c o chain)
        ≡ leaf_or
            (leaf_at j d chain)
            (if eqb_ℤ j c.strike_price && on_side d o then some c else none)
  leaf_at-put_contract c none j d chain h = ground arith
  leaf_at-put_contract c (some side) j d chain h =
      leaf_at-put_leg c.strike_price j side d (template_leaf c) chain h ∙ ground arith

  leaf_or-or_this :
      (o : Option (Fields F)) (x y : Option Contract)
      → leaf_or (leaf_or o y) x ≡ leaf_or o (or_this x y)
  leaf_or-or_this o none y = refl
  leaf_or-or_this o (some c) y = refl

  leaf_at-put_contracts :
      (contracts : List Contract) (j : ℤ) (d : Side) (chain : FeedChain F)
      → has_strike j chain ≡ true
      → leaf_at j d (put_contracts contracts chain)
        ≡ leaf_or (leaf_at j d chain) (last_contract j d contracts)
  unfolding put_contracts
  leaf_at-put_contracts [] j d chain h = refl
  leaf_at-put_contracts (c ∷ contracts) j d chain h =
      leaf_at-put_contracts contracts j d (put_contract c c.side chain)
        (has_strike-put_contract c c.side j chain ∙ h)
      ∙ ap (λ o. leaf_or o (last_contract j d contracts))
          (leaf_at-put_contract c c.side j d chain h)
      ∙ leaf_or-or_this (leaf_at j d chain) (last_contract j d contracts)
          (if eqb_ℤ j c.strike_price && on_side d c.side then some c else none)

  has_strike-put_contracts :
      (contracts : List Contract) (j : ℤ) (chain : FeedChain F)
      → has_strike j (put_contracts contracts chain) ≡ has_strike j chain
  unfolding put_contracts
  has_strike-put_contracts [] j chain = refl
  has_strike-put_contracts (c ∷ contracts) j chain =
      has_strike-put_contracts contracts j (put_contract c c.side chain)
      ∙ has_strike-put_contract c c.side j chain

  leaf_at-empty :
      (strikes : List ℤ) (j : ℤ) (d : Side) → leaf_at {F = F} j d (empty_chain strikes) ≡ none
  unfolding empty_chain
  leaf_at-empty [] j d = refl
  leaf_at-empty (k ∷ strikes) j ce = ground (arith, leaf_at-empty strikes j ce)
  leaf_at-empty (k ∷ strikes) j pe = ground (arith, leaf_at-empty strikes j pe)

  -- The template has exactly the given strikes, and at each strike of it, on each side, the
  -- placeholders of the last contract that is listed for that strike and side; without such a contract
  -- the side is missing.
  pub build_option_chain_template-last :
      (contracts : List Contract) (strikes : List ℤ) (k j : ℤ) (d : Side)
      → mem_ℤ j strikes ≡ true
      → (has_strike k (build_option_chain_template {F = F} contracts strikes) ≡ mem_ℤ k strikes)
        × (leaf_at {F = F} j d (build_option_chain_template contracts strikes)
            ≡ leaf_or none (last_contract j d contracts))
  unfolding build_option_chain_template
  build_option_chain_template-last contracts strikes k j d h = (
    has_strike-put_contracts contracts k (empty_chain strikes) ∙ has_strike-empty F strikes k,
    leaf_at-put_contracts contracts j d (empty_chain strikes) (has_strike-empty F strikes j ∙ h)
        ∙ ap (λ o. leaf_or o (last_contract j d contracts)) (leaf_at-empty strikes j d),
  )
