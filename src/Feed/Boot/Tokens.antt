-- ===== src/Feed/Boot/Tokens.antt =====
-- Every leg in the token table is a leg of the chain of its index, with that token.
use mathlib.Core.Path.{subst}
use pcr_momentum.Base.{
  ◌≡◌, refl, inl, inr, String, str_eq, eq_iff, Bool, true, ◌&&◌, ◌||◌, Option, none, some, List, [],
  ◌∷◌, any, truthy, if◌then◌else◌, Bool-cases, arith,
}
use pcr_momentum.Base.Int.{ℤ, eqb_ℤ}
use pcr_momentum.Base.Dict.{Dict, get, get-put}
use pcr_momentum.Snapshot.{Side, ce, pe}
use pcr_momentum.Feed.Chain.{Strike, FeedChain}
use pcr_momentum.Feed.Processor.{Slot, spot, leg, mem, or_nil}
use pcr_momentum.Feed.Boot.{side_token, put_token, put_chain, build_token_index, text_or_empty}

or_first : (a b : Bool) → a ≡ true → (a || b) ≡ true
or_first a b h = ground arith

or_later : (a b : Bool) → b ≡ true → (a || b) ≡ true
or_later a b h = ground arith

both_same : (k : ℤ) (t : String) → (eqb_ℤ k k && str_eq t t) ≡ true
both_same k t = ground (arith, eq_iff t t)

module _ {F : Type 0} where
  -- The chain has a leg with this token at the strike.
  abbrev pub has_leg : String → ℤ → Side → FeedChain F → Bool
  has_leg token k d chain = any (λ s. eqb_ℤ s.strike k && str_eq (side_token d s) token) chain

  -- What a slot claims of a token.
  abbrev pub IsRight : Dict (FeedChain F) → List String → String → Slot → Type 0
  IsRight chains indexes token (spot index) = mem index indexes ≡ true
  IsRight chains indexes token (leg index k d) =
      (mem index indexes ≡ true) × (has_leg token k d (or_nil (get index chains)) ≡ true)

  abbrev IsRightOption : Dict (FeedChain F) → List String → String → Option Slot → Type 0
  IsRightOption chains indexes token none = Unit
  IsRightOption chains indexes token (some slot) = IsRight chains indexes token slot

  module _ (chains : Dict (FeedChain F)) (all : List String) where
    IsSound : Dict Slot → Type 0
    IsSound table = (token : String) → IsRightOption chains all token (get token table)

    chosen :
        (key token : String) (slot : Slot) (o : Option Slot)
        → IsRight chains all key slot
        → IsRightOption chains all token o
        → IsRightOption chains all token (if str_eq key token then some slot else o)
    chosen key token slot o r h = elim (Bool-cases (str_eq key token)) [
      | inl e ↦ rw e (subst (λ t. IsRight chains all t slot) ((eq_iff key token).0 e) r)
      | inr e ↦ rw e h
    ]

    put_token-IsSound :
        (key : String) (slot : Slot) (table : Dict Slot)
        → (truthy key ≡ true → IsRight chains all key slot)
        → IsSound table
        → IsSound (put_token key slot table)
    unfolding IsSound
    put_token-IsSound key slot table right h token = elim (Bool-cases (truthy key)) [
      | inl e ↦
          rw (e, get-put key token slot table)
            (chosen key token slot (get token table) (right e) (h token))
      | inr e ↦ rw e (h token)
    ]

    -- The legs of a part of the chain of an index are legs of that chain.
    IsPart : String → FeedChain F → Type 0
    IsPart index part =
        (t : String) (k : ℤ) (d : Side)
        → has_leg t k d part ≡ true
        → has_leg t k d (or_nil (get index chains)) ≡ true

    tail-IsPart :
        (index : String) (s : Strike F) (part : FeedChain F)
        → IsPart index (s ∷ part)
        → IsPart index part
    unfolding IsPart
    tail-IsPart index s part h t k d e =
        h t k d (or_later (eqb_ℤ s.strike k && str_eq (side_token d s) t) _ e)

    head_leg :
        (index : String) (s : Strike F) (part : FeedChain F) (d : Side)
        → IsPart index (s ∷ part)
        → has_leg (side_token d s) s.strike d (or_nil (get index chains)) ≡ true
    unfolding IsPart
    head_leg index s part d h = h (side_token d s) s.strike d (
        or_first (eqb_ℤ s.strike s.strike && str_eq (side_token d s) (side_token d s)) _
          (both_same s.strike (side_token d s)))

    put_chain-IsSound :
        (index : String) (part : FeedChain F) (table : Dict Slot)
        → mem index all ≡ true
        → IsPart index part
        → IsSound table
        → IsSound (put_chain index part table)
    unfolding put_chain
    put_chain-IsSound index [] table m p h = h
    put_chain-IsSound index (s ∷ part) table m p h =
        put_chain-IsSound index part
          (put_token (side_token pe s) (leg index s.strike pe)
            (put_token (side_token ce s) (leg index s.strike ce) table))
          m (tail-IsPart index s part p)
          (put_token-IsSound (side_token pe s) (leg index s.strike pe)
            (put_token (side_token ce s) (leg index s.strike ce) table)
            (λ _. (m, head_leg index s part pe p))
            (put_token-IsSound (side_token ce s) (leg index s.strike ce) table
              (λ _. (m, head_leg index s part ce p)) h))

    whole-IsPart : (index : String) → IsPart index (or_nil (get index chains))
    unfolding IsPart
    whole-IsPart index t k d h = h

    build-IsSound :
        (indexes : List String) (spot_tokens : Dict String) (table : Dict Slot)
        → ((i : String) → mem i indexes ≡ true → mem i all ≡ true)
        → IsSound table
        → IsSound (build_token_index indexes spot_tokens chains table)
    unfolding build_token_index
    build-IsSound [] spot_tokens table p h = h
    build-IsSound (index ∷ indexes) spot_tokens table p h =
        let m =
          p index
            (or_first (str_eq index index) (mem index indexes) ((eq_iff index index).1 refl)) in
        let with_spot = put_token (text_or_empty (get index spot_tokens)) (spot index) table in
        build-IsSound indexes spot_tokens (put_chain index (or_nil (get index chains)) with_spot)
          (λ i e. p i (or_later (str_eq i index) (mem i indexes) e))
          (put_chain-IsSound index (or_nil (get index chains)) with_spot m (whole-IsPart index) (
            put_token-IsSound (text_or_empty (get index spot_tokens)) (spot index) table (λ _. m)
              h))

    empty-IsSound : IsSound []
    unfolding IsSound get
    empty-IsSound token = tt

  -- The token table of the data pipeline is right: what it says of a token, a spot or a leg, is of one of
  -- the indexes, and a leg stands in that index's chain, at that strike and side, with that token.
  pub build_token_index-IsRight :
      (indexes : List String) (spot_tokens : Dict String) (chains : Dict (FeedChain F))
      (token : String) (slot : Slot)
      → get token (build_token_index indexes spot_tokens chains []) ≡ some slot
      → IsRight chains indexes token slot
  unfolding IsSound
  build_token_index-IsRight indexes spot_tokens chains token slot e =
      subst (IsRightOption chains indexes token) e (
        build-IsSound chains indexes indexes spot_tokens [] (λ i h. h)
          (empty-IsSound chains indexes) token)
