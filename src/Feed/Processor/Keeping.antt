-- ===== src/Feed/Processor/Keeping.antt =====
-- What the ticks make of the chain of an index, and what memory and Redis hold of it after each step.
use mathlib.Core.Path.{subst}
use pcr_momentum.Base.{
  ◌≡◌, refl, ◌∙◌, ◌⊎◌, inl, inr, String, str_eq, eq_iff, Bool, true, false, ◌||◌, Option, none,
  some, List, [], ◌∷◌, if◌then◌else◌, arith, Bool-cases,
}
use pcr_momentum.Base.Int.{ℤ}
use pcr_momentum.Base.Dict.{Dict, get, put, get-put}
use pcr_momentum.Float.{Float}
use pcr_momentum.Json.{Try, raised, value, or_null}
use pcr_momentum.Feed.{ParsedTick, parse_tick}
use pcr_momentum.Feed.Chain.{FeedChain, update_option_chain_leaf}
use pcr_momentum.Feed.Processor.{
  Slot, spot, leg, DataPipelineState, Loop, Turn, quiet, failed, frame, mem, add, or_nil, seen,
  read_prev_close, emit_tick, process_one_tick, spot_tick, counted, apply_known, flushed,
  flush_chains, apply_tick, apply_ticks,
}

mem-add : (j x : String) (xs : List String) → mem j (add x xs) ≡ (str_eq j x || mem j xs)
mem-add j x xs = ground (arith, eq_iff j x)

pub stored_eq : {A : Type 0} {a b : A} → (false ≡ true) ⊎ (a ≡ b) → a ≡ b
stored_eq (inl e) = absurd (ground arith)
stored_eq (inr e) = e

module _ {F : Type 0} ⦃fl : Float F⦄ where
  -- The chain of index j after one tick, some ticks, and the frames of some turns.
  abbrev merge_slot : String → Option Slot → ParsedTick F → FeedChain F → FeedChain F
  merge_slot j (some (leg i strike side)) tick chain =
      if str_eq i j then update_option_chain_leaf chain strike side tick else chain
  merge_slot j _ tick chain = chain

  unfoldable pub merge_ticks : Dict Slot → String → List (ParsedTick F) → FeedChain F → FeedChain F
  merge_ticks table j [] chain = chain
  merge_ticks table j (tick ∷ ticks) chain =
      merge_ticks table j ticks (merge_slot j (get tick.token table) tick chain)

  abbrev pub merge_parsed :
      Dict Slot → String → Try (List (ParsedTick F)) → FeedChain F → FeedChain F
  merge_parsed table j raised chain = chain
  merge_parsed table j (value ticks) chain = merge_ticks table j ticks chain

  unfoldable pub merge_turns : Dict Slot → String → List (Turn F) → FeedChain F → FeedChain F
  merge_turns table j [] chain = chain
  merge_turns table j (quiet _ _ ∷ turns) chain = merge_turns table j turns chain
  merge_turns table j (failed ∷ turns) chain = merge_turns table j turns chain
  merge_turns table j (frame raw now _ ∷ turns) chain =
      merge_turns table j turns (merge_parsed table j (parse_tick now raw) chain)

  -- Memory holds the chain, and so does Redis unless the index is dirty.
  pub record IsKept (table : Dict Slot) (j : String) (chain : FeedChain F) (s : DataPipelineState F)
      (dirty : List String) : Type 0 where
    pub table_eq : s.token_index ≡ table
    pub memory : or_nil (get j s.chain) ≡ chain
    pub stored : (mem j dirty ≡ true) ⊎ (or_nil (get j s.redis.chains) ≡ chain)

  spot-IsKept :
      (table : Dict Slot) (j : String) (chain : FeedChain F) (i : String) (tick : ParsedTick F)
      (prev : Try (Option F)) (s : DataPipelineState F) (l : Loop F)
      → IsKept table j chain s l.dirty
      → let l' = counted (spot i) (spot_tick i tick prev s) l in
        IsKept table j chain l'.state l'.dirty
  unfolding emit_tick
  spot-IsKept table j chain i tick raised s l h = h
  spot-IsKept table j chain i tick (value prev) s l h = record {
    table_eq = h.table_eq;
    memory = h.memory;
    stored = h.stored;
  }

  -- Where index i is marked, another keeps what was known of it.
  marked :
      (j i : String) (dirty : List String) {a b : FeedChain F} (c : FeedChain F)
      → (mem j dirty ≡ true) ⊎ (a ≡ b)
      → (mem j (add i dirty) ≡ true) ⊎ (a ≡ (if str_eq i j then c else b))
  marked j i dirty c (inl m) = inl (mem-add j i dirty ∙ ground arith)
  marked j i dirty c (inr e) = elim (Bool-cases (str_eq i j)) [
    | inl q ↦ inl (mem-add j i dirty ∙ ground (arith, eq_iff i j, eq_iff j i))
    | inr q ↦ rw q (inr e)
  ]

  process-IsKept :
      (table : Dict Slot) (j : String) (chain : FeedChain F) (now : ℤ) (slot : Slot)
      (tick : ParsedTick F) (l : Loop F)
      → IsKept table j chain l.state l.dirty
      → let l' = counted slot (process_one_tick now slot tick l.state) l in
        IsKept table j (merge_slot j (some slot) tick chain) l'.state l'.dirty
  unfolding process_one_tick emit_tick
  process-IsKept table j chain now (spot i) tick l h =
      spot-IsKept table j chain i tick (read_prev_close (or_null (get i l.state.prev_closes)))
        (seen now tick l.state) l
        (record { table_eq = h.table_eq; memory = h.memory; stored = h.stored })
  process-IsKept table j chain now (leg i strike side) tick l h = record {
    table_eq = h.table_eq;
    memory = ground (
      arith,
      get-put i j (update_option_chain_leaf (or_nil (get i l.state.chain)) strike side tick)
          l.state.chain,
      eq_iff i j,
    );
    stored = marked j i l.dirty (update_option_chain_leaf chain strike side tick) h.stored;
  }

  known-IsKept :
      (table : Dict Slot) (j : String) (chain : FeedChain F) (now : ℤ) (o : Option Slot)
      (tick : ParsedTick F) (l : Loop F)
      → IsKept table j chain l.state l.dirty
      → let l' = apply_known now o tick l in
        IsKept table j (merge_slot j o tick chain) l'.state l'.dirty
  known-IsKept table j chain now none tick l h = h
  known-IsKept table j chain now (some slot) tick l h =
      process-IsKept table j chain now slot tick l h

  apply_tick-IsKept :
      (table : Dict Slot) (j : String) (chain : FeedChain F) (now : ℤ) (tick : ParsedTick F)
      (l : Loop F)
      → IsKept table j chain l.state l.dirty
      → let l' = apply_tick now tick l in
        IsKept table j (merge_slot j (get tick.token table) tick chain) l'.state l'.dirty
  unfolding apply_tick
  apply_tick-IsKept table j chain now tick l h =
      let l' = apply_tick now tick l in
      subst (λ tb. IsKept table j (merge_slot j (get tick.token tb) tick chain) l'.state l'.dirty)
        h.table_eq (known-IsKept table j chain now (get tick.token l.state.token_index) tick l h)

  pub apply_ticks-IsKept :
      (table : Dict Slot) (j : String) (chain : FeedChain F) (now : ℤ) (ticks : List (ParsedTick F))
      (l : Loop F)
      → IsKept table j chain l.state l.dirty
      → let l' = apply_ticks now ticks l in
        IsKept table j (merge_ticks table j ticks chain) l'.state l'.dirty
  unfolding apply_ticks merge_ticks
  apply_ticks-IsKept table j chain now [] l h = h
  apply_ticks-IsKept table j chain now (tick ∷ ticks) l h =
      apply_ticks-IsKept table j (merge_slot j (get tick.token table) tick chain) now ticks
        (apply_tick now tick l) (apply_tick-IsKept table j chain now tick l h)

  get-flushed :
      (dirty : List String) (memory stored : Dict (FeedChain F)) (j : String)
      → or_nil (get j (flushed dirty memory stored))
        ≡ (if mem j dirty then or_nil (get j memory) else or_nil (get j stored))
  unfolding flushed
  get-flushed [] memory stored j = refl
  get-flushed (i ∷ dirty) memory stored j = ground (
    arith,
    get-flushed dirty memory (put i (or_nil (get i memory)) stored) j,
    get-put i j (or_nil (get i memory)) stored,
    eq_iff i j,
    eq_iff j i,
  )

  flushed_eq :
      (b : Bool) {a c d : FeedChain F} → a ≡ c → (b ≡ true) ⊎ (d ≡ c) → (if b then a else d) ≡ c
  flushed_eq true p q = p
  flushed_eq false p (inl e) = absurd (ground arith)
  flushed_eq false p (inr e) = e

  -- After a flush the index is stored, dirty or not.
  pub flush_chains-IsKept :
      (table : Dict Slot) (j : String) (chain : FeedChain F) (now : ℤ) (dirty : List String)
      (s : DataPipelineState F)
      → IsKept table j chain s dirty
      → IsKept table j chain (flush_chains now dirty s) []
  unfolding flush_chains
  flush_chains-IsKept table j chain now [] s h = h
  flush_chains-IsKept table j chain now (i ∷ dirty) s h = record {
    table_eq = h.table_eq;
    memory = h.memory;
    stored = inr (
        get-flushed (i ∷ dirty) s.chain s.redis.chains j
        ∙ flushed_eq (mem j (i ∷ dirty)) h.memory h.stored);
  }
