-- ===== src/Feed/Processor/Sync.antt =====
-- tick_processor.py keeps Redis and memory together: what is not dirty is stored, and the shutdown
-- stores the rest, as long as orjson takes the chains.
use pcr_momentum.Base.{
  ℕ, ◌+◌, ◌≡◌, refl, inl, inr, String, Bool, true, false, ◌&&◌, List, [], ◌∷◌, leb, arith,
  Bool-cases,
}
use pcr_momentum.Base.Int.{ℤ}
use pcr_momentum.Base.Dict.{Dict, get}
use pcr_momentum.Float.{Float}
use pcr_momentum.Json.{Try, raised, value, is_infinite}
use pcr_momentum.Feed.{ParsedTick, parse_tick}
use pcr_momentum.Feed.Shape.{Returns, Returns-mono, Any, is_shaped}
use pcr_momentum.Feed.Ticks.{AreTicksOf, feeds_in, parse_tick-AreTicks}
use pcr_momentum.Feed.Chain.{FeedChain}
use pcr_momentum.Feed.Processor.{
  Slot, DataPipelineState, Loop, Turn, quiet, failed, frame, Ending, ended, crashed, is_dirty,
  or_nil, apply_ticks, Turned, goes_on, stops, takes_all, flush_if, flush_when_due, take_ticks,
  turn, last_flush_of, tick_processor_loop,
}
use pcr_momentum.Feed.Processor.Keeping.{
  merge_parsed, merge_ticks, merge_turns, IsKept, flush_chains-IsKept, apply_ticks-IsKept,
  stored_eq,
}

module _ {F : Type 0} ⦃fl : Float F⦄ where
  -- Frames of the expected shape, at times that are no infinity.
  abbrev pub AreShaped : List (Turn F) → Type 0
  AreShaped [] = Unit
  AreShaped (quiet _ _ ∷ turns) = AreShaped turns
  AreShaped (failed ∷ turns) = AreShaped turns
  AreShaped (frame raw now _ ∷ turns) =
      (is_shaped raw ≡ true) × (is_infinite (fl.of_int now) ≡ false) × AreShaped turns

  module _ (takes : FeedChain F → Bool) where
    -- Memory has a chain that orjson refuses.
    abbrev pub HasRefused : DataPipelineState F → Type 0
    HasRefused s = (index : String) × (takes (or_nil (get index s.chain)) ≡ false)

    -- The loop ended, and memory and Redis hold this chain for the index; or it crashed on a chain in
    -- memory that orjson refuses.
    abbrev pub Holds : String → FeedChain F → Ending F → Type 0
    Holds j chain (ended s) =
        (or_nil (get j s.chain) ≡ chain) × (or_nil (get j s.redis.chains) ≡ chain)
    Holds j chain (crashed s) = HasRefused s

    refused_one :
        (dirty : List String) (s : DataPipelineState F)
        → takes_all takes dirty s.chain ≡ false
        → HasRefused s
    refused_one [] s h = absurd (ground arith)
    refused_one (index ∷ dirty) s h = elim (Bool-cases (takes (or_nil (get index s.chain)))) [
      | inl e ↦ refused_one dirty s (ground arith)
      | inr e ↦ (index, e)
    ]

    -- A turn keeps what is known, or stops on a chain that is refused.
    TurnsWell : Dict Slot → String → FeedChain F → Turned F → Type 0
    TurnsWell table j chain (goes_on l) = IsKept table j chain l.state l.dirty
    TurnsWell table j chain (stops s) = HasRefused s

    due-TurnsWell :
        (table : Dict Slot) (j : String) (chain : FeedChain F) (now : ℤ) (mono : ℕ) (l : Loop F)
        → IsKept table j chain l.state l.dirty
        → (b : Bool) → TurnsWell table j chain (flush_if takes now mono b l)
    unfolding TurnsWell
    due-TurnsWell table j chain now mono l h false = h
    due-TurnsWell table j chain now mono l h true =
        elim (Bool-cases (takes_all takes l.dirty l.state.chain)) [
          | inl e ↦ rw e (flush_chains-IsKept table j chain now l.dirty l.state h)
          | inr e ↦ rw e (refused_one l.dirty l.state e)
        ]

    flush_when_due-TurnsWell :
        (table : Dict Slot) (j : String) (chain : FeedChain F) (now : ℤ) (mono : ℕ) (l : Loop F)
        → IsKept table j chain l.state l.dirty
        → TurnsWell table j chain (flush_when_due takes now mono l)
    unfolding flush_when_due
    flush_when_due-TurnsWell table j chain now mono l h =
        due-TurnsWell table j chain now mono l h (leb (l.last_flush + 50) mono && is_dirty l.dirty)

    take_ticks-TurnsWell :
        (table : Dict Slot) (j : String) (chain : FeedChain F) (now : ℤ) (mono : ℕ)
        (r : Try (List (ParsedTick F))) (l : Loop F)
        → IsKept table j chain l.state l.dirty
        → Returns Any r
        → TurnsWell table j (merge_parsed table j r chain) (take_ticks takes now mono r l)
    take_ticks-TurnsWell table j chain now mono raised l h r = absurd r
    take_ticks-TurnsWell table j chain now mono (value ticks) l h r =
        flush_when_due-TurnsWell table j (merge_ticks table j ticks chain) now mono
          (apply_ticks now ticks l) (apply_ticks-IsKept table j chain now ticks l h)

    shutdown-Holds :
        (table : Dict Slot) (j : String) (chain : FeedChain F) (now : ℤ) (l : Loop F)
        → IsKept table j chain l.state l.dirty
        → Holds j chain (last_flush_of takes now l)
    shutdown-Holds table j chain now l h =
        let kept = flush_chains-IsKept table j chain now l.dirty l.state h in
        elim (Bool-cases (takes_all takes l.dirty l.state.chain)) [
          | inl e ↦ rw e (kept.memory, stored_eq kept.stored)
          | inr e ↦ rw e (refused_one l.dirty l.state e)
        ]

    continue-Holds :
        (table : Dict Slot) (j : String) (chain : FeedChain F) (now : ℤ) (turns : List (Turn F))
        (r : Turned F)
        → ((l' : Loop F)
            → IsKept table j chain l'.state l'.dirty
            → Holds j (merge_turns table j turns chain) (tick_processor_loop takes now turns l'))
        → TurnsWell table j chain r
        → Holds j
            (merge_turns table j turns chain)
            (elim r [ goes_on l' ↦ tick_processor_loop takes now turns l' | stops s ↦ crashed s ])
    unfolding TurnsWell
    continue-Holds table j chain now turns (goes_on l') rest h = rest l' h
    continue-Holds table j chain now turns (stops s) rest h = h

    loop-Holds :
        (table : Dict Slot) (j : String) (chain : FeedChain F) (now : ℤ) (turns : List (Turn F))
        (l : Loop F)
        → AreShaped turns
        → IsKept table j chain l.state l.dirty
        → Holds j (merge_turns table j turns chain) (tick_processor_loop takes now turns l)
    unfolding tick_processor_loop merge_turns turn
    loop-Holds table j chain now [] l a h = shutdown-Holds table j chain now l h
    loop-Holds table j chain now (quiet clock mono ∷ turns) l a h =
        continue-Holds table j chain now turns (flush_when_due takes clock mono l)
          (λ l' k. loop-Holds table j chain now turns l' a k)
          (flush_when_due-TurnsWell table j chain clock mono l h)
    loop-Holds table j chain now (failed ∷ turns) l a h = loop-Holds table j chain now turns l a h
    loop-Holds table j chain now (frame raw clock mono ∷ turns) l a h =
        let merged = merge_parsed table j (parse_tick clock raw) chain in
        continue-Holds table j merged now turns
          (take_ticks takes clock mono (parse_tick clock raw) l)
          (λ l' k. loop-Holds table j merged now turns l' a.2 k)
          (take_ticks-TurnsWell table j chain clock mono (parse_tick clock raw) l h (
            Returns-mono (AreTicksOf (feeds_in raw)) Any (parse_tick clock raw)
              (parse_tick-AreTicks clock raw a.1 a.0) (λ _ _. tt)))

  -- The processor, started with a chain of an index that Redis holds too, on frames of the expected
  -- shape at times that are no infinity: it runs to the shutdown, and then memory and Redis both hold
  -- that chain with every tick of the frames merged in, in their order, whose token stands for a leg of
  -- the index, and nothing else has changed it; or it crashes before, and then memory has a chain that
  -- orjson refuses.
  pub tick_processor_loop-Holds :
      (takes : FeedChain F → Bool) (now : ℤ) (turns : List (Turn F)) (mono : ℕ)
      (s : DataPipelineState F) (j : String)
      → AreShaped turns
      → or_nil (get j s.redis.chains) ≡ or_nil (get j s.chain)
      → Holds takes j (merge_turns s.token_index j turns (or_nil (get j s.chain))) (
          tick_processor_loop takes now turns (record { state = s; dirty = []; last_flush = mono }))
  tick_processor_loop-Holds takes now turns mono s j a e =
      loop-Holds takes s.token_index j (or_nil (get j s.chain)) now turns
        (record { state = s; dirty = []; last_flush = mono }) a
        (record { table_eq = refl; memory = refl; stored = inr e })
