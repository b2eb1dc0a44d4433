-- ===== src/Examples/Routes.antt =====
-- Vessels that come and go at the router of ticks, on concrete data.
use pcr_momentum.Base.{◌≡◌, refl, List, [], ◌∷◌}
use pcr_momentum.Feed.Processor.{mem}
use pcr_momentum.Vessel.Router.{
  Happening, registers, unregisters, turns, starts, tick, timeout, listeners, reconcile, run_router,
}
use pcr_momentum.Vessel.Router.Channels.{no_router, has_any, reconcile-listeners}

abbrev happenings : List Happening
happenings =
    registers "C1" 1
    ∷ registers "C1" 2
    ∷ starts
    ∷ turns (tick "C1")
    ∷ registers "C2" 2
    ∷ unregisters "C1" 1
    ∷ turns timeout
    ∷ unregisters "C1" 2
    ∷ []

reconcile-listeners_example :
    mem "C1" (reconcile (run_router happenings no_router)).subscribed
    ≡ has_any (listeners "C1" (run_router happenings no_router))
unfolding run_router reconcile pcr_momentum.Vessel.Router.loop_turn pcr_momentum.Base.Dict.put
reconcile-listeners_example = reconcile-listeners happenings "C1" refl
