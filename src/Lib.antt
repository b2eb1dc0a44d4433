-- ===== src/Lib.antt =====
-- The data pipeline, the decision core and the order engine of an options trading bot on several
-- indexes, with the engines that watch over them.
--
-- The data pipeline (backend/engines/data_pipeline) parses the broker's frames and keeps the
-- option chain of each index in Redis. A vessel is one strategy on one index. Its loop
-- (backend/engines/strategy/runner.py) reads the option chain, keeps a basket of strikes around
-- the money, builds a snapshot, lets the strategy decide, and publishes a signal. The order engine
-- (backend/engines/order_exec) takes it from the stream (dispatcher), passes it through a gate,
-- reserves capital, enters, watches the position and closes it; a flip closes the held position
-- first. The reports of closed positions wait in a queue that the background engine drains; the
-- health engine probes all parts, and the scheduler fires the jobs of a day. All state is in
-- Redis; here it is records that the operations take and return.
--
-- Which file models which part, with directories in
-- backend/engines/strategy/strategies/bid_ask_imbalance unless a path is given:
--   Snapshot           snapshot.py: build_snapshot and the reading of JSON leaves
--   Buffer             buffer.py: StrikeBuffer.push, last_n, BufferStore.buffer_for, discard
--   Metrics            metrics/imbalance.py, spread.py, aggressor.py, pressure.py, cumulative.py
--   Metrics.Wall, Metrics.TickSpeed, Metrics.Quality
--                      metrics/ask_wall.py, tick_speed.py, quality_score.py
--   Decisions.*        decisions/entry_gates.py, continuation.py, reversal.py, timing.py
--   Basket             basket.py: compute_strike_set, compute_atm, maybe_shift_basket
--   Strategy.*         strategy.py: on_tick in its four phases (Observe, Held, Flat, Tick), and
--                      backend/engines/strategy/strategies/base.py: Action
--   Publisher          backend/engines/strategy/publisher.py: emit_signal, and in Publisher.Fields
--                      the fields of its stream entry
--   Vessel             state.py: the state machine of the vessel
--   Vessel.Runner      backend/engines/strategy/runner.py: one pass of vessel_loop (vessel_pass)
--   Vessel.Router      backend/engines/strategy/ingestion.py: TickRouter
--   Exec               backend/state/schemas/position.py and the words of the broker's stream
--   Exec.ExitEval      backend/engines/order_exec/exit_eval.py: evaluate, update_trailing_state
--   Exec.Allocator     backend/engines/order_exec/allocator.py: check_and_reserve, release
--   Exec.Gate          backend/engines/order_exec/pre_entry_gate.py: check, check_and_reserve
--   Exec.Entry         backend/engines/order_exec/entry.py: the paper fill and the live monitor loop
--   Exec.ExitSubmit    backend/engines/order_exec/exit_submit.py: the paper fill and the live exit
--                      loop
--   Exec.Worker        backend/engines/order_exec/worker.py: the watch over a position (watch), the
--                      vessel's keys after an entry and an exit
--   Exec.Worker.Signals
--                      backend/engines/order_exec/worker.py: process_signal for a fresh entry, with
--                      the routing by mode of entry.py and exit_submit.py beside it
--   Exec.Worker.Flip   backend/engines/order_exec/worker.py: _close_existing_position_for_flip, and
--                      process_signal for a reversal, with cleanup.py
--   Exec.Dispatcher    backend/engines/order_exec/dispatcher.py: _signal_from_payload and
--                      dispatcher_loop
--   Json               Python's values of JSON, dict.get and `or`, and calls that may raise
--   Feed               backend/engines/data_pipeline/parser.py: parse_tick
--   Feed.Chain         backend/engines/data_pipeline/aggregator.py: update_option_chain_leaf,
--                      update_spot_snapshot
--   Feed.Processor     backend/engines/data_pipeline/tick_processor.py and state.py: the loop
--   Feed.Boot          backend/engines/data_pipeline/main.py: the token table of _load_state;
--                      subscription_manager.py; the gate of pre_market_subscriber.py
--   Init               backend/engines/init/strike_basket_builder.py: build_for_index, its helpers
--   Scheduler          backend/engines/scheduler/jobs.py and main.py, and the consumer of their
--                      events in backend/engines/background/main.py
--   Health             backend/engines/health/probes.py and main.py, and update_ws_status of
--                      aggregator.py
--   Background         backend/engines/background/report_drainer.py and kill_switch_poller.py
-- The modules below these hold proofs, and are named for what they prove. Examples applies the
-- theorems to concrete data.
--
-- Numbers. Python's integers are Base.Int.ℤ, over the native numbers. A float is an element of a
-- type F with the operations of Float.Float, a parameter, so nothing is assumed of rounding; where
-- the order matters a theorem takes Float.IsOrdered, the laws of the comparisons of doubles,
-- not-a-number included. Float.Fixed, whole thousandths, meets them and is what the examples
-- compute with. Integers that the source turns into floats are taken to convert as `of_int` does.
--
-- Time. Clocks are arguments: milliseconds since the epoch, a time of day in microseconds
-- (Decisions.Timing) or in minutes (Exec). A text "HH:MM" of the source orders as its minutes.
--
-- Loops. The loops over legs, strikes and windows are structural. The five attempts of a
-- transaction of the allocator are counted down, so they end. The live loops of entry and exit run
-- over the list of what each pass meets: for an entry the passes before its deadline, for an exit
-- any number of them. What Redis, the broker and its stream answer are arguments; a pass of the
-- exit has apart what the stream brings before its read blocks, which is not seen behind the
-- cursor "$".
--
-- Exceptions. A call that may raise out of its caller returns Json.Try or an ending of its own;
-- where the source catches, the model has the caught branch. process_signal may raise at each of its
-- stages, by the validation of its position, and by its exit. int(x) of an infinite float, an
-- OverflowError, is modelled in the parser of frames; elsewhere floats that become integers are
-- taken to be finite. Whether orjson.dumps takes a chain is a parameter.
--
-- Not modelled: start-up of the engines, the connection to the feed and the calls that subscribe
-- to it, the report of a closed position, the other background tasks, the API engine and the
-- broker's client, which are input and output around this core or are left for later; logs and
-- telemetry; the timestamps and latencies of reports; the reload of the config; the trimming of
-- streams; errors of Redis, except in the allocator, the stream reads, the drainer and the
-- scheduler's events.
pub mod Base
pub mod Float
pub mod Json
pub mod Snapshot
pub mod Buffer
pub mod Metrics
pub mod Decisions
pub mod Basket
pub mod Strategy
pub mod Publisher
pub mod Vessel
pub mod Exec
pub mod Feed
pub mod Init
pub mod Scheduler
pub mod Health
pub mod Background
pub mod Examples
