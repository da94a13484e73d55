-- ===== src/Lib.antt =====
-- Intimatr is a library that is loaded into an offline game: it scales the game's timers and
-- scans its memory. This is a model of its portable core, with the theorems that make it correct.
--
-- The parts and their files
--
-- * src/speed.rs, the virtual clock: Speed/Clock. VirtualClock, `sample`, `set_multiplier` and
--   `reset`; `reanchor` is what `set_multiplier` does once it has accepted its speed.
--   Speed/Clock/Scaled is the scaling of ticks, Speed/Clock/Laws the invariant,
--   Speed/Clock/Changes speed changes, Speed/Clock/Trace sequences of calls.
-- * src/speed_timers.rs, the projection of the clock into the Windows timers: Speed/Timers.
-- * src/speed_config.rs, the settings and `validate`: Speed/Config.
-- * src/speed_policy.rs, the rules for bottles and executables: Speed/Policy, with the keys in
--   Speed/Identity. `check_effective` is what `validate_overrides` and `resolve_for` do to
--   settings, `validate_bottles` and `validate_games` are its loops. Speed/Policy/Laws is the
--   resolution of a profile, Speed/Policy/Launch the profile of a launch.
-- * src/speed_controls.rs, presets, toggle and hold: Speed/Controls. `start` is the state that
--   `new` builds from valid settings, `toggled` the body of `toggle`, `activate_found` the `if
--   let` of `increase` and `decrease`.
-- * src/speed_session.rs, controls and timers behind one boundary, with the deadlines of
--   temporary speeds: Speed/Session. `next_deadline`, `restore`, `expire` and `advance` are the
--   parts of the loop of `advance_deadlines`; `control`, `commit` and `finish` those of `apply`.
-- * src/speed_hotkeys.rs, the grammar of chords, the compiler of bindings and the dispatcher:
--   Speed/Hotkeys, with `on_press`, `release_hold` and `fire` as the parts of `on_key`.
-- * src/speed_input.rs, the edge detector between snapshots of keys and the dispatcher:
--   Speed/Input.
-- * src/speed_coordinator.rs, which feeds what the pump sends to the session: Speed/Coordinator.
-- * src/speed_commands.rs, requests and the executor that holds the preview: Speed/Preview has
--   its data, Speed/Commands its operations. `armed_session` and `reset_target` are the parts of
--   `arm_selected_game_session`, `request_session` and `sample_session` what a command and a
--   sample do to the session, `apply_each` the loop over actions. The clock in the target and the
--   executor behind this one are parameters. Speed/Commands/Laws is the invariant and the
--   refusals, Speed/Commands/Samples samples and polls, Speed/Commands/Arming an arm.
-- * src/speed_window.rs, the choice of a window and its epoch: Speed/Window. `select` is the loop
--   of `choose_unique`, and `watch` in its laws feeds the epoch's snapshots to the input pump.
-- * src/lifecycle.rs, the life cycle in atomics: Lifecycle. A call is a sequence of atomic steps
--   (`step`), and `run` interleaves the steps of threads in any order.
-- * src/scanner/predicate.rs, the predicates of scans: Scanner/Predicate. `evaluate` is `matches`
--   past its first test.
-- * src/scanner/value.rs, values and their bytes: Scanner/Value. `value_of` is `decode` of the
--   right number of bytes, `narrow_signed` and `narrow_unsigned` are the arms of `encode` that
--   may fail.
-- * src/memory.rs, regions and typed reads and writes: Scanner/Memory. The memory is a parameter.
-- * src/scanner/engine.rs, the scans: Scanner/Engine has the options, the chunks of a region
--   (`cut` is the loop that cuts one) and the result slots; Scanner/Next is
--   `next_scan_with_progress`. A worker is a state between two steps, `step` the way
--   to the next (`take_batch`, `judge` and `settle` up to a match, `keep` from there on), and a
--   run is a list of turns and of cancellations in any order. A step takes a batch, reads the
--   token, judges a candidate or reserves a slot: the reservation with the two flags it may set,
--   and the additions to the counts that no worker reads, are one step.
--   Scanner/Next/Weights counts what is kept and left, Counters the index of the next batch,
--   Flags the slots and the token, Reached the invariant; Sorting, Order and Joined are about the
--   results, Progress about what workers have left to do, and Complete and Ends about the whole
--   scan.
-- * src/analysis.rs, of which the search for a pattern of bytes: Analysis. `parse_bytes` is the
--   loop of `BytePattern::parse`; `scan_offsets`, `scan_chunks` and `scan_regions` are those of
--   `scan_pattern`. Analysis/Hits is what is kept of a list of matches, Analysis/Offsets the
--   search in a chunk, Analysis/Chunks the chunks of a region, and Analysis/Whole the whole
--   search.
--
-- Prelude holds the shared names and lemmas, with the interleaving of threads in Prelude/Threads;
-- Float is the arithmetic of `f64`, with its bits and those of `f32` in Float/Bits, and Examples
-- has test data and runs.
--
-- How the source is read
--
-- A method that changes its receiver returns the new state with its result, and one that fails
-- returns the state as it has left it. A `Result` is a data type with bind, and the messages of
-- errors that are texts are constructors, but for those of settings. A u64 is a number below
-- 2^64; saturating, checked and wrapping operations are written out, and a `usize` has 64 bits.
-- An `f64` is IEEE 754 binary64, exactly: a finite value is a sign and a magnitude in units of
-- 2^-1074, and the operations round to nearest, ties to even; the bits of a NaN are not told
-- apart, and are written as those of `f64::NAN`. A byte is a number below 256, and a text a list
-- of characters or, in a chord, of bytes. A HashSet or BTreeSet is a list, sorted where its order
-- is read. The atomics are sequentially consistent.
--
-- Fuel
--
-- The loop over deadlines has fuel 3: each round clears one of two deadlines. The loop that cuts
-- a region has one round more than the region has bytes, and so has the search for a pattern. All
-- are shown to be enough.
--
-- A run of the next scan is bounded by its list of turns: six rounds of turns for each candidate
-- and 128 more are shown to be enough, whatever the order of the turns within a round.
--
-- Not modelled
--
-- The reading of TOML and JSON, logging, clocks and reports of progress, mutexes that are
-- poisoned, and everything that calls the operating system: the platform's memory, threads of the
-- runtime, sockets, windows, processes, the user interface. The memory does not change while a
-- scan runs. The workers of the first scan, which take the chunks, are left out, and so are the
-- rest of src/analysis.rs, the command executor and its pool behind the preview, the debugger,
-- the frames of the RPC and the hooks.
pub mod Prelude
pub mod Float
pub mod Speed
pub mod Lifecycle
pub mod Scanner
pub mod Analysis
pub mod Examples
