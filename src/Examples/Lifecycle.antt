-- ===== src/Examples/Lifecycle.antt =====
-- Runs of the theorems on the life cycle: two threads shut a running program down while a third
-- reports a failure.
use intimatr.Prelude.{ℕ, ◌+◌, ◌≤◌, ◌≡◌, false, List, [], ◌∷◌, map}
use intimatr.Lifecycle.{
  running, failed, Call, begin_shutdown, mark_failed, Thread, calling, mark_failed_read,
  shutdown_loop, current_state, run,
}
use intimatr.Lifecycle.Forward.{rank, unclaimed, wins}
use intimatr.Lifecycle.Once.{shutdown_once, never_back}
use intimatr.Lifecycle.Alone.{alone, in_state, meaning, alone-meaning}

abbrev calls : List Call
calls = begin_shutdown ∷ mark_failed ∷ begin_shutdown ∷ []

-- The failure is read before the first shutdown wins, and written after.
abbrev schedule : List ℕ
schedule = 0 ∷ 1 ∷ 2 ∷ 0 ∷ 2 ∷ 0 ∷ 1 ∷ 2 ∷ 1 ∷ 2 ∷ 2 ∷ 1 ∷ []

shutdown_once_example :
    wins (run schedule (in_state running false) (map calling calls)).1
      + unclaimed (current_state (run schedule (in_state running false) (map calling calls)).0)
    ≤ unclaimed (current_state (in_state running false))
shutdown_once_example = shutdown_once schedule (in_state running false) calls

abbrev threads : List Thread
threads = shutdown_loop ∷ mark_failed_read running ∷ []

never_back_example :
    rank (current_state (in_state running false))
    ≤ rank (current_state (run schedule (in_state running false) threads).0)
never_back_example = never_back schedule (in_state running false) threads

alone-meaning_example :
    alone 3 (in_state failed false) (calling begin_shutdown) ≡ meaning begin_shutdown failed false
alone-meaning_example = alone-meaning begin_shutdown failed false
