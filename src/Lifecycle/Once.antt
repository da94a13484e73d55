-- ===== src/Lifecycle/Once.antt =====
-- Interleaved calls on the life cycle (src/lifecycle.rs): shutdown is won once, and never undone.
use intimatr.Prelude.{ℕ, zero, suc, ◌+◌, ◌≤◌, ◌≡◌, refl, List, [], ◌∷◌, map, arith}
use intimatr.Lifecycle.{Lifecycle, Call, Thread, calling, current_state, step_at, run}
use intimatr.Lifecycle.Forward.{rank, unclaimed, wins, step-Forward}

-- The same for a list of threads.
record Onward (l : Lifecycle) (ts : List Thread) (p : Lifecycle × List Thread) : Type 0 where
  wins : wins p.1 + unclaimed (current_state p.0) ≤ wins ts + unclaimed (current_state l)
  rises : rank (current_state l) ≤ rank (current_state p.0)

step_at-Onward : (index : ℕ) (l : Lifecycle) (ts : List Thread) → Onward l ts (step_at index l ts)
unfolding step_at
step_at-Onward index l [] = record { wins = omega arith; rises = omega arith }
step_at-Onward zero l (t ∷ ts) =
    let f = step-Forward l t in record { wins = omega (arith, f.wins); rises = f.rises }
step_at-Onward (suc index) l (t ∷ ts) =
    let f = step_at-Onward index l ts in record { wins = omega (arith, f.wins); rises = f.rises }

run-Onward :
    (schedule : List ℕ) (l : Lifecycle) (ts : List Thread) → Onward l ts (run schedule l ts)
unfolding run
run-Onward [] l ts = record { wins = omega arith; rises = omega arith }
run-Onward (i ∷ schedule) l ts =
    let f = step_at-Onward i l ts in
    let g = run-Onward schedule (step_at i l ts).0 (step_at i l ts).1 in
    record { wins = omega (arith, f.wins, g.wins); rises = omega (arith, f.rises, g.rises) }

wins-calling : (calls : List Call) → wins (map calling calls) ≡ 0
wins-calling [] = refl
wins-calling (c ∷ calls) = omega (arith, wins-calling calls)

-- Whatever calls threads make at once, and however they interleave, at most one `begin_shutdown`
-- returns true, and none if the state is stopping or stopped at the start; where one has, the
-- state is stopping or stopped at the end.
pub shutdown_once :
    (schedule : List ℕ) (l : Lifecycle) (calls : List Call)
    → wins (run schedule l (map calling calls)).1
        + unclaimed (current_state (run schedule l (map calling calls)).0)
      ≤ unclaimed (current_state l)
shutdown_once schedule l calls =
    omega (arith, (run-Onward schedule l (map calling calls)).wins, wins-calling calls)

-- However threads interleave, from whatever point of their calls, the state never comes back to an
-- earlier one in the order of the life cycle, in which a failure comes after running and before
-- stopping.
pub never_back :
    (schedule : List ℕ) (l : Lifecycle) (threads : List Thread)
    → rank (current_state l) ≤ rank (current_state (run schedule l threads).0)
never_back schedule l threads = (run-Onward schedule l threads).rises
