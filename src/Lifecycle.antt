-- ===== src/Lifecycle.antt =====
-- src/lifecycle.rs: the runtime's life cycle in one atomic byte and one atomic flag, and the calls on
-- it as the atomic steps that threads interleave.
pub mod Alone
pub mod Forward
pub mod Once
use intimatr.Prelude.{
  ℕ, zero, suc, Bool, true, false, List, [], ◌∷◌, Result, ok, err, ◌==◌, if◌then◌else◌,
}

pub data LifecycleState : Type 0 where
  detached attached bootstrapping running stopping stopped failed : LifecycleState

unfoldable pub as_u8 : LifecycleState → ℕ
as_u8 detached = 0
as_u8 attached = 1
as_u8 bootstrapping = 2
as_u8 running = 3
as_u8 stopping = 4
as_u8 stopped = 5
as_u8 failed = 6

unfoldable pub from_u8 : ℕ → LifecycleState
from_u8 value =
    if value == 0
    then detached
    else if value == 1
    then attached
    else if value == 2
    then bootstrapping
    else if value == 3
    then running
    else if value == 4
    then stopping
    else if value == 5
    then stopped
    else failed

pub record Lifecycle : Type 0 where
  pub state : ℕ
  pub shutdown_requested : Bool

pub data LifecycleError : Type 0 where
  invalid_transition : LifecycleState → LifecycleState → LifecycleError

unfoldable pub new : Lifecycle
unfolding as_u8
new = record { state = as_u8 detached; shutdown_requested = false }

-- `AtomicU8::load`
unfoldable pub current_state : Lifecycle → LifecycleState
unfolding from_u8
current_state l = from_u8 l.state

-- `AtomicU8::compare_exchange`: the byte found, if it is not the one expected.
unfoldable pub compare_exchange :
    Lifecycle → LifecycleState → LifecycleState → Lifecycle × Result ℕ (Unit {0})
unfolding as_u8
compare_exchange l expected next =
    if l.state == as_u8 expected then (record l { state = as_u8 next }, ok tt) else (l, err l.state)

unfoldable pub transition :
    Lifecycle → LifecycleState → LifecycleState → Lifecycle × Result LifecycleError (Unit {0})
unfolding compare_exchange from_u8
transition l expected next =
    let (l', result) = compare_exchange l expected next in
    (l', elim result [ ok u ↦ ok tt | err actual ↦ err (invalid_transition (from_u8 actual) next) ])

pub data Call : Type 0 where
  attach begin_bootstrap mark_running mark_failed request_shutdown begin_shutdown mark_stopped :
      Call

-- Where a thread stands in a call: between which of its atomic operations, and with what it has read.
pub data Thread : Type 0 where
  calling : Call → Thread
  attach_ready : Thread
  mark_failed_read : LifecycleState → Thread
  shutdown_loop : Thread
  shutdown_read : LifecycleState → Thread
  mark_stopped_read : Thread
  finished : Result LifecycleError (Unit {0}) → Thread
  -- What `begin_shutdown` returns, always as `Ok`.
  shut_down : Bool → Thread

-- A call that ends with a transition.
abbrev pub ends_with : Lifecycle × Result LifecycleError (Unit {0}) → Lifecycle × Thread
ends_with (l, result) = (l, finished result)

-- A retry loop's exchange: it ends the call, or sends it back to `again`.
unfoldable pub exchange_or :
    Lifecycle → LifecycleState → LifecycleState → Thread → Thread → Lifecycle × Thread
unfolding compare_exchange
exchange_or l expected next done again =
    let (l', result) = compare_exchange l expected next in
    (l', elim result [ ok u ↦ done | err actual ↦ again ])

-- What follows `mark_stopped`'s first read.
unfoldable pub mark_stopped_from : Lifecycle → LifecycleState → Lifecycle × Thread
mark_stopped_from l stopped = (l, finished (ok tt))
mark_stopped_from l stopping = (l, mark_stopped_read)
mark_stopped_from l current = (l, finished (err (invalid_transition current stopped)))

-- What follows a read in `mark_failed`'s loop.
unfoldable pub mark_failed_from : Lifecycle → LifecycleState → Lifecycle × Thread
unfolding exchange_or
mark_failed_from l stopping = (l, finished (ok tt))
mark_failed_from l stopped = (l, finished (ok tt))
mark_failed_from l current = exchange_or l current failed (finished (ok tt)) (calling mark_failed)

-- What follows a read in `begin_shutdown`'s loop.
unfoldable pub begin_shutdown_from : Lifecycle → LifecycleState → Lifecycle × Thread
unfolding exchange_or
begin_shutdown_from l detached = exchange_or l detached stopped (shut_down false) shutdown_loop
begin_shutdown_from l stopping = (l, shut_down false)
begin_shutdown_from l stopped = (l, shut_down false)
begin_shutdown_from l current = exchange_or l current stopping (shut_down true) shutdown_loop

-- One atomic operation of a thread.
unfoldable pub step : Lifecycle → Thread → Lifecycle × Thread
unfolding transition current_state mark_stopped_from mark_failed_from begin_shutdown_from
step l (calling attach) = (record l { shutdown_requested = false }, attach_ready)
step l (calling begin_bootstrap) = ends_with (transition l attached bootstrapping)
step l (calling mark_running) = ends_with (transition l bootstrapping running)
step l (calling mark_failed) = (l, mark_failed_read (current_state l))
step l (calling request_shutdown) = (record l { shutdown_requested = true }, finished (ok tt))
step l (calling begin_shutdown) = (record l { shutdown_requested = true }, shutdown_loop)
step l (calling mark_stopped) = mark_stopped_from l (current_state l)
step l attach_ready = ends_with (transition l detached attached)
step l (mark_failed_read current) = mark_failed_from l current
step l shutdown_loop = (l, shutdown_read (current_state l))
step l (shutdown_read current) = begin_shutdown_from l current
step l mark_stopped_read = ends_with (transition l stopping stopped)
step l (finished result) = (l, finished result)
step l (shut_down first) = (l, shut_down first)

-- The thread at an index takes one step.
unfoldable pub step_at : ℕ → Lifecycle → List Thread → Lifecycle × List Thread
unfolding step
step_at index l [] = (l, [])
step_at zero l (t ∷ threads) = let (l', t') = step l t in (l', t' ∷ threads)
step_at (suc index) l (t ∷ threads) = let (l', rest) = step_at index l threads in (l', t ∷ rest)

-- An interleaving, as the indices of the threads that step.
unfoldable pub run : List ℕ → Lifecycle → List Thread → Lifecycle × List Thread
unfolding step_at
run [] l threads = (l, threads)
run (index ∷ schedule) l threads =
    let (l', threads') = step_at index l threads in run schedule l' threads'
