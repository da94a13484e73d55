-- ===== src/Lifecycle/Alone.antt =====
-- A call on the life cycle that no other thread interrupts (src/lifecycle.rs), against a table of what
-- each call means.
use intimatr.Prelude.{ℕ, zero, suc, ◌≡◌, refl, Bool, true, false, ok, err}
use intimatr.Lifecycle.{
  LifecycleState, detached, attached, bootstrapping, running, stopping, stopped, failed, Lifecycle,
  Call, attach, begin_bootstrap, mark_running, mark_failed, request_shutdown, begin_shutdown,
  mark_stopped, Thread, calling, finished, shut_down, invalid_transition, as_u8, from_u8,
  compare_exchange, transition, exchange_or, mark_stopped_from, mark_failed_from,
  begin_shutdown_from, current_state, step,
}

-- A number of steps of one thread.
abbrev pub alone : ℕ → Lifecycle → Thread → Lifecycle × Thread
alone zero l t = (l, t)
alone (suc n) l t = let (l', t') = step l t in alone n l' t'

-- The life cycle in a state.
abbrev pub in_state : LifecycleState → Bool → Lifecycle
in_state s requested = record { state = as_u8 s; shutdown_requested = requested }

abbrev refuses : LifecycleState → LifecycleState → Bool → Lifecycle × Thread
refuses s next requested = (in_state s requested, finished (err (invalid_transition s next)))

abbrev done : LifecycleState → Bool → Lifecycle × Thread
done s requested = (in_state s requested, finished (ok tt))

-- What a call in a state comes to.
abbrev pub meaning : Call → LifecycleState → Bool → Lifecycle × Thread
meaning attach detached requested = done attached false
meaning attach s requested = refuses s attached false
meaning begin_bootstrap attached requested = done bootstrapping requested
meaning begin_bootstrap s requested = refuses s bootstrapping requested
meaning mark_running bootstrapping requested = done running requested
meaning mark_running s requested = refuses s running requested
meaning mark_failed stopping requested = done stopping requested
meaning mark_failed stopped requested = done stopped requested
meaning mark_failed s requested = done failed requested
meaning request_shutdown s requested = done s true
meaning begin_shutdown detached requested = (in_state stopped true, shut_down false)
meaning begin_shutdown stopping requested = (in_state stopping true, shut_down false)
meaning begin_shutdown stopped requested = (in_state stopped true, shut_down false)
meaning begin_shutdown s requested = (in_state stopping true, shut_down true)
meaning mark_stopped stopping requested = done stopped requested
meaning mark_stopped stopped requested = done stopped requested
meaning mark_stopped s requested = refuses s stopped requested

every_state :
    (P : LifecycleState → Type 0)
    → P detached
    → P attached
    → P bootstrapping
    → P running
    → P stopping
    → P stopped
    → P failed
    → (s : LifecycleState) → P s
every_state P a b c d e f g detached = a
every_state P a b c d e f g attached = b
every_state P a b c d e f g bootstrapping = c
every_state P a b c d e f g running = d
every_state P a b c d e f g stopping = e
every_state P a b c d e f g stopped = f
every_state P a b c d e f g failed = g

-- In each state, and whether or not shutdown is requested, a call that is not interrupted ends
-- within three steps with the state, the flag and the result that a table gives for it.
pub alone-meaning :
    (call : Call) (s : LifecycleState) (requested : Bool)
    → alone 3 (in_state s requested) (calling call) ≡ meaning call s requested
unfolding step transition current_state mark_stopped_from mark_failed_from begin_shutdown_from
    exchange_or compare_exchange from_u8 as_u8
alone-meaning attach s requested =
    every_state (λ s. alone 3 (in_state s requested) (calling attach) ≡ meaning attach s requested)
      refl refl refl refl refl refl refl s
alone-meaning begin_bootstrap s requested =
    every_state
      (λ s.
        alone 3 (in_state s requested) (calling begin_bootstrap)
        ≡ meaning begin_bootstrap s requested)
      refl refl refl refl refl refl refl s
alone-meaning mark_running s requested =
    every_state
      (λ s.
        alone 3 (in_state s requested) (calling mark_running) ≡ meaning mark_running s requested)
      refl refl refl refl refl refl refl s
alone-meaning mark_failed s requested =
    every_state
      (λ s. alone 3 (in_state s requested) (calling mark_failed) ≡ meaning mark_failed s requested)
      refl refl refl refl refl refl refl s
alone-meaning request_shutdown s requested =
    every_state
      (λ s.
        alone 3 (in_state s requested) (calling request_shutdown)
        ≡ meaning request_shutdown s requested)
      refl refl refl refl refl refl refl s
alone-meaning begin_shutdown s requested =
    every_state
      (λ s.
        alone 3 (in_state s requested) (calling begin_shutdown)
        ≡ meaning begin_shutdown s requested)
      refl refl refl refl refl refl refl s
alone-meaning mark_stopped s requested =
    every_state
      (λ s.
        alone 3 (in_state s requested) (calling mark_stopped) ≡ meaning mark_stopped s requested)
      refl refl refl refl refl refl refl s
