-- ===== src/Lifecycle/Forward.antt =====
-- Each atomic step on the life cycle (src/lifecycle.rs) goes forward, and wins a shutdown at most by
-- taking the state out of those that can be shut down.
use intimatr.Prelude.{
  ℕ, ◌+◌, ◌≤◌, ◌≡◌, refl, sym, ap, ◌∙◌, ◌⊎◌, inl, inr, true, false, List, [], ◌∷◌, Result, ok, err,
  ◌==◌, arith, Bool-cases,
}
use intimatr.Lifecycle.{
  LifecycleState, detached, attached, bootstrapping, running, stopping, stopped, failed, Lifecycle,
  Call, attach, begin_bootstrap, mark_running, mark_failed, request_shutdown, begin_shutdown,
  mark_stopped, Thread, calling, attach_ready, mark_failed_read, shutdown_loop, shutdown_read,
  mark_stopped_read, finished, shut_down, invalid_transition, as_u8, from_u8, compare_exchange,
  transition, exchange_or, mark_stopped_from, mark_failed_from, begin_shutdown_from, current_state,
  step, step_at, run,
}
use mathlib.Core.Path.{subst}
use intimatr.Lifecycle

-- How far a life has come: each state is left only for one of a higher rank.
abbrev pub rank : LifecycleState → ℕ
rank detached = 0
rank attached = 1
rank bootstrapping = 2
rank running = 3
rank failed = 4
rank stopping = 5
rank stopped = 6

-- The shutdowns that are still to be won.
abbrev pub unclaimed : LifecycleState → ℕ
unclaimed stopping = 0
unclaimed stopped = 0
unclaimed _ = 1

abbrev pub won : Thread → ℕ
won (shut_down true) = 1
won _ = 0

abbrev pub wins : List Thread → ℕ
wins [] = 0
wins (t ∷ threads) = won t + wins threads

pub from_u8-as_u8 : (s : LifecycleState) → from_u8 (as_u8 s) ≡ s
unfolding from_u8 as_u8
from_u8-as_u8 detached = refl
from_u8-as_u8 attached = refl
from_u8-as_u8 bootstrapping = refl
from_u8-as_u8 running = refl
from_u8-as_u8 stopping = refl
from_u8-as_u8 stopped = refl
from_u8-as_u8 failed = refl

-- What one step does to the state and to the wins.
pub record Forward (l : Lifecycle) (t : Thread) (p : Lifecycle × Thread) : Type 0 where
  pub wins : won p.1 + unclaimed (current_state p.0) ≤ won t + unclaimed (current_state l)
  pub rises : rank (current_state l) ≤ rank (current_state p.0)

-- An exchange moves from the state that it expects, or leaves everything.
exchange-cases :
    (l : Lifecycle) (expected next : LifecycleState)
    → ((current_state l ≡ expected)
        × (compare_exchange l expected next ≡ (record l { state = as_u8 next }, ok tt)))
      ⊎ (compare_exchange l expected next ≡ (l, err l.state))
unfolding compare_exchange current_state
exchange-cases l expected next = elim (Bool-cases (l.state == as_u8 expected)) [
  | inl e ↦
      let same : l.state ≡ as_u8 expected = ground arith in
      inl (ap from_u8 same ∙ from_u8-as_u8 expected, rw (e, compare_exchange) refl)
  | inr e ↦ inr (rw (e, compare_exchange) refl)
]

state-set : (l : Lifecycle) (s : LifecycleState) → current_state (record l { state = as_u8 s }) ≡ s
unfolding current_state
state-set l s = from_u8-as_u8 s

-- Whatever follows an exchange, if it moves forward.
follow-Forward :
    (l : Lifecycle) (expected next : LifecycleState) (after : Result ℕ (Unit {0}) → Thread)
    (t : Thread)
    → won (after (ok tt)) + unclaimed next ≤ unclaimed expected
    → won (after (err l.state)) ≡ 0
    → rank expected ≤ rank next
    → Forward l t (let (l', result) = compare_exchange l expected next in (l', after result))
follow-Forward l expected next after t w z r = elim (exchange-cases l expected next) [
  | inl (s, e) ↦
      subst (λ (p : Lifecycle × Result ℕ (Unit {0})). Forward l t (p.0, after p.1)) (sym e)
        (record {
          wins = rw (state-set l next, s) (omega (arith, w));
          rises = rw (state-set l next, s) r;
        })
  | inr e ↦
      subst (λ (p : Lifecycle × Result ℕ (Unit {0})). Forward l t (p.0, after p.1)) (sym e)
        (record { wins = omega (arith, z); rises = omega arith })
]

exchange_or-Forward :
    (l : Lifecycle) (expected next : LifecycleState) (done again : Thread) (t : Thread)
    → won done + unclaimed next ≤ unclaimed expected
    → won again ≡ 0
    → rank expected ≤ rank next
    → Forward l t (exchange_or l expected next done again)
unfolding exchange_or
exchange_or-Forward l expected next done again t w z r =
    follow-Forward l expected next
      (λ (p : Result ℕ (Unit {0})). elim p [ ok u ↦ done | err e ↦ again ]) t w z r

transition-Forward :
    (l : Lifecycle) (expected next : LifecycleState) (t : Thread)
    → unclaimed next ≤ unclaimed expected
    → rank expected ≤ rank next
    → Forward l t (Lifecycle.ends_with (transition l expected next))
unfolding transition
transition-Forward l expected next t w r =
    follow-Forward l expected next
      (λ (p : Result ℕ (Unit {0})).
        finished (elim p [ ok u ↦ ok tt | err e ↦ err (invalid_transition (from_u8 e) next) ]))
      t (omega (arith, w)) refl r

-- A step that leaves the byte, and wins nothing.
still-Forward :
    (l l' : Lifecycle) (t t' : Thread) → l'.state ≡ l.state → won t' ≤ won t → Forward l t (l', t')
unfolding current_state
still-Forward l l' t t' e w = record { wins = rw e (omega arith); rises = rw e (omega arith) }

mark_failed-Forward :
    (l : Lifecycle) (s : LifecycleState) (t : Thread) → Forward l t (mark_failed_from l s)
unfolding mark_failed_from
mark_failed-Forward l stopping t = still-Forward l l t _ refl (omega arith)
mark_failed-Forward l stopped t = still-Forward l l t _ refl (omega arith)
mark_failed-Forward l detached t =
    exchange_or-Forward l detached failed (finished (ok tt)) (calling mark_failed) t (omega arith)
      refl (omega arith)
mark_failed-Forward l attached t =
    exchange_or-Forward l attached failed (finished (ok tt)) (calling mark_failed) t (omega arith)
      refl (omega arith)
mark_failed-Forward l bootstrapping t =
    exchange_or-Forward l bootstrapping failed (finished (ok tt)) (calling mark_failed) t
      (omega arith) refl (omega arith)
mark_failed-Forward l running t =
    exchange_or-Forward l running failed (finished (ok tt)) (calling mark_failed) t (omega arith)
      refl (omega arith)
mark_failed-Forward l failed t =
    exchange_or-Forward l failed failed (finished (ok tt)) (calling mark_failed) t (omega arith)
      refl (omega arith)

begin_shutdown-Forward :
    (l : Lifecycle) (s : LifecycleState) (t : Thread) → Forward l t (begin_shutdown_from l s)
unfolding begin_shutdown_from
begin_shutdown-Forward l stopping t = still-Forward l l t _ refl (omega arith)
begin_shutdown-Forward l stopped t = still-Forward l l t _ refl (omega arith)
begin_shutdown-Forward l detached t =
    exchange_or-Forward l detached stopped (shut_down false) shutdown_loop t (omega arith) refl
      (omega arith)
begin_shutdown-Forward l attached t =
    exchange_or-Forward l attached stopping (shut_down true) shutdown_loop t (omega arith) refl
      (omega arith)
begin_shutdown-Forward l bootstrapping t =
    exchange_or-Forward l bootstrapping stopping (shut_down true) shutdown_loop t (omega arith) refl
      (omega arith)
begin_shutdown-Forward l running t =
    exchange_or-Forward l running stopping (shut_down true) shutdown_loop t (omega arith) refl
      (omega arith)
begin_shutdown-Forward l failed t =
    exchange_or-Forward l failed stopping (shut_down true) shutdown_loop t (omega arith) refl
      (omega arith)

mark_stopped-Forward :
    (l : Lifecycle) (s : LifecycleState) (t : Thread) → Forward l t (mark_stopped_from l s)
unfolding mark_stopped_from
mark_stopped-Forward l stopping t = still-Forward l l t _ refl (omega arith)
mark_stopped-Forward l stopped t = still-Forward l l t _ refl (omega arith)
mark_stopped-Forward l detached t = still-Forward l l t _ refl (omega arith)
mark_stopped-Forward l attached t = still-Forward l l t _ refl (omega arith)
mark_stopped-Forward l bootstrapping t = still-Forward l l t _ refl (omega arith)
mark_stopped-Forward l running t = still-Forward l l t _ refl (omega arith)
mark_stopped-Forward l failed t = still-Forward l l t _ refl (omega arith)

pub step-Forward : (l : Lifecycle) (t : Thread) → Forward l t (step l t)
unfolding step
step-Forward l (calling attach) = still-Forward l _ _ _ refl (omega arith)
step-Forward l (calling begin_bootstrap) =
    transition-Forward l attached bootstrapping _ (omega arith) (omega arith)
step-Forward l (calling mark_running) =
    transition-Forward l bootstrapping running _ (omega arith) (omega arith)
step-Forward l (calling mark_failed) = still-Forward l _ _ _ refl (omega arith)
step-Forward l (calling request_shutdown) = still-Forward l _ _ _ refl (omega arith)
step-Forward l (calling begin_shutdown) = still-Forward l _ _ _ refl (omega arith)
step-Forward l (calling mark_stopped) = mark_stopped-Forward l _ _
step-Forward l attach_ready = transition-Forward l detached attached _ (omega arith) (omega arith)
step-Forward l (mark_failed_read s) = mark_failed-Forward l s _
step-Forward l shutdown_loop = still-Forward l _ _ _ refl (omega arith)
step-Forward l (shutdown_read s) = begin_shutdown-Forward l s _
step-Forward l mark_stopped_read =
    transition-Forward l stopping stopped _ (omega arith) (omega arith)
step-Forward l (finished r) = still-Forward l _ _ _ refl (omega arith)
step-Forward l (shut_down b) = still-Forward l _ _ _ refl (omega arith)
