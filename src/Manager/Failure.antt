-- ===== src/Manager/Failure.antt =====
-- How a swap of router/engines.py, `EngineManager._swap_to`, ends.
use mathlib.Core.Option.{some-injective}
use local_engine_router.Common.{
  ◌≡◌, ◌∙◌, ℕ, String, some, none, Option, true, false, arith, subst, sym,
}
use local_engine_router.Metrics
use local_engine_router.Manager.Step.{
  System, Job, Phase, step, advance, draining, freeing, settling, starting, raises, started,
  fail_swap, start_returns, swap_finished,
}
use local_engine_router.Manager.Reach.{step-advance}
use local_engine_router.Manager.Frame.{ensure_model_loaded-SameCore, SameCore}

-- The swap that a phase belongs to.
abbrev pub swap_of : Phase → Option (Job × Option String)
swap_of (draining j prev k ks) = some (j, prev)
swap_of (freeing j prev k ks) = some (j, prev)
swap_of (settling j prev) = some (j, prev)
swap_of (starting j prev) = some (j, prev)
swap_of ph = none

-- A failed swap: no engine is active, neither for the manager nor for the metrics, the lock is free,
-- the failure is on record, and counts, estimates and engines are as before.
pub record Failed (s u : System) (prev : Option String) (target : String) (dt : ℕ) : Type 0 where
  pub no_active : u.manager.active_engine ≡ none
  pub no_gauge : u.manager.metrics.active ≡ none
  pub lock_free : u.holder ≡ none
  pub recorded :
      u.manager.last_swap
      ≡ some (record {
        from_key = prev;
        to_key = target;
        duration = s.manager.cents dt;
        succeeded = false;
        at = s.manager.wall 0;
      })
  pub timed : u.manager.metrics.swap_duration ≡ Metrics.observe s.manager.metrics.swap_duration dt
  pub same_inflight : u.manager.inflight ≡ s.manager.inflight
  pub same_estimates : u.manager.swap_seconds ≡ s.manager.swap_seconds
  pub same_served : u.served ≡ s.served
  pub same_gpu : u.gpu ≡ s.gpu

fail_swap-Failed :
    (s : System) (j : Job) (prev : Option String) (dt : ℕ)
    → Failed s (fail_swap s j prev dt) prev j.target dt
unfolding fail_swap
fail_swap-Failed s j prev dt = ground arith

advance_raises :
    (s : System) (ph : Phase) (j : Job) (prev : Option String) (dt : ℕ)
    → swap_of ph ≡ some (j, prev)
    → advance s ph (raises dt) ≡ some (fail_swap s j prev dt)
unfolding advance
advance_raises s (draining i p k ks) j prev dt e = ground arith
advance_raises s (freeing i p k ks) j prev dt e = ground arith
advance_raises s (settling i p) j prev dt e = ground arith
advance_raises s (starting i p) j prev dt e = ground arith
advance_raises s ph j prev dt e = cc

-- Whichever await of a swap raises (an error or a cancellation, in a drain, a free, the settle wait or
-- the start), the swap fails: no engine is active for the manager and the metrics, the lock is free,
-- the failed swap is recorded and its duration observed, and the in-flight counts, the swap estimates,
-- the served requests and the GPU are as before.
pub raises-Failed :
    (s u : System) (ph : Phase) (j : Job) (prev : Option String) (dt : ℕ)
    → s.holder ≡ some ph
    → swap_of ph ≡ some (j, prev)
    → step s (raises dt) ≡ some u
    → Failed s u prev j.target dt
raises-Failed s u ph j prev dt h w e =
    subst (λ t. Failed s t prev j.target dt)
      (some-injective _ _
        (sym (advance_raises s ph j prev dt w) ∙ sym (step-advance s ph (raises dt) h tt) ∙ e))
      (fail_swap-Failed s j prev dt)

-- A completed swap.
pub record Swapped (s u : System) (prev : Option String) (target : String) (dt : ℕ) : Type 0 where
  pub now_active : u.manager.active_engine ≡ some target
  pub gauge : u.manager.metrics.active ≡ some target
  pub recorded :
      u.manager.last_swap
      ≡ some (record {
        from_key = prev;
        to_key = target;
        duration = s.manager.cents dt;
        succeeded = true;
        at = s.manager.wall 0;
      })
  pub timed : u.manager.metrics.swap_duration ≡ Metrics.observe s.manager.metrics.swap_duration dt
  pub same_inflight : u.manager.inflight ≡ s.manager.inflight
  pub saved :
      s.manager.disk_ok ≡ true
      → u.manager.state_file
        ≡ some (record { active_engine = some target; last_swap = u.manager.last_swap })

swap_finished-Swapped :
    (s : System) (prev : Option String) (t : String) (dt : ℕ)
    → Swapped s (swap_finished s prev t dt) prev t dt
unfolding swap_finished
swap_finished-Swapped s prev t dt = ground arith

Swapped-SameCore :
    {s t u : System} {prev : Option String} {target : String} {dt : ℕ}
    → Swapped s t prev target dt
    → SameCore t u
    → Swapped s u prev target dt
Swapped-SameCore p c = ground arith

-- When the target's start returns, the target is active for the manager and the metrics, the swap is
-- recorded with its duration, the counts are as before, and, where the state file can be written, it
-- holds the new active engine and the swap.
pub started-Swapped :
    (s u : System) (j : Job) (prev : Option String) (dt : ℕ)
    → s.holder ≡ some (starting j prev)
    → step s (started dt) ≡ some u
    → Swapped s u prev j.target dt
unfolding advance start_returns
started-Swapped s u j prev dt h e =
    subst (λ t. Swapped s t prev j.target dt)
      (some-injective (start_returns s j prev dt) u
        (sym (step-advance s (starting j prev) (started dt) h tt) ∙ e))
      (Swapped-SameCore (swap_finished-Swapped s prev j.target dt)
        (ensure_model_loaded-SameCore (swap_finished s prev j.target dt) j))
