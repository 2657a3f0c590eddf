-- ===== src/Manager/Exclusion.antt =====
-- The invariant on which engines may hold the GPU (router/engines.py, `EngineManager._swap_to`).
pub mod Loop
pub mod Keeps
use mathlib.Core.Option.{some-injective}
use local_engine_router.Common.{
  ◌≡◌, ◌≢◌, ℕ, String, some, none, Option, true, false, arith, elem, eq_iff, List, [], ◌∷◌, subst,
  sym, update, ◌==◌, Bool-cases, inl, inr, ◌⊎◌, Bool, Option-cases, refl,
}
use local_engine_router.Manager.State.{Manager}
use local_engine_router.Manager.Step.{
  System, Job, Phase, Action, step, advance, release_served, counting, settling, starting, freeing,
  draining, load_draining, loading, probing, next_engine, go_free, fail_swap, fail_load,
  settle_returns, probe_returns, count_returns, model_ready, swap_loop, enter_lock,
  ensure_model_loaded, gpu_freed, enter, drained, drain_timeout, freed, settled, started, raises,
  probed, loaded, counted, released, is_key,
}
use local_engine_router.Manager.Frame.{SameCounts, enter_lock-SameCounts, advance-SameCounts}
use local_engine_router.Manager.Reach.{Reach, Reach-keeps, Move, releases, enters, advances}

-- No two engines may hold the GPU.
abbrev pub OneHolder : System → Type 0
OneHolder s =
    (x y : String)
    → elem x s.manager.engines ≡ true
    → elem y s.manager.engines ≡ true
    → s.gpu x ≡ true
    → s.gpu y ≡ true
    → x ≡ y

-- Only `t` may hold the GPU, or an engine among `rest`.
abbrev pub Outside : List String → (String → Bool) → String → List String → Type 0
Outside engines gpu t rest =
    (x : String) → elem x engines ≡ true → gpu x ≡ true → (x == t) ≡ false → elem x rest ≡ true

-- An active engine is known, and only it may hold the GPU.
abbrev pub ActiveHolds : System → Type 0
ActiveHolds s =
    (a : String)
    → s.manager.active_engine ≡ some a
    → (elem a s.manager.engines ≡ true)
      × ((x : String) → elem x s.manager.engines ≡ true → s.gpu x ≡ true → x ≡ a)

-- The loop has the engines `rest` to go; the active one, if any, is one of those.
pub record LoopOk (engines : List String) (active : Option String) (gpu : String → Bool)
    (t : String) (rest : List String) : Type 0 where
  pub target_known : elem t engines ≡ true
  pub outside : Outside engines gpu t rest
  pub active_left : (a : String) → active ≡ some a → (elem a rest ≡ true) × ((a == t) ≡ false)

abbrev pub LoopAt : System → String → List String → Type 0
LoopAt s t rest = LoopOk s.manager.engines s.manager.active_engine s.gpu t rest

-- What the await of the holder knows.
abbrev pub PhaseAt : List String → Option String → (String → Bool) → Option Phase → Type 0
PhaseAt engines active gpu none = Unit
PhaseAt engines active gpu (some (draining j prev k ks)) =
    LoopOk engines active gpu j.target (k ∷ ks)
PhaseAt engines active gpu (some (freeing j prev k ks)) =
    LoopOk engines active gpu j.target (k ∷ ks) × (active ≡ none)
PhaseAt engines active gpu (some (settling j prev)) = LoopOk engines active gpu j.target []
PhaseAt engines active gpu (some (starting j prev)) = LoopOk engines active gpu j.target []
PhaseAt engines active gpu (some (probing j m)) = active ≡ some j.target
PhaseAt engines active gpu (some (load_draining j m)) = active ≡ some j.target
PhaseAt engines active gpu (some (loading j m)) = active ≡ some j.target
PhaseAt engines active gpu (some (counting j)) = active ≡ some j.target

abbrev pub PhaseOk : System → Option Phase → Type 0
PhaseOk s ph = PhaseAt s.manager.engines s.manager.active_engine s.gpu ph

pub record Inv (s : System) : Type 0 where
  pub one : OneHolder s
  pub active_holds : ActiveHolds s
  pub phase : PhaseOk s s.holder
