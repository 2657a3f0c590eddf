-- ===== src/Manager/Frame.antt =====
-- What the pieces of the swap machine (router/engines.py, `EngineManager`) leave alone.
use mathlib.Core.Option.{some-injective}
use local_engine_router.Common.{
  Bool-cases, subst, ◌≢◌, inl, inr, ℕ, String, ◌≡◌, refl, Option, none, some, List, arith, eq_iff,
  true,
}
use local_engine_router.Manager.Step.{
  System, Job, Phase, Action, is_key, if_zero, if_positive, settle_recorded, swap_begun, gpu_freed,
  start, swap_finished, swap_loop, model_ready, ensure_model_loaded, enter_lock, free_returns,
  settle_returns, start_returns, probe_returns, fail_swap, fail_load, go_free, advance, counting,
  freeing, starting, freed, started, counted,
}

-- The manager and the served requests are the same.
pub record SameCore (s u : System) : Type 0 where
  pub same_manager : u.manager ≡ s.manager
  pub same_served : u.served ≡ s.served

pub swap_loop-SameCore :
    (s : System) (j : Job) (prev : Option String) (ks : List String)
    → SameCore s (swap_loop s j prev ks)
unfolding swap_loop
swap_loop-SameCore s j prev ks = ground arith

pub ensure_model_loaded-SameCore : (s : System) (j : Job) → SameCore s (ensure_model_loaded s j)
unfolding ensure_model_loaded
ensure_model_loaded-SameCore s j = ground arith

pub key_active : (o : Option String) (t : String) → is_key o t ≡ true → o ≡ some t
unfolding is_key
key_active none t e = cc
key_active (some k) t e = ground (arith, eq_iff k t)

pub if_zero-eq-some : (n : ℕ) {t u : System} → if_zero n t ≡ some u → (n ≡ 0) × (t ≡ u)
unfolding if_zero
if_zero-eq-some n e = ground arith

pub if_positive-eq-some : (n : ℕ) {t u : System} → if_positive n t ≡ some u → (n ≢ 0) × (t ≡ u)
unfolding if_positive
if_positive-eq-some n e = ground arith

-- The counts, the served requests and the configuration are the same.
pub record SameCounts (s u : System) : Type 0 where
  pub same_inflight : u.manager.inflight ≡ s.manager.inflight
  pub same_served : u.served ≡ s.served
  pub same_engines : u.manager.engines ≡ s.manager.engines

SameCounts-SameCore : {s t u : System} → SameCounts s t → SameCore t u → SameCounts s u
SameCounts-SameCore p q = ground arith

swap_begun-SameCounts : (s : System) (k : String) → SameCounts s (swap_begun s k)
unfolding swap_begun
swap_begun-SameCounts s k = ground arith

gpu_freed-SameCounts : (s : System) (k : String) → SameCounts s (gpu_freed s k)
unfolding gpu_freed
gpu_freed-SameCounts s k = ground arith

swap_finished-SameCounts :
    (s : System) (prev : Option String) (k : String) (dt : ℕ)
    → SameCounts s (swap_finished s prev k dt)
unfolding swap_finished
swap_finished-SameCounts s prev k dt = ground arith

pub enter_lock-SameCounts : (s : System) (j : Job) → SameCounts s (enter_lock s j)
unfolding enter_lock
enter_lock-SameCounts s j = elim (Bool-cases (is_key s.manager.active_engine j.target)) [
  | inl e ↦ rw e (SameCounts-SameCore {t = s} (ground arith) (ensure_model_loaded-SameCore s j))
  | inr e ↦ rw e (
      SameCounts-SameCore (swap_begun-SameCounts s j.target)
        (swap_loop-SameCore _ j s.manager.active_engine s.manager.engines))
]

-- Every answer but `counted` leaves the counts alone.
pub advance-SameCounts :
    (s u : System) (ph : Phase) (a : Action)
    → advance s ph a ≡ some u
    → a ≢ counted
    → SameCounts s u
unfolding advance go_free fail_swap fail_load settle_returns settle_recorded start probe_returns
    model_ready
advance-SameCounts s u (freeing j prev k ks) freed e n =
    subst (SameCounts s) (some-injective _ _ e) (
      unfold free_returns in
      SameCounts-SameCore (gpu_freed-SameCounts s k) (swap_loop-SameCore _ j prev ks))
advance-SameCounts s u (starting j prev) (started dt) e n =
    subst (SameCounts s) (some-injective _ _ e) (
      unfold start_returns in
      SameCounts-SameCore (swap_finished-SameCounts s prev j.target dt)
        (ensure_model_loaded-SameCore _ j))
advance-SameCounts s u (counting j) counted e n = absurd (n refl)
advance-SameCounts s u ph a e n = ground arith
