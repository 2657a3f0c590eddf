-- ===== src/Manager/Exclusion/Keeps.antt =====
-- Every step of router/engines.py, `EngineManager`, keeps the invariant of the GPU.
use mathlib.Core.Option.{some-injective}
use local_engine_router.Common.{
  ◌≡◌, ℕ, String, some, none, Option, true, false, arith, elem, eq_iff, List, [], ◌∷◌, subst, sym,
  Bool-cases, inl, inr, refl,
}
use local_engine_router.Manager.State.{Manager, swap_done, swap_failed}
use local_engine_router.Manager.Step.{
  System, Job, Phase, Action, advance, release_served, counting, settling, starting, freeing,
  draining, load_draining, loading, probing, go_free, fail_swap, fail_load, settle_returns,
  count_returns, enter_lock, gpu_freed, settle_recorded, swap_begun, swap_finished, free_returns,
  start_returns, drained, drain_timeout, freed, settled, started, raises, probed, loaded, counted,
  is_key,
}
use local_engine_router.Manager.Frame.{key_active, if_zero-eq-some, if_positive-eq-some}
use local_engine_router.Manager.Exclusion.{OneHolder, ActiveHolds, LoopAt, PhaseOk, Inv}
use local_engine_router.Manager.Exclusion.Loop.{
  start-Inv, swap_loop-Inv, model_ready-Inv, ensure_model_loaded-Inv, probe_returns-Inv,
}
use local_engine_router.Manager.Reach.{Move, releases, enters, advances}

active-swap_done :
    (m : Manager) (prev : Option String) (t : String) (dt : ℕ)
    → ((swap_done m prev t dt).active_engine ≡ some t)
      × ((swap_done m prev t dt).engines ≡ m.engines)
unfolding swap_done
active-swap_done m prev t dt = ground arith

active-swap_failed :
    (m : Manager) (prev : Option String) (t : String) (dt : ℕ)
    → ((swap_failed m prev t dt).active_engine ≡ none)
      × ((swap_failed m prev t dt).engines ≡ m.engines)
unfolding swap_failed
active-swap_failed m prev t dt = ground arith

enter_swap :
    (s : System) (j : Job)
    → Inv s
    → elem j.target s.manager.engines ≡ true
    → is_key s.manager.active_engine j.target ≡ false
    → LoopAt s j.target s.manager.engines
unfolding is_key
enter_swap s j v known e = record {
  target_known = known;
  outside = λ x ex gx n. ex;
  active_left = λ a h. (((v.active_holds a h).0), ground (arith, h));
}

enter_lock-Inv :
    (s : System) (j : Job) → Inv s → elem j.target s.manager.engines ≡ true → Inv (enter_lock s j)
unfolding enter_lock swap_begun
enter_lock-Inv s j v known = elim (Bool-cases (is_key s.manager.active_engine j.target)) [
  | inl e ↦ rw e (
      ensure_model_loaded-Inv s j v.one v.active_holds
        (key_active s.manager.active_engine j.target e))
  | inr e ↦ rw e (
      swap_loop-Inv (swap_begun s j.target) j v.one v.active_holds s.manager.active_engine
        s.manager.engines (enter_swap s j v known e))
]

gpu_freed_lem :
    (s : System) (t k : String) (rest : List String)
    → s.manager.active_engine ≡ none
    → LoopAt s t (k ∷ rest)
    → LoopAt (gpu_freed s k) t rest
unfolding gpu_freed
gpu_freed_lem s t k rest e ok = record {
  target_known = ok.target_known;
  outside = λ x ex gx n. ground (arith, ok.outside x, eq_iff k x);
  active_left = λ a h. absurd (ground (arith, h, e));
}

free_returns-Inv :
    (s : System) (j : Job) (prev : Option String) (k : String) (ks : List String)
    → OneHolder s
    → ActiveHolds s
    → s.manager.active_engine ≡ none
    → LoopAt s j.target (k ∷ ks)
    → Inv (free_returns s j prev k ks)
unfolding free_returns
free_returns-Inv s j prev k ks one holds e ok =
    swap_loop-Inv (gpu_freed s k) j
      (unfold gpu_freed in λ x y ex ey gx gy. one x y ex ey (ground arith) (ground arith))
      (unfold gpu_freed in λ a h. absurd (ground (arith, h, e))) prev ks
      (gpu_freed_lem s j.target k ks e ok)

fail_swap-Inv :
    (s : System) (j : Job) (prev : Option String) (dt : ℕ)
    → OneHolder s
    → Inv (fail_swap s j prev dt)
unfolding fail_swap
fail_swap-Inv s j prev dt one = record {
  one = λ x y. rw (active-swap_failed s.manager prev j.target dt).1 (one x y);
  active_holds = λ a h. absurd (ground (arith, h, active-swap_failed s.manager prev j.target dt));
  phase = tt;
}

swap_finished-holds :
    (s : System) (prev : Option String) (t : String) (dt : ℕ)
    → LoopAt s t []
    → ActiveHolds (swap_finished s prev t dt)
unfolding swap_finished
swap_finished-holds s prev t dt ok a h =
    let same : t ≡ a = ground (arith, h, active-swap_done s.manager prev t dt) in
    rw (active-swap_done s.manager prev t dt).1
      (rw (← same) ok.target_known, λ x ex gx. ground (arith, same, ok.outside x ex gx, eq_iff x t))

start_returns-Inv :
    (s : System) (j : Job) (prev : Option String) (dt : ℕ)
    → OneHolder s
    → LoopAt s j.target []
    → Inv (start_returns s j prev dt)
unfolding start_returns
start_returns-Inv s j prev dt one ok =
    ensure_model_loaded-Inv (swap_finished s prev j.target dt) j
      (unfold swap_finished in λ x y. rw (active-swap_done s.manager prev j.target dt).1 (one x y))
      (swap_finished-holds s prev j.target dt ok)
      (unfold swap_finished in (active-swap_done s.manager prev j.target dt).0)

draining-Inv :
    (s u : System) (j : Job) (prev : Option String) (k : String) (ks : List String)
    → go_free s j prev k ks ≡ u
    → OneHolder s
    → ActiveHolds s
    → LoopAt s j.target (k ∷ ks)
    → Inv u
unfolding go_free
draining-Inv s u j prev k ks e one holds ok = subst Inv e (record {
  one = one;
  active_holds = λ a h. cc;
  phase = (
    record { target_known = ok.target_known; outside = ok.outside; active_left = λ a h. cc },
    refl,
  );
})

advance-Inv :
    (s u : System) (ph : Phase) (a : Action)
    → advance s ph a ≡ some u
    → OneHolder s
    → ActiveHolds s
    → PhaseOk s (some ph)
    → Inv u
unfolding advance go_free fail_load settle_returns settle_recorded count_returns
advance-Inv s u (draining j prev k ks) drained e one holds ok =
    draining-Inv s u j prev k ks (if_zero-eq-some _ e).1 one holds ok
advance-Inv s u (draining j prev k ks) drain_timeout e one holds ok =
    draining-Inv s u j prev k ks (if_positive-eq-some _ e).1 one holds ok
advance-Inv s u (draining j prev k ks) (raises dt) e one holds ok =
    subst Inv (some-injective _ _ e) (fail_swap-Inv s j prev dt one)
advance-Inv s u (freeing j prev k ks) freed e one holds ok =
    subst Inv (some-injective _ _ e) (free_returns-Inv s j prev k ks one holds ok.1 ok.0)
advance-Inv s u (freeing j prev k ks) (raises dt) e one holds ok =
    subst Inv (some-injective _ _ e) (fail_swap-Inv s j prev dt one)
advance-Inv s u (settling j prev) (settled n) e one holds ok =
    subst Inv (some-injective _ _ e) (start-Inv (settle_recorded s n) j prev ok)
advance-Inv s u (settling j prev) (raises dt) e one holds ok =
    subst Inv (some-injective _ _ e) (fail_swap-Inv s j prev dt one)
advance-Inv s u (starting j prev) (started dt) e one holds ok =
    subst Inv (some-injective _ _ e) (start_returns-Inv s j prev dt one ok)
advance-Inv s u (starting j prev) (raises dt) e one holds ok =
    subst Inv (some-injective _ _ e) (fail_swap-Inv s j prev dt one)
advance-Inv s u (probing j m) (probed names) e one holds ok =
    subst Inv (some-injective _ _ e) (probe_returns-Inv s j one holds m names ok)
advance-Inv s u (probing j m) (raises dt) e one holds ok =
    subst Inv (some-injective _ _ e) (record { one = one; active_holds = holds; phase = tt })
advance-Inv s u (load_draining j m) drained e one holds ok =
    subst Inv (if_zero-eq-some _ e).1 (record { one = one; active_holds = holds; phase = ok })
advance-Inv s u (load_draining j m) drain_timeout e one holds ok =
    subst Inv (if_positive-eq-some _ e).1 (record { one = one; active_holds = holds; phase = ok })
advance-Inv s u (load_draining j m) (raises dt) e one holds ok =
    subst Inv (some-injective _ _ e) (record { one = one; active_holds = holds; phase = tt })
advance-Inv s u (loading j m) loaded e one holds ok =
    subst Inv (some-injective _ _ e) (model_ready-Inv s j one holds ok)
advance-Inv s u (loading j m) (raises dt) e one holds ok =
    subst Inv (some-injective _ _ e) (record { one = one; active_holds = holds; phase = tt })
advance-Inv s u (counting j) counted e one holds ok =
    subst Inv (some-injective _ _ e) (record { one = one; active_holds = holds; phase = tt })
advance-Inv s u (counting j) (raises dt) e one holds ok =
    subst Inv (some-injective _ _ e) (record { one = one; active_holds = holds; phase = tt })
advance-Inv s u ph a e one holds ok = cc

release-Inv : (s u : System) (k : String) → release_served s k ≡ some u → Inv s → Inv u
unfolding release_served
release-Inv s u k e v = elim (Bool-cases (elem k s.served)) [
  | inl held ↦
      subst Inv (some-injective _ _ (rw held at e))
        (record { one = v.one; active_holds = v.active_holds; phase = v.phase })
  | inr not_held ↦ absurd (ground arith)
]

holder_at : (s : System) (ph : Phase) → s.holder ≡ some ph → Inv s → PhaseOk s (some ph)
holder_at s ph e v = subst (PhaseOk s) e v.phase

-- Every step keeps the invariant.
pub Move-Inv : (s u : System) (a : Action) → Move s u a → Inv s → Inv u
Move-Inv s u _ (releases k e) v = release-Inv s u k e v
Move-Inv s u _ (enters j free known e) v = subst Inv (sym e) (enter_lock-Inv s j v known)
Move-Inv s u a (advances ph held e) v =
    advance-Inv s u ph a e v.one v.active_holds (holder_at s ph held v)
