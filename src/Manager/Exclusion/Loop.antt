-- ===== src/Manager/Exclusion/Loop.antt =====
-- The loop of router/engines.py, `EngineManager._swap_to`, keeps the invariant of the GPU.
use local_engine_router.Common.{
  ◌≡◌, String, some, none, Option, true, false, arith, elem, eq_iff, List, [], ◌∷◌, ◌==◌,
  Bool-cases, inl, inr, Bool, refl,
}
use local_engine_router.Manager.Step.{
  System, Job, next_engine, probe_returns, model_ready, swap_loop, ensure_model_loaded, start,
  after_loop, continue_with, ensure_model,
}
use local_engine_router.Manager.Exclusion.{OneHolder, ActiveHolds, LoopAt, Inv}

next_engine-none :
    (t x : String) (ks : List String)
    → next_engine t ks ≡ none
    → (x == t) ≡ false
    → elem x ks ≡ false
unfolding next_engine
next_engine-none t x [] e n = refl
next_engine-none t x (k ∷ ks) e n =
    ground (arith, next_engine-none t x ks, eq_iff k t, eq_iff k x, eq_iff x t)

next_engine-some :
    (t x k : String) (ks rest : List String)
    → next_engine t ks ≡ some (k, rest)
    → (x == t) ≡ false
    → elem x (k ∷ rest) ≡ elem x ks
unfolding next_engine
next_engine-some t x k [] rest e n = cc
next_engine-some t x k (y ∷ ks) rest e n =
    ground (arith, next_engine-some t x k ks rest, eq_iff y t, eq_iff y x, eq_iff x t)

pub start-Inv :
    (s : System) (j : Job) (prev : Option String) → LoopAt s j.target [] → Inv (start s j prev)
unfolding start
start-Inv s j prev ok = record {
  one = λ x y ex ey gx gy. ground (
    arith,
    ok.outside x,
    ok.outside y,
    eq_iff j.target x,
    eq_iff j.target y,
    eq_iff x j.target,
    eq_iff y j.target,
  );
  active_holds = λ a e. absurd (ground (arith, ok.active_left a));
  phase = record {
    target_known = ok.target_known;
    outside = λ x ex gx n. ground (arith, ok.outside x, eq_iff j.target x, eq_iff x j.target);
    active_left = ok.active_left;
  };
}

loop_over :
    (s : System) (t : String) (ks : List String)
    → next_engine t ks ≡ none
    → LoopAt s t ks
    → LoopAt s t []
loop_over s t ks e ok = record {
  target_known = ok.target_known;
  outside = λ x ex gx n. ground (arith, ok.outside x, next_engine-none t x ks e n);
  active_left = λ a h. absurd (ground (arith, ok.active_left a h, next_engine-none t a ks e));
}

loop_goes_on :
    (s : System) (t k : String) (ks rest : List String)
    → next_engine t ks ≡ some (k, rest)
    → LoopAt s t ks
    → LoopAt s t (k ∷ rest)
loop_goes_on s t k ks rest e ok = record {
  target_known = ok.target_known;
  outside = λ x ex gx n. ground (arith, ok.outside x, next_engine-some t x k ks rest e n);
  active_left = λ a h. ground (arith, ok.active_left a h, next_engine-some t a k ks rest e);
}

module _ (s : System) (j : Job) (one : OneHolder s) (holds : ActiveHolds s) where
  after_loop-Inv : (prev : Option String) → LoopAt s j.target [] → Inv (after_loop s j prev)
  unfolding after_loop
  after_loop-Inv none ok = start-Inv s j none ok
  after_loop-Inv (some p) ok = elim (Bool-cases (p == j.target)) [
    | inl e ↦ rw e (start-Inv s j (some p) ok)
    | inr e ↦ rw e (record { one = one; active_holds = holds; phase = ok })
  ]

  continue_with-Inv :
      (prev : Option String) (ks : List String) (r : Option (String × List String))
      → next_engine j.target ks ≡ r
      → LoopAt s j.target ks
      → Inv (continue_with s j prev r)
  unfolding continue_with
  continue_with-Inv prev ks none e ok = after_loop-Inv prev (loop_over s j.target ks e ok)
  continue_with-Inv prev ks (some (k, rest)) e ok = record {
    one = one;
    active_holds = holds;
    phase = loop_goes_on s j.target k ks rest e ok;
  }

  pub swap_loop-Inv :
      (prev : Option String) (ks : List String) → LoopAt s j.target ks → Inv (swap_loop s j prev ks)
  unfolding swap_loop
  swap_loop-Inv prev ks ok = continue_with-Inv prev ks (next_engine j.target ks) refl ok

  pub model_ready-Inv : s.manager.active_engine ≡ some j.target → Inv (model_ready s j)
  unfolding model_ready
  model_ready-Inv e = elim (Bool-cases j.counts) [
    | inl c ↦ rw c (record { one = one; active_holds = holds; phase = e })
    | inr c ↦ rw c (record { one = one; active_holds = holds; phase = tt })
  ]

  ensure_model-Inv :
      (b : Bool) (m : Option String)
      → s.manager.active_engine ≡ some j.target
      → Inv (ensure_model s j b m)
  unfolding ensure_model
  ensure_model-Inv false m e = model_ready-Inv e
  ensure_model-Inv true none e = model_ready-Inv e
  ensure_model-Inv true (some m) e = elim (Bool-cases (m == "")) [
    | inl c ↦ rw c (model_ready-Inv e)
    | inr c ↦ rw c (record { one = one; active_holds = holds; phase = e })
  ]

  pub ensure_model_loaded-Inv :
      s.manager.active_engine ≡ some j.target → Inv (ensure_model_loaded s j)
  unfolding ensure_model_loaded
  ensure_model_loaded-Inv e = ensure_model-Inv (s.manager.loads j.target) j.model e

  pub probe_returns-Inv :
      (m : String) (names : List String)
      → s.manager.active_engine ≡ some j.target
      → Inv (probe_returns s j m names)
  unfolding probe_returns
  probe_returns-Inv m names e = elim (Bool-cases (elem m names)) [
    | inl c ↦ rw c (model_ready-Inv e)
    | inr c ↦ rw c (record { one = one; active_holds = holds; phase = e })
  ]
