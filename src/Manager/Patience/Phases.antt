-- ===== src/Manager/Patience/Phases.antt =====
-- The invariant of runs of router/engines.py, `EngineManager`, in which no drain gives up, and the
-- phases that keep it.
use local_engine_router.Common.{
  ◌≡◌, ◌≢◌, ℕ, String, some, none, Option, Bool, true, arith, eq_iff, List, eq_refl,
}
use local_engine_router.Manager.Step.{
  System, Job, Phase, Action, counting, probing, load_draining, loading, freeing, starting,
  fail_swap, start_returns, swap_loop, ensure_model_loaded, model_ready, gpu_freed, free_returns,
  start, probe_returns, count_returns, swap_finished, drain_timeout,
}

-- Every action but the end of a drain by its timeout.
abbrev pub IsPatient : Action → Type 0
IsPatient a = a ≢ drain_timeout

-- No request in flight is at an engine that was freed.
abbrev pub RequestsLive : System → Type 0
RequestsLive s = (x : String) → s.manager.inflight x ≢ 0 → s.gpu x ≡ true

abbrev pub ActiveUp : System → Type 0
ActiveUp s = (a : String) → s.manager.active_engine ≡ some a → s.gpu a ≡ true

abbrev pub PatientPhase : (String → ℕ) → Option String → (String → Bool) → Option Phase → Type 0
PatientPhase inflight active gpu (some (freeing j prev k ks)) = (inflight k ≡ 0) × (active ≡ none)
PatientPhase inflight active gpu (some (starting j prev)) = gpu j.target ≡ true
PatientPhase inflight active gpu (some (probing j m)) = active ≡ some j.target
PatientPhase inflight active gpu (some (load_draining j m)) = active ≡ some j.target
PatientPhase inflight active gpu (some (loading j m)) = active ≡ some j.target
PatientPhase inflight active gpu (some (counting j)) = active ≡ some j.target
PatientPhase inflight active gpu ph = Unit

-- What is left once the holder's phase is known.
abbrev pub PatientAt : System → Option Phase → Type 0
PatientAt s ph = PatientPhase s.manager.inflight s.manager.active_engine s.gpu ph

pub record Patient (s : System) : Type 0 where
  pub live : RequestsLive s
  pub active_up : ActiveUp s
  pub phase : PatientPhase s.manager.inflight s.manager.active_engine s.gpu s.holder

pub start-Patient :
    (s : System) (j : Job) (prev : Option String)
    → RequestsLive s
    → ActiveUp s
    → Patient (start s j prev)
unfolding start
start-Patient s j prev live up = record {
  live = λ x h. ground (arith, live x h);
  active_up = λ a h. ground (arith, up a h);
  phase = ground (arith, eq_refl j.target);
}

module _ (s : System) (j : Job) (live : RequestsLive s) (up : ActiveUp s) where
  pub swap_loop-Patient :
      (prev : Option String) (ks : List String) → Patient (swap_loop s j prev ks)
  unfolding swap_loop
  swap_loop-Patient prev ks = record {
    live = λ x h. ground (arith, live x);
    active_up = λ a h. ground (arith, up a);
    phase = ground (arith, eq_refl j.target);
  }

  pub ensure_model_loaded-Patient :
      s.manager.active_engine ≡ some j.target → Patient (ensure_model_loaded s j)
  unfolding ensure_model_loaded
  ensure_model_loaded-Patient e = record {
    live = λ x h. ground (arith, live x);
    active_up = λ a h. ground (arith, up a);
    phase = ground arith;
  }

  pub free_returns-Patient :
      (prev : Option String) (k : String) (ks : List String)
      → s.manager.inflight k ≡ 0
      → s.manager.active_engine ≡ none
      → Patient (free_returns s j prev k ks)
  unfolding free_returns gpu_freed swap_loop
  free_returns-Patient prev k ks z n = record {
    live = λ x h. ground (arith, live x, eq_iff k x, eq_iff j.target x);
    active_up = λ a h. absurd (ground arith);
    phase = ground (arith, eq_refl j.target);
  }

  pub fail_swap-Patient : (prev : Option String) (dt : ℕ) → Patient (fail_swap s j prev dt)
  unfolding fail_swap
  fail_swap-Patient prev dt = record {
    live = λ x h. ground (arith, live x);
    active_up = λ a h. absurd (ground arith);
    phase = tt;
  }

  pub start_returns-Patient :
      (prev : Option String) (dt : ℕ) → s.gpu j.target ≡ true → Patient (start_returns s j prev dt)
  unfolding start_returns swap_finished ensure_model_loaded
  start_returns-Patient prev dt g = record {
    live = λ x h. ground (arith, live x);
    active_up = λ a h. ground arith;
    phase = ground arith;
  }

  pub probe_returns-Patient :
      (m : String) (names : List String)
      → s.manager.active_engine ≡ some j.target
      → Patient (probe_returns s j m names)
  unfolding probe_returns model_ready
  probe_returns-Patient m names e = record {
    live = λ x h. ground (arith, live x);
    active_up = λ a h. ground (arith, up a);
    phase = ground arith;
  }

  pub count_returns-Patient : s.manager.active_engine ≡ some j.target → Patient (count_returns s j)
  unfolding count_returns
  count_returns-Patient e = record {
    live = λ x h. ground (arith, live x, up j.target e, eq_iff j.target x);
    active_up = λ a h. ground (arith, up a);
    phase = tt;
  }

  pub model_ready-Patient : s.manager.active_engine ≡ some j.target → Patient (model_ready s j)
  unfolding model_ready
  model_ready-Patient e = record {
    live = λ x h. ground (arith, live x);
    active_up = λ a h. ground (arith, up a);
    phase = ground arith;
  }
