-- ===== src/Manager/Patience.antt =====
-- Runs of router/engines.py, `EngineManager`, in which no drain gives up.
pub mod Phases
use mathlib.Core.Option.{some-injective}
use local_engine_router.Common.{
  ◌≡◌, ◌≢◌, ℕ, String, some, none, Option, Bool, true, arith, elem, eq_iff, List, subst, sym,
  Bool-cases, inl, inr, refl, eq_refl,
}
use local_engine_router.Manager.State.{release}
use local_engine_router.Manager.Step.{
  System, Job, Phase, Action, advance, counting, counted, probing, load_draining, loading, draining,
  freeing, settling, starting, raises, started, drained, freed, settled, probed, loaded, fail_swap,
  start_returns, swap_loop, ensure_model_loaded, model_ready, enter_lock, swap_begun, gpu_freed,
  free_returns, go_free, fail_load, settle_returns, settle_recorded, start, probe_returns,
  count_returns, release_served, is_key, swap_finished, drain_timeout,
}
use local_engine_router.Manager.Frame.{key_active, if_zero-eq-some}
use local_engine_router.Manager.Safety.{IsStart, Reach-OneHolder}
use local_engine_router.Manager.Reach.{
  ReachBy, ReachBy-Reach, ReachBy-keeps, Move, releases, enters, advances,
}
pub use local_engine_router.Manager.Patience.Phases.{IsPatient, RequestsLive, ActiveUp}
use local_engine_router.Manager.Patience.Phases.{
  PatientPhase, PatientAt, Patient, start-Patient, swap_loop-Patient, ensure_model_loaded-Patient,
  free_returns-Patient, fail_swap-Patient, start_returns-Patient, probe_returns-Patient,
  count_returns-Patient, model_ready-Patient,
}

enter_lock-Patient : (s : System) (j : Job) → RequestsLive s → ActiveUp s → Patient (enter_lock s j)
unfolding enter_lock swap_begun
enter_lock-Patient s j live up = elim (Bool-cases (is_key s.manager.active_engine j.target)) [
  | inl e ↦
      rw e (ensure_model_loaded-Patient s j live up (key_active s.manager.active_engine j.target e))
  | inr e ↦ rw e (
      swap_loop-Patient (swap_begun s j.target) j live up s.manager.active_engine s.manager.engines)
]

idle : (s : System) → RequestsLive s → ActiveUp s → Patient (fail_load s)
unfolding fail_load
idle s live up = record { live = live; active_up = up; phase = tt }

advance-Patient :
    (s u : System) (ph : Phase) (a : Action)
    → IsPatient a
    → advance s ph a ≡ some u
    → RequestsLive s
    → ActiveUp s
    → PatientAt s (some ph)
    → Patient u
unfolding advance go_free settle_returns settle_recorded
advance-Patient s u (draining j prev k ks) drained n e live up ok =
    let (z, same) = if_zero-eq-some _ e in
    subst Patient same (record { live = live; active_up = λ a h. cc; phase = (z, refl) })
advance-Patient s u (draining j prev k ks) (raises dt) n e live up ok =
    subst Patient (some-injective _ _ e) (fail_swap-Patient s j live up prev dt)
advance-Patient s u (freeing j prev k ks) freed n e live up ok =
    subst Patient (some-injective _ _ e) (free_returns-Patient s j live up prev k ks ok.0 ok.1)
advance-Patient s u (freeing j prev k ks) (raises dt) n e live up ok =
    subst Patient (some-injective _ _ e) (fail_swap-Patient s j live up prev dt)
advance-Patient s u (settling j prev) (settled m) n e live up ok =
    subst Patient (some-injective _ _ e) (start-Patient (settle_recorded s m) j prev live up)
advance-Patient s u (settling j prev) (raises dt) n e live up ok =
    subst Patient (some-injective _ _ e) (fail_swap-Patient s j live up prev dt)
advance-Patient s u (starting j prev) (started dt) n e live up ok =
    subst Patient (some-injective _ _ e) (start_returns-Patient s j live up prev dt ok)
advance-Patient s u (starting j prev) (raises dt) n e live up ok =
    subst Patient (some-injective _ _ e) (fail_swap-Patient s j live up prev dt)
advance-Patient s u (probing j m) (probed names) n e live up ok =
    subst Patient (some-injective _ _ e) (probe_returns-Patient s j live up m names ok)
advance-Patient s u (probing j m) (raises dt) n e live up ok =
    subst Patient (some-injective _ _ e) (idle s live up)
advance-Patient s u (load_draining j m) drained n e live up ok =
    subst Patient (if_zero-eq-some _ e).1 (record { live = live; active_up = up; phase = ok })
advance-Patient s u (load_draining j m) (raises dt) n e live up ok =
    subst Patient (some-injective _ _ e) (idle s live up)
advance-Patient s u (loading j m) loaded n e live up ok =
    subst Patient (some-injective _ _ e) (model_ready-Patient s j live up ok)
advance-Patient s u (loading j m) (raises dt) n e live up ok =
    subst Patient (some-injective _ _ e) (idle s live up)
advance-Patient s u (counting j) counted n e live up ok =
    subst Patient (some-injective _ _ e) (count_returns-Patient s j live up ok)
advance-Patient s u (counting j) (raises dt) n e live up ok =
    subst Patient (some-injective _ _ e) (idle s live up)
advance-Patient s u ph drain_timeout n e live up ok = absurd (n refl)
advance-Patient s u ph a n e live up ok = cc

release-phase :
    (s : System) (k : String) (ph : Option Phase)
    → PatientAt s ph
    → PatientPhase (release s.manager k).inflight s.manager.active_engine s.gpu ph
unfolding release
release-phase s k (some (freeing j prev x ks)) ok = ground (arith, eq_iff k x)
release-phase s k none ok = tt
release-phase s k (some ph) ok = ok

release-Patient : (s u : System) (k : String) → release_served s k ≡ some u → Patient s → Patient u
unfolding release_served
release-Patient s u k e p = elim (Bool-cases (elem k s.served)) [
  | inl held ↦ subst Patient (some-injective _ _ (rw held at e)) (record {
    live = λ x h. ground (arith, p.live x, eq_iff k x);
    active_up = p.active_up;
    phase = release-phase s k s.holder p.phase;
  })
  | inr not_held ↦ absurd (ground arith)
]

Patient-phase_at :
    (s : System) (ph : Phase) → s.holder ≡ some ph → Patient s → PatientAt s (some ph)
Patient-phase_at s ph e p = subst (PatientAt s) e p.phase

Move-Patient : (s u : System) (a : Action) → IsPatient a → Move s u a → Patient s → Patient u
Move-Patient s u _ n (releases k e) p = release-Patient s u k e p
Move-Patient s u _ n (enters j free known e) p =
    subst Patient (sym e) (enter_lock-Patient s j p.live p.active_up)
Move-Patient s u a n (advances ph held e) p =
    advance-Patient s u ph a n e p.live p.active_up (Patient-phase_at s ph held p)

free_phase : (s : System) → s.holder ≡ none → PatientAt s s.holder
free_phase s e = subst (PatientAt s) (sym e) tt

-- From a start with the lock free, no request in flight at a freed engine, and the active engine up,
-- a run in which no drain gives up by its timeout never has a request in flight at an engine that was
-- freed and not started again.
pub patient-RequestsLive :
    {s u : System}
    → s.holder ≡ none
    → RequestsLive s
    → ActiveUp s
    → ReachBy IsPatient s u
    → RequestsLive u
patient-RequestsLive {s} e live up r =
    (ReachBy-keeps Patient Move-Patient
      (record { live = live; active_up = up; phase = free_phase s e }) r).live

-- In such a run, if at most one engine may hold the GPU at the start and only the active one where
-- there is one, all requests in flight at known engines are at one engine, and where an engine is
-- active, at that one.
pub patient-OneEngine :
    {s u : System}
    → IsStart s
    → RequestsLive s
    → ActiveUp s
    → ReachBy IsPatient s u
    → (x y : String) → elem x u.manager.engines ≡ true
    → elem y u.manager.engines ≡ true
    → u.manager.inflight x ≢ 0
    → u.manager.inflight y ≢ 0
    → (x ≡ y) × ((a : String) → u.manager.active_engine ≡ some a → x ≡ a)
patient-OneEngine i live up r x y ex ey nx ny =
    let now = patient-RequestsLive i.free live up r in
    let (one, holds) = Reach-OneHolder i (ReachBy-Reach r) in
    (one x y ex ey (now x nx) (now y ny), λ a h. (holds a h).1 x ex (now x nx))
