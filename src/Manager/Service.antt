-- ===== src/Manager/Service.antt =====
-- What becomes of a call of `acquire` (router/engines.py, `EngineManager`) whose awaits all return.
use mathlib.Core.Option.{some-injective}
use local_engine_router.Common.{
  ◌≡◌, ◌≢◌, ◌∙◌, ◌+◌, ◌*◌, ℕ, zero, suc, length, String, some, none, Option, true, ◌∷◌, arith, List,
  subst, sym, ap, Bool-cases, inl, inr, refl, eq_refl, Option-cases,
}
use local_engine_router.Manager.Step.{
  System, Job, Phase, Action, advance, counting, counted, probing, load_draining, loading, draining,
  freeing, settling, starting, raises, started, drained, freed, settled, probed, loaded,
  start_returns, swap_loop, ensure_model_loaded, model_ready, enter_lock, swap_begun, gpu_freed,
  free_returns, go_free, settle_returns, settle_recorded, start, probe_returns, count_returns,
  is_key, swap_finished, drain_timeout,
}
use local_engine_router.Manager.Frame.{key_active}
use local_engine_router.Manager.Termination.{
  drive, resume, go_on, Answers, drive-free, enter-remaining,
}

-- The answer is no error and no cancellation.
abbrev pub IsReturn : Action → Type 0
IsReturn a = (dt : ℕ) → a ≢ raises dt

abbrev job_of : Phase → Job
job_of (draining j prev k ks) = j
job_of (freeing j prev k ks) = j
job_of (settling j prev) = j
job_of (starting j prev) = j
job_of (probing j m) = j
job_of (load_draining j m) = j
job_of (loading j m) = j
job_of (counting j) = j

-- Past the swap.
abbrev ActiveFrom : Phase → Option String → String → Type 0
ActiveFrom (probing j m) active t = active ≡ some t
ActiveFrom (load_draining j m) active t = active ≡ some t
ActiveFrom (loading j m) active t = active ≡ some t
ActiveFrom (counting j) active t = active ≡ some t
ActiveFrom ph active t = Unit

-- The call of `j` is under way, or it has been served; `n` and `served` are from before it.
abbrev Progress : Job → ℕ → List String → Option Phase → Option String → ℕ → List String → Type 0
Progress j n served none active now all =
    (active ≡ some j.target) × (now ≡ suc n) × (all ≡ j.target ∷ served)
Progress j n served (some ph) active now all =
    (job_of ph ≡ j) × (now ≡ n) × (all ≡ served) × ActiveFrom ph active j.target

abbrev Goes : Job → ℕ → List String → System → Type 0
Goes j n served s =
    Progress j n served s.holder s.manager.active_engine (s.manager.inflight j.target) s.served

module _ (j : Job) (n : ℕ) (served : List String) (is_counted : j.counts ≡ true) where
  module _ (s : System) (same : s.manager.inflight j.target ≡ n) (kept : s.served ≡ served) where
    swap_loop-Goes :
        (prev : Option String) (ks : List String) → Goes j n served (swap_loop s j prev ks)
    unfolding swap_loop start
    swap_loop-Goes prev ks = ground arith

    ensure-Goes :
        s.manager.active_engine ≡ some j.target → Goes j n served (ensure_model_loaded s j)
    unfolding ensure_model_loaded model_ready
    ensure-Goes e = ground arith

    ready-Goes : s.manager.active_engine ≡ some j.target → Goes j n served (model_ready s j)
    unfolding model_ready
    ready-Goes e = ground arith

-- A return of the holder's await brings its call on, or serves it.
returns-Goes :
    (s u : System) (ph : Phase) (a : Action)
    → (job_of ph).counts ≡ true
    → IsReturn a
    → advance s ph a ≡ some u
    → ActiveFrom ph s.manager.active_engine (job_of ph).target
    → Goes (job_of ph) (s.manager.inflight (job_of ph).target) s.served u
unfolding advance go_free settle_returns settle_recorded start free_returns gpu_freed start_returns
    swap_finished probe_returns model_ready count_returns
returns-Goes s u (draining i prev k ks) drained c ok e act = ground arith
returns-Goes s u (draining i prev k ks) drain_timeout c ok e act = ground arith
returns-Goes s u (freeing i prev k ks) freed c ok e act =
    subst (Goes i (s.manager.inflight i.target) s.served) (some-injective _ _ e)
      (swap_loop-Goes i (s.manager.inflight i.target) s.served c (gpu_freed s k) refl refl prev ks)
returns-Goes s u (settling i prev) (settled d) c ok e act = ground arith
returns-Goes s u (starting i prev) (started dt) c ok e act =
    subst (Goes i (s.manager.inflight i.target) s.served) (some-injective _ _ e) (
      ensure-Goes i (s.manager.inflight i.target) s.served c (swap_finished s prev i.target dt)
        (ground arith) refl (ground arith))
returns-Goes s u (probing i m) (probed names) c ok e act = ground arith
returns-Goes s u (load_draining i m) drained c ok e act = ground arith
returns-Goes s u (load_draining i m) drain_timeout c ok e act = ground arith
returns-Goes s u (loading i m) loaded c ok e act = ground arith
returns-Goes s u (counting i) counted c ok e act = ground (arith, eq_refl i.target)
returns-Goes s u ph (raises dt) c ok e act = absurd (ok dt refl)
returns-Goes s u ph a c ok e act = cc

-- No await raises.
abbrev pub AllReturn : (System → Phase → Action) → Type 0
AllReturn answer = (s : System) (ph : Phase) → IsReturn (answer s ph)

Goes-of_job :
    (i j : Job) (k n : ℕ) (old served : List String) (u : System)
    → i ≡ j
    → k ≡ n
    → old ≡ served
    → Goes i k old u
    → Goes j n served u
Goes-of_job i j k n old served u a b c g =
    subst (λ x. Goes x n served u) a
      (subst (λ x. Goes i x served u) b (subst (λ x. Goes i k x u) c g))

drive-Goes :
    (answer : System → Phase → Action) (m : ℕ) (s : System) (j : Job) (n : ℕ) (served : List String)
    → j.counts ≡ true
    → Answers answer
    → AllReturn answer
    → Goes j n served s
    → Goes j n served (drive answer m s)
unfolding drive
drive-Goes answer zero s j n served c good ok g = g
drive-Goes answer (suc m) s j n served c good ok g = elim (Option-cases s.holder) [
  | inl e ↦ subst (λ o. Goes j n served (resume answer (drive answer m) s o)) (sym e) g
  | inr (ph, e) ↦
      let (u, a) = good s ph in
      let now : Progress j n served (some ph) s.manager.active_engine (s.manager.inflight j.target)
          s.served =
        subst
          (λ o.
            Progress j n served o s.manager.active_engine (s.manager.inflight j.target) s.served)
          e g in
      let own : job_of ph ≡ j = now.0 in
      let moved : Goes j n served u =
        Goes-of_job (job_of ph) j (s.manager.inflight (job_of ph).target) n s.served served u own
          (ap (λ (x : Job). s.manager.inflight x.target) own ∙ now.1) now.2
          (returns-Goes s u ph (answer s ph) (ap (λ (x : Job). x.counts) own ∙ c) (ok s ph) a (
            subst (λ (x : Job). ActiveFrom ph s.manager.active_engine x.target) (sym own) now.3)) in
      subst (λ o. Goes j n served (resume answer (drive answer m) s o)) (sym e)
        (subst (λ r. Goes j n served (go_on (drive answer m) s r)) (sym a)
          (drive-Goes answer m u j n served c good ok moved))
]

enter_lock-Goes :
    (s : System) (j : Job)
    → j.counts ≡ true
    → Goes j (s.manager.inflight j.target) s.served (enter_lock s j)
unfolding enter_lock swap_begun
enter_lock-Goes s j c = elim (Bool-cases (is_key s.manager.active_engine j.target)) [
  | inl e ↦ rw e (ensure-Goes j _ _ c s refl refl (key_active s.manager.active_engine j.target e))
  | inr e ↦ rw e (
      swap_loop-Goes j _ _ c (swap_begun s j.target) refl refl s.manager.active_engine
        s.manager.engines)
]

-- The request of `j` has been counted and the lock is free.
pub record IsServed (s u : System) (j : Job) : Type 0 where
  pub lock_free : u.holder ≡ none
  pub now_active : u.manager.active_engine ≡ some j.target
  pub counted_once : u.manager.inflight j.target ≡ suc (s.manager.inflight j.target)
  pub handed_out : u.served ≡ j.target ∷ s.served

served_at_end :
    (s u : System) (j : Job)
    → u.holder ≡ none
    → Goes j (s.manager.inflight j.target) s.served u
    → IsServed s u j
served_at_end s u j e g =
    let done =
      subst
        (λ o.
          Progress j (s.manager.inflight j.target) s.served o u.manager.active_engine
            (u.manager.inflight j.target) u.served)
        e g in
    record { lock_free = e; now_active = done.0; counted_once = done.1; handed_out = done.2 }

-- If no await of a call of `acquire` raises, then, whatever else they answer and also where drains give
-- up, the call serves its request after at most 2 n + 6 answers, with n the number of engines: the
-- target is active, its count has gone up by one, and the lock is free.
pub acquire-IsServed :
    (answer : System → Phase → Action) (s : System) (j : Job)
    → Answers answer
    → AllReturn answer
    → j.counts ≡ true
    → IsServed s (drive answer (6 + 2 * length s.manager.engines) (enter_lock s j)) j
acquire-IsServed answer s j good ok c =
    served_at_end s (drive answer (6 + 2 * length s.manager.engines) (enter_lock s j)) j
      (drive-free answer _ (enter_lock s j) good (enter-remaining s j))
      (drive-Goes answer _ (enter_lock s j) j (s.manager.inflight j.target) s.served c good ok
        (enter_lock-Goes s j c))
