-- ===== src/Manager/Safety.antt =====
-- What holds in every state of router/engines.py, `EngineManager`, that a run reaches.
use local_engine_router.Common.{
  ◌≡◌, suc, String, some, none, true, arith, elem, subst, sym, eq_refl,
}
use local_engine_router.Manager.Step.{
  System, Job, Phase, step, advance, counting, counted, count_returns,
}
use local_engine_router.Manager.Exclusion.{OneHolder, ActiveHolds, PhaseOk, Inv}
use local_engine_router.Manager.Exclusion.Keeps.{Move-Inv}
use local_engine_router.Manager.Reach.{Reach, next, Reach-keeps}

-- The lock is free, at most one engine holds the GPU, and the active engine, if any, is it.
pub record IsStart (s : System) : Type 0 where
  pub free : s.holder ≡ none
  pub one : OneHolder s
  pub active_holds : ActiveHolds s

pub Reach-Inv : {s u : System} → IsStart s → Reach s u → Inv u
Reach-Inv {s} i r =
    Reach-keeps Inv Move-Inv
      (record {
        one = i.one;
        active_holds = i.active_holds;
        phase = subst (PhaseOk s) (sym i.free) tt;
      })
      r

-- From a start in which the lock is free, at most one engine may hold the GPU and only the active one
-- if there is one, every reachable state has at most one engine that may hold the GPU, and where an
-- engine is active no other one may hold it.
pub Reach-OneHolder : {s u : System} → IsStart s → Reach s u → OneHolder u × ActiveHolds u
Reach-OneHolder i r = let v = Reach-Inv i r in (v.one, v.active_holds)

pub phase_at : {u : System} {ph : Phase} → Inv u → u.holder ≡ some ph → PhaseOk u (some ph)
phase_at {u} v e = subst (PhaseOk u) e v.phase

counts_it :
    (u v : System) (j : Job)
    → u.manager.active_engine ≡ some j.target
    → u.holder ≡ some (counting j)
    → step u counted ≡ some v
    → (v.manager.active_engine ≡ some j.target)
      × (v.manager.inflight j.target ≡ suc (u.manager.inflight j.target))
      × (v.holder ≡ none)
unfolding step advance count_returns
counts_it u v j a h e = ground (arith, eq_refl j.target)

-- In a run from such a start, when `acquire` counts its request (its last step), the target is the
-- active engine, no other engine may hold the GPU, the target's count has gone up by one, and the lock
-- is free.
pub acquire_serves :
    {s u v : System} (j : Job)
    → IsStart s
    → Reach s u
    → u.holder ≡ some (counting j)
    → step u counted ≡ some v
    → (v.manager.active_engine ≡ some j.target)
      × (v.manager.inflight j.target ≡ suc (u.manager.inflight j.target))
      × (v.holder ≡ none)
      × ((x : String) → elem x v.manager.engines ≡ true → v.gpu x ≡ true → x ≡ j.target)
acquire_serves {u} {v} j i r h e =
    let (active, rest, free) = counts_it u v j (phase_at (Reach-Inv i r) h) h e in
    (active, rest, free, ((Reach-Inv i (next r counted e)).active_holds j.target active).1)
