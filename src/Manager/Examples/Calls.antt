-- ===== src/Manager/Examples/Calls.antt =====
-- A call of `acquire` whose awaits all return, and the run from "a" to "b" seen from outside.
use local_engine_router.Common.{
  ℕ, zero, suc, ◌≡◌, ◌+◌, ◌*◌, refl, arith, String, Option, List, [], ◌∷◌, length, some, Dict, Bool,
  true, elem, ◌==◌,
}
use local_engine_router.Routing.{Kind, generic_process, api_swap}
use local_engine_router.Manager.Safety.{IsStart}
use local_engine_router.Manager.Startup.{startup, started_system, startup-IsStart}
use local_engine_router.Manager.Step.{
  System, Job, Phase, Action, advance, enter_lock, go_free, drained, drain_timeout, freed, settled,
  started, probed, loaded, counted, raises, draining, freeing, settling, starting, probing,
  load_draining, loading, counting,
}
use local_engine_router.Manager.Termination.{Answers, drive}
use local_engine_router.Manager.Service.{AllReturn, IsServed, acquire-IsServed}
use local_engine_router.Manager.Spec.{view, Turns, actions, Reach-Turns}
use local_engine_router.Manager.Examples.{manager_a, at_a, at_b, job_b, to_b, at_a-IsStart}

-- Drains wait until no request is in flight, or give up; nothing raises.
abbrev drain_answer : ℕ → Action
drain_answer zero = drained
drain_answer (suc n) = drain_timeout

abbrev all_return : System → Phase → Action
all_return s (draining j prev k ks) = drain_answer (s.manager.inflight k)
all_return s (freeing j prev k ks) = freed
all_return s (settling j prev) = settled 1500
all_return s (starting j prev) = started 4000
all_return s (probing j m) = probed []
all_return s (load_draining j m) = drain_answer (s.manager.inflight j.target)
all_return s (loading j m) = loaded
all_return s (counting j) = counted

drain_ends :
    (s : System) (j : Job) (prev : Option String) (k : String) (ks : List String) (n : ℕ)
    → s.manager.inflight k ≡ n
    → (u : System) × (advance s (draining j prev k ks) (drain_answer n) ≡ some u)
unfolding advance
drain_ends s j prev k ks zero e = (go_free s j prev k ks, ground arith)
drain_ends s j prev k ks (suc n) e = (go_free s j prev k ks, ground arith)

load_drain_ends :
    (s : System) (j : Job) (m : String) (n : ℕ)
    → s.manager.inflight j.target ≡ n
    → (u : System) × (advance s (load_draining j m) (drain_answer n) ≡ some u)
unfolding advance
load_drain_ends s j m zero e = (record s { holder = some (loading j m) }, ground arith)
load_drain_ends s j m (suc n) e = (record s { holder = some (loading j m) }, ground arith)

all_return-Answers : Answers all_return
unfolding advance
all_return-Answers s (draining j prev k ks) = drain_ends s j prev k ks (s.manager.inflight k) refl
all_return-Answers s (freeing j prev k ks) = (_, refl)
all_return-Answers s (settling j prev) = (_, refl)
all_return-Answers s (starting j prev) = (_, refl)
all_return-Answers s (probing j m) = (_, refl)
all_return-Answers s (load_draining j m) = load_drain_ends s j m (s.manager.inflight j.target) refl
all_return-Answers s (loading j m) = (_, refl)
all_return-Answers s (counting j) = (_, refl)

drain_returns : (n dt : ℕ) → drain_answer n ≡ raises dt → ⊥
drain_returns zero dt e = cc
drain_returns (suc n) dt e = cc

all_return-AllReturn : AllReturn all_return
all_return-AllReturn s (draining j prev k ks) dt e = drain_returns (s.manager.inflight k) dt e
all_return-AllReturn s (load_draining j m) dt e = drain_returns (s.manager.inflight j.target) dt e
all_return-AllReturn s ph dt e = cc

acquire-IsServed_example :
    IsServed at_a
      (drive all_return (6 + 2 * length at_a.manager.engines) (enter_lock at_a job_b))
      job_b
acquire-IsServed_example =
    acquire-IsServed all_return at_a job_b all_return-Answers all_return-AllReturn refl

Reach-Turns_example : Turns (view at_a) (actions to_b) (view at_b)
Reach-Turns_example = Reach-Turns at_a-IsStart to_b

-- "a" runs a process and is ready; "b" has no model loaded.
abbrev table : Dict Kind
table = ("a", generic_process) ∷ ("b", api_swap) ∷ []

abbrev gpu_at_a : String → Bool
gpu_at_a k = "a" == k

startup-IsStart_example :
    IsStart (started_system (startup gpu_at_a gpu_at_a table manager_a) gpu_at_a)
    × ((k : String)
        → elem k manager_a.engines ≡ true
        → gpu_at_a k ≡ true
        → (startup gpu_at_a gpu_at_a table manager_a).active_engine ≡ some k)
startup-IsStart_example =
    startup-IsStart gpu_at_a gpu_at_a gpu_at_a table manager_a refl (refl, (refl, tt))
      at_a-IsStart.one
