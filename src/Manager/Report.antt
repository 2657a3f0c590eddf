-- ===== src/Manager/Report.antt =====
-- The report of the last swap (`_last_swap` of router/engines.py, `EngineManager`), which `/status`
-- shows, against the engine that is active.
use mathlib.Core.Option.{some-injective}
use local_engine_router.Common.{
  ◌≡◌, String, some, none, Option, arith, List, ℕ, subst, sym, Bool-cases, inl, inr, elem,
  if◌then◌else◌,
}
use local_engine_router.Manager.State.{Manager, SwapRecord, release}
use local_engine_router.Manager.Step.{
  System, Job, Phase, Action, advance, draining, freeing, settling, starting, swap_loop,
  ensure_model_loaded, enter_lock, free_returns, swap_begun, gpu_freed, swap_finished,
  settle_returns, settle_recorded, start_returns, probe_returns, count_returns, model_ready,
  go_free, fail_swap, start, is_key, release_served, fail_load, freed, settled, started,
}
use local_engine_router.Manager.Reach.{Reach, Reach-keeps, Move, releases, enters, advances}

-- The engine that a swap leaves active: its target, or none where it failed.
abbrev pub left_by : SwapRecord → Option String
left_by r = if r.succeeded then some r.to_key else none

abbrev pub Agrees : Option SwapRecord → Option String → Type 0
Agrees none active = Unit
Agrees (some r) active = active ≡ left_by r

abbrev Told : Manager → Type 0
Told m = Agrees m.last_swap m.active_engine

abbrev pub ToldAt : Manager → Option Phase → Type 0
ToldAt m (some (draining j prev k ks)) = Unit
ToldAt m (some (freeing j prev k ks)) = Unit
ToldAt m (some (settling j prev)) = Unit
ToldAt m (some (starting j prev)) = Unit
ToldAt m ph = Told m

-- Where no swap is under way, the active engine is what the last swap on record left.
pub record IsReported (s : System) : Type 0 where
  pub told : ToldAt s.manager s.holder

swap_loop-IsReported :
    (s : System) (j : Job) (prev : Option String) (ks : List String)
    → IsReported (swap_loop s j prev ks)
unfolding swap_loop
swap_loop-IsReported s j prev ks = ground arith

ensure-IsReported : (s : System) (j : Job) → Told s.manager → IsReported (ensure_model_loaded s j)
unfolding ensure_model_loaded
ensure-IsReported s j v = ground arith

finished-Told :
    (s : System) (prev : Option String) (k : String) (dt : ℕ)
    → Told (swap_finished s prev k dt).manager
unfolding swap_finished
finished-Told s prev k dt = ground arith

advance-IsReported :
    (s u : System) (ph : Phase) (a : Action)
    → advance s ph a ≡ some u
    → ToldAt s.manager (some ph)
    → IsReported u
unfolding advance go_free fail_swap fail_load settle_returns settle_recorded start count_returns
    probe_returns model_ready
advance-IsReported s u (freeing j prev k ks) freed e v =
    subst IsReported (some-injective _ _ e)
      (unfold free_returns gpu_freed in swap_loop-IsReported (gpu_freed s k) j prev ks)
advance-IsReported s u (starting j prev) (started dt) e v =
    subst IsReported (some-injective _ _ e) (
      unfold start_returns in
      ensure-IsReported (swap_finished s prev j.target dt) j (finished-Told s prev j.target dt))
advance-IsReported s u (settling j prev) (settled n) e v =
    subst IsReported (some-injective _ _ e) (record { told = tt })
advance-IsReported s u ph a e v = ground arith

enter-IsReported :
    (s : System) (j : Job) → s.holder ≡ none → IsReported s → IsReported (enter_lock s j)
unfolding enter_lock swap_begun
enter-IsReported s j e m = elim (Bool-cases (is_key s.manager.active_engine j.target)) [
  | inl c ↦ rw c (ensure-IsReported s j (subst (ToldAt s.manager) e m.told))
  | inr c ↦
      rw c
        (swap_loop-IsReported (swap_begun s j.target) j s.manager.active_engine s.manager.engines)
]

release-ToldAt :
    (m : Manager) (k : String) (ph : Option Phase) → ToldAt m ph → ToldAt (release m k) ph
unfolding release
release-ToldAt m k none v = v
release-ToldAt m k (some (draining j prev x ks)) v = v
release-ToldAt m k (some ph) v = v

release-IsReported :
    (s u : System) (k : String) → release_served s k ≡ some u → IsReported s → IsReported u
unfolding release_served
release-IsReported s u k e m = elim (Bool-cases (elem k s.served)) [
  | inl held ↦
      subst IsReported (some-injective _ _ (rw held at e))
        (record { told = release-ToldAt s.manager k s.holder m.told })
  | inr not_held ↦ absurd (ground arith)
]

Move-IsReported : (s u : System) (a : Action) → Move s u a → IsReported s → IsReported u
Move-IsReported s u _ (releases k e) m = release-IsReported s u k e m
Move-IsReported s u _ (enters j free known e) m =
    subst IsReported (sym e) (enter-IsReported s j free m)
Move-IsReported s u a (advances ph held e) m =
    advance-IsReported s u ph a e (subst (ToldAt s.manager) held m.told)

-- In every state that a run reaches in which no swap is under way, whatever errors, cancellations and
-- timeouts came before, the active engine is the target of the last swap on record where that is on
-- record as a success, and there is none where it is on record as a failure, if it is so at the start.
pub Reach-IsReported : {s u : System} → IsReported s → Reach s u → IsReported u
Reach-IsReported m r = Reach-keeps IsReported Move-IsReported m r
