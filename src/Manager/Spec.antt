-- ===== src/Manager/Spec.antt =====
-- What EngineManager (router/engines.py) promises, with nothing of how it swaps: one engine at a time
-- owns the GPU, and only requests for it are let in. The swap machine refines it.
use mathlib.Core.Option.{some-injective}
use local_engine_router.Common.{
  ◌≡◌, ◌∙◌, ℕ, String, some, none, Option, Bool, true, false, ◌∷◌, arith, elem, erase, List, [],
  subst, sym, Bool-cases, inl, inr, refl,
}
use local_engine_router.Manager.Step.{
  System, Job, Phase, Action, advance, counting, counted, probing, load_draining, loading, draining,
  freeing, settling, starting, raises, started, enter, released, drained, freed, settled, probed,
  loaded, fail_swap, start_returns, swap_loop, ensure_model_loaded, model_ready, enter_lock,
  swap_begun, gpu_freed, free_returns, go_free, settle_returns, settle_recorded, start,
  probe_returns, count_returns, is_key, swap_finished, drain_timeout, fail_load, release_served,
}
use local_engine_router.Manager.Reach.{
  Reach, here, next, Move, releases, enters, advances, step-Move,
}
use local_engine_router.Manager.Exclusion.{Inv, PhaseOk, LoopOk}
use local_engine_router.Manager.Safety.{IsStart, Reach-Inv, phase_at}

-- The engine that owns the GPU, and the engines of the requests in flight.
pub record Service : Type 0 where
  pub owner : Option String
  pub requests : List String

-- What a client cannot see, unless the engine that owns the GPU is stopped by it.
abbrev pub is_quiet : Action → Bool
is_quiet (started dt) = false
is_quiet counted = false
is_quiet (released k) = false
is_quiet x = true

-- A drain that ends, after which the engine is stopped, and an await that raises.
abbrev pub may_revoke : Action → Bool
may_revoke drained = true
may_revoke drain_timeout = true
may_revoke (raises dt) = true
may_revoke x = false

-- What an action may do to the service.
pub data Turn (a b : Service) : Action → Type 0 where
  -- nothing that a client sees
  idle : {x : Action} → is_quiet x ≡ true → b.owner ≡ a.owner → b.requests ≡ a.requests → Turn a b x
  -- the owner loses the GPU
  revoke :
      {x : Action} → may_revoke x ≡ true → b.owner ≡ none → b.requests ≡ a.requests → Turn a b x
  -- an engine gets the GPU, which no engine owns, when its start returns
  grant :
      (k : String) (dt : ℕ)
      → a.owner ≡ none
      → b.owner ≡ some k
      → b.requests ≡ a.requests
      → Turn a b (started dt)
  -- a request is let in, at the owner only
  admit :
      (k : String)
      → a.owner ≡ some k
      → b.owner ≡ a.owner
      → b.requests ≡ k ∷ a.requests
      → Turn a b counted
  -- a request ends
  finish :
      (k : String)
      → elem k a.requests ≡ true
      → b.owner ≡ a.owner
      → b.requests ≡ erase k a.requests
      → Turn a b (released k)

-- The turns of a sequence of actions, the newest first.
pub data Turns (a : Service) : List Action → Service → Type 0 where
  none_yet : Turns a [] a
  then_turn :
      {b c : Service} {xs : List Action}
      → Turns a xs b
      → (x : Action) → Turn b c x
      → Turns a (x ∷ xs) c

-- The actions of a run, the newest first.
unfoldable pub actions : {s u : System} → Reach s u → List Action
actions here = []
actions (next r a e) = a ∷ actions r

abbrev pub view : System → Service
view s = record { owner = s.manager.active_engine; requests = s.served }

idle_loop :
    (s : System) (j : Job) (prev : Option String) (ks : List String) (x : Action)
    → is_quiet x ≡ true
    → Turn (view s) (view (swap_loop s j prev ks)) x
unfolding swap_loop start
idle_loop s j prev ks x q = idle q (ground arith) (ground arith)

idle_ensure :
    (s : System) (j : Job)
    → ((ensure_model_loaded s j).manager.active_engine ≡ s.manager.active_engine)
      × ((ensure_model_loaded s j).served ≡ s.served)
unfolding ensure_model_loaded model_ready
idle_ensure s j = (ground arith, ground arith)

finished_owner :
    (s : System) (prev : Option String) (k : String) (dt : ℕ)
    → ((swap_finished s prev k dt).manager.active_engine ≡ some k)
      × ((swap_finished s prev k dt).served ≡ s.served)
unfolding swap_finished
finished_owner s prev k dt = (ground arith, ground arith)

no_owner :
    (engines : List String) (active : Option String) (gpu : String → Bool) (t : String)
    → LoopOk engines active gpu t []
    → active ≡ none
no_owner engines none gpu t l = refl
no_owner engines (some a) gpu t l = absurd (ground (arith, (l.active_left a refl).0))

release-Turn :
    (s u : System) (k : String) → release_served s k ≡ some u → Turn (view s) (view u) (released k)
unfolding release_served
release-Turn s u k e = elim (Bool-cases (elem k s.served)) [
  | inl held ↦ finish k held (ground arith) (ground arith)
  | inr not_held ↦ absurd (ground arith)
]

enter-Turn : (s : System) (j : Job) → Turn (view s) (view (enter_lock s j)) (enter j)
unfolding enter_lock swap_begun
enter-Turn s j = elim (Bool-cases (is_key s.manager.active_engine j.target)) [
  | inl e ↦ rw e (idle refl (idle_ensure s j).0 (idle_ensure s j).1)
  | inr e ↦
      rw e (
        idle_loop (swap_begun s j.target) j s.manager.active_engine s.manager.engines (enter j)
          refl)
]

advance-Turn :
    (s u : System) (ph : Phase) (a : Action)
    → advance s ph a ≡ some u
    → PhaseOk s (some ph)
    → Turn (view s) (view u) a
unfolding advance go_free settle_returns settle_recorded start free_returns gpu_freed start_returns
    swap_finished probe_returns model_ready count_returns fail_swap fail_load
advance-Turn s u (draining i prev k ks) drained e ok = revoke refl (ground arith) (ground arith)
advance-Turn s u (draining i prev k ks) drain_timeout e ok =
    revoke refl (ground arith) (ground arith)
advance-Turn s u (draining i prev k ks) (raises dt) e ok = revoke refl (ground arith) (ground arith)
advance-Turn s u (freeing i prev k ks) freed e ok =
    subst (λ x. Turn (view s) (view x) freed) (some-injective _ _ e)
      (idle_loop (gpu_freed s k) i prev ks freed refl)
advance-Turn s u (freeing i prev k ks) (raises dt) e ok = revoke refl (ground arith) (ground arith)
advance-Turn s u (settling i prev) (settled d) e ok = idle refl (ground arith) (ground arith)
advance-Turn s u (settling i prev) (raises dt) e ok = revoke refl (ground arith) (ground arith)
advance-Turn s u (starting i prev) (started dt) e ok =
    subst (λ x. Turn (view s) (view x) (started dt)) (some-injective _ _ e)
      (let same = idle_ensure (swap_finished s prev i.target dt) i in
        grant i.target dt (no_owner s.manager.engines s.manager.active_engine s.gpu i.target ok)
          (same.0 ∙ (finished_owner s prev i.target dt).0)
          (same.1 ∙ (finished_owner s prev i.target dt).1))
advance-Turn s u (starting i prev) (raises dt) e ok = revoke refl (ground arith) (ground arith)
advance-Turn s u (probing i m) (probed names) e ok = idle refl (ground arith) (ground arith)
advance-Turn s u (probing i m) (raises dt) e ok = idle refl (ground arith) (ground arith)
advance-Turn s u (load_draining i m) drained e ok = idle refl (ground arith) (ground arith)
advance-Turn s u (load_draining i m) drain_timeout e ok = idle refl (ground arith) (ground arith)
advance-Turn s u (load_draining i m) (raises dt) e ok = idle refl (ground arith) (ground arith)
advance-Turn s u (loading i m) loaded e ok = idle refl (ground arith) (ground arith)
advance-Turn s u (loading i m) (raises dt) e ok = idle refl (ground arith) (ground arith)
advance-Turn s u (counting i) counted e ok = admit i.target ok (ground arith) (ground arith)
advance-Turn s u (counting i) (raises dt) e ok = idle refl (ground arith) (ground arith)
advance-Turn s u ph a e ok = cc

Move-Turn : (s u : System) (a : Action) → Move s u a → Inv s → Turn (view s) (view u) a
Move-Turn s u _ (releases k e) v = release-Turn s u k e
Move-Turn s u _ (enters j free known e) v =
    subst (λ x. Turn (view s) (view x) (enter j)) (sym e) (enter-Turn s j)
Move-Turn s u a (advances ph held e) v = advance-Turn s u ph a e (phase_at v held)

-- From a start with the lock free, in which at most one engine may hold the GPU and only the active
-- one if there is one, every run of the swap machine is, action by action, a run of the service: an
-- engine becomes owner only when a start returns and while there is no owner; the owner loses the GPU
-- only where a drain has ended or an await raises; a request is let in only when its counting
-- returns, and at the owner; it ends only by its release; and every other action changes neither.
pub Reach-Turns : {s u : System} → IsStart s → (r : Reach s u) → Turns (view s) (actions r) (view u)
unfolding actions
Reach-Turns i here = none_yet
Reach-Turns i (next {t} {u} r a e) =
    then_turn (Reach-Turns i r) a (Move-Turn t u a (step-Move t u a e) (Reach-Inv i r))
