-- ===== src/Manager/Mirror.antt =====
-- The copies of the active engine that router/engines.py, `EngineManager`, keeps in the metrics and in
-- the state file.
use mathlib.Core.Option.{some-injective}
use local_engine_router.Common.{
  ◌≡◌, String, some, none, Option, true, arith, List, subst, sym, Bool-cases, inl, inr, elem,
}
use local_engine_router.Manager.State.{Manager, release}
use local_engine_router.Manager.Step.{
  System, Job, Phase, Action, advance, counting, draining, freeing, settling, starting, probing,
  load_draining, loading, swap_loop, ensure_model_loaded, enter_lock, free_returns, swap_begun,
  gpu_freed, swap_finished, settle_returns, settle_recorded, start_returns, probe_returns,
  count_returns, model_ready, go_free, fail_swap, start, is_key, release_served, fail_load, drained,
  freed, settled, started, probed, loaded, counted,
}
use local_engine_router.Manager.Reach.{Reach, Reach-keeps, Move, releases, enters, advances}

-- What the state file holds while no swap is under way.
abbrev Saved : Manager → Type 0
Saved m =
    m.disk_ok ≡ true
    → m.state_file ≡ some (record { active_engine = m.active_engine; last_swap = m.last_swap })

abbrev SavedAt : Manager → Option Phase → Type 0
SavedAt m (some (draining j prev k ks)) = Unit
SavedAt m (some (freeing j prev k ks)) = Unit
SavedAt m (some (settling j prev)) = Unit
SavedAt m (some (starting j prev)) = Unit
SavedAt m ph = Saved m

pub record Mirror (s : System) : Type 0 where
  pub gauge : s.manager.metrics.active ≡ s.manager.active_engine
  pub saved : SavedAt s.manager s.holder

Mirror-swap_loop :
    (s : System) (j : Job) (prev : Option String) (ks : List String)
    → s.manager.metrics.active ≡ s.manager.active_engine
    → Mirror (swap_loop s j prev ks)
unfolding swap_loop
Mirror-swap_loop s j prev ks g = ground arith

Mirror-ensure :
    (s : System) (j : Job)
    → s.manager.metrics.active ≡ s.manager.active_engine
    → Saved s.manager
    → Mirror (ensure_model_loaded s j)
unfolding ensure_model_loaded
Mirror-ensure s j g v = ground arith

advance-Mirror :
    (s u : System) (ph : Phase) (a : Action)
    → advance s ph a ≡ some u
    → s.manager.metrics.active ≡ s.manager.active_engine
    → SavedAt s.manager (some ph)
    → Mirror u
unfolding advance go_free fail_swap fail_load settle_returns settle_recorded start count_returns
    probe_returns model_ready
advance-Mirror s u (freeing j prev k ks) freed e g v =
    subst Mirror (some-injective _ _ e)
      (unfold free_returns gpu_freed in Mirror-swap_loop (gpu_freed s k) j prev ks g)
advance-Mirror s u (starting j prev) (started dt) e g v = subst Mirror (some-injective _ _ e) (
    unfold start_returns swap_finished in
    Mirror-ensure (swap_finished s prev j.target dt) j (ground arith) (ground arith))
advance-Mirror s u (draining j prev k ks) drained e g v = ground arith
advance-Mirror s u (settling j prev) (settled n) e g v =
    subst Mirror (some-injective _ _ e) (record { gauge = g; saved = tt })
advance-Mirror s u (probing j m) (probed names) e g v = ground arith
advance-Mirror s u (load_draining j m) drained e g v = ground arith
advance-Mirror s u (loading j m) loaded e g v = ground arith
advance-Mirror s u (counting j) counted e g v = ground arith
advance-Mirror s u ph a e g v = ground arith

enter-Mirror : (s : System) (j : Job) → s.holder ≡ none → Mirror s → Mirror (enter_lock s j)
unfolding enter_lock swap_begun
enter-Mirror s j e m = elim (Bool-cases (is_key s.manager.active_engine j.target)) [
  | inl c ↦ rw c (Mirror-ensure s j m.gauge (subst (SavedAt s.manager) e m.saved))
  | inr c ↦
      rw c (
        Mirror-swap_loop (swap_begun s j.target) j s.manager.active_engine s.manager.engines
          m.gauge)
]

release-SavedAt :
    (m : Manager) (k : String) (ph : Option Phase) → SavedAt m ph → SavedAt (release m k) ph
unfolding release
release-SavedAt m k none v = v
release-SavedAt m k (some (draining j prev x ks)) v = v
release-SavedAt m k (some ph) v = v

release-Mirror : (s u : System) (k : String) → release_served s k ≡ some u → Mirror s → Mirror u
unfolding release_served
release-Mirror s u k e m = elim (Bool-cases (elem k s.served)) [
  | inl held ↦
      subst Mirror (some-injective _ _ (rw held at e))
        (record { gauge = m.gauge; saved = release-SavedAt s.manager k s.holder m.saved })
  | inr not_held ↦ absurd (ground arith)
]

Move-Mirror : (s u : System) (a : Action) → Move s u a → Mirror s → Mirror u
Move-Mirror s u _ (releases k e) m = release-Mirror s u k e m
Move-Mirror s u _ (enters j free known e) m = subst Mirror (sym e) (enter-Mirror s j free m)
Move-Mirror s u a (advances ph held e) m =
    advance-Mirror s u ph a e m.gauge (subst (SavedAt s.manager) held m.saved)

-- In every state that a run reaches, the engine that the metrics report as active is the manager's
-- active engine, if it is so at the start, and, if the state file can be written, it holds the active
-- engine and the last swap whenever no swap is under way, if it does at the start.
pub Reach-Mirror : {s u : System} → Mirror s → Reach s u → Mirror u
Reach-Mirror m r = Reach-keeps Mirror Move-Mirror m r
