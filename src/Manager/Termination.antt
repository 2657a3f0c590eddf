-- ===== src/Manager/Termination.antt =====
-- The lock of router/engines.py, `EngineManager`, is given back: each answer brings the holder nearer
-- to its end.
use local_engine_router.Common.{
  ℕ, zero, suc, ◌+◌, ◌*◌, ◌≤◌, ◌<◌, ◌≡◌, refl, String, some, none, Option, arith, List, [], ◌∷◌,
  length, Option-cases, inl, inr, ap, ◌∙◌,
}
use local_engine_router.Manager.Step.{
  System, Job, Phase, Action, advance, counting, draining, freeing, settling, starting, probing,
  load_draining, loading, next_engine, swap_loop, ensure_model_loaded, enter_lock, free_returns,
  swap_begun, gpu_freed, swap_finished, settle_returns, start_returns, probe_returns, count_returns,
  model_ready, go_free, fail_swap, start, fail_load, freed, started,
}

-- How many answers the holder may still wait for.
abbrev pub remaining : Option Phase → ℕ
remaining none = 0
remaining (some (counting j)) = 1
remaining (some (loading j m)) = 2
remaining (some (load_draining j m)) = 3
remaining (some (probing j m)) = 4
remaining (some (starting j prev)) = 5
remaining (some (settling j prev)) = 6
remaining (some (freeing j prev k ks)) = 7 + 2 * length ks
remaining (some (draining j prev k ks)) = 8 + 2 * length ks

next_engine_shorter :
    (t k : String) (ks rest : List String)
    → next_engine t ks ≡ some (k, rest)
    → length rest < length ks
unfolding next_engine
next_engine_shorter t k [] rest e = absurd (ground arith)
next_engine_shorter t k (y ∷ ks) rest e = ground (arith, next_engine_shorter t k ks rest)

swap_loop-remaining :
    (s : System) (j : Job) (prev : Option String) (ks : List String)
    → remaining (swap_loop s j prev ks).holder ≤ 6 + 2 * length ks
unfolding swap_loop start
swap_loop-remaining s j prev ks = elim (Option-cases (next_engine j.target ks)) [
  | inl e ↦ ground arith
  | inr ((k, rest), e) ↦ ground (arith, next_engine_shorter j.target k ks rest e)
]

ensure-remaining : (s : System) (j : Job) → remaining (ensure_model_loaded s j).holder ≤ 4
unfolding ensure_model_loaded model_ready
ensure-remaining s j = ground arith

pub enter-remaining :
    (s : System) (j : Job) → remaining (enter_lock s j).holder ≤ 6 + 2 * length s.manager.engines
unfolding enter_lock
enter-remaining s j = ground (
  arith,
  ensure-remaining s j,
  swap_loop-remaining (swap_begun s j.target) j s.manager.active_engine s.manager.engines,
)

-- Every answer that an await can give, be it an error, brings the holder strictly nearer to the end.
pub advance-remaining :
    (s u : System) (ph : Phase) (a : Action)
    → advance s ph a ≡ some u
    → remaining u.holder < remaining (some ph)
unfolding advance go_free fail_swap fail_load model_ready probe_returns count_returns start
    settle_returns free_returns start_returns
advance-remaining s u (freeing j prev k ks) freed e =
    ground (arith, swap_loop-remaining (gpu_freed s k) j prev ks)
advance-remaining s u (starting j prev) (started dt) e =
    ground (arith, ensure-remaining (swap_finished s prev j.target dt) j)
advance-remaining s u ph a e = ground arith

-- One own step of the holder, if there is one, and then `next`.
abbrev pub go_on : (System → System) → System → Option System → System
go_on next s none = s
go_on next s (some u) = next u

abbrev pub resume : (System → Phase → Action) → (System → System) → System → Option Phase → System
resume answer next s none = s
resume answer next s (some ph) = go_on next s (advance s ph (answer s ph))

-- The holder's own steps, with `answer` for what its awaits give; other tasks' releases between them
-- are left out, since they leave the holder where it is.
unfoldable pub drive : (System → Phase → Action) → ℕ → System → System
drive answer zero s = s
drive answer (suc n) s = resume answer (drive answer n) s s.holder

-- Each answer is one that its await can give.
abbrev pub Answers : (System → Phase → Action) → Type 0
Answers answer = (s : System) (ph : Phase) → (u : System) × (advance s ph (answer s ph) ≡ some u)

remaining_pos : (ph : Phase) → 0 < remaining (some ph)
remaining_pos (counting j) = omega arith
remaining_pos ph = omega arith

pub no_more : (o : Option Phase) → remaining o ≤ 0 → o ≡ none
no_more none h = refl
no_more (some ph) h = absurd (ground (arith, remaining_pos ph))

pub drive-free :
    (answer : System → Phase → Action) (n : ℕ) (s : System)
    → Answers answer
    → remaining s.holder ≤ n
    → (drive answer n s).holder ≡ none
unfolding drive
drive-free answer zero s good h = no_more s.holder h
drive-free answer (suc n) s good h = elim (Option-cases s.holder) [
  | inl e ↦ ap (λ o. (resume answer (drive answer n) s o).holder) e ∙ e
  | inr (ph, e) ↦
      let (u, a) = good s ph in
      let near : remaining s.holder ≡ remaining (some ph) = ap remaining e in
      ap (λ o. (resume answer (drive answer n) s o).holder) e
      ∙ ap (λ r. (go_on (drive answer n) s r).holder) a
      ∙ drive-free answer n u good (omega (arith, near, advance-remaining s u ph (answer s ph) a))
]

-- Whatever the awaits answer, errors and timeouts included, a call that obtains the lock gives it back
-- after at most 2 n + 6 answers, with n the number of engines.
pub enter_lock-frees :
    (answer : System → Phase → Action) (s : System) (j : Job)
    → Answers answer
    → (drive answer (6 + 2 * length s.manager.engines) (enter_lock s j)).holder ≡ none
enter_lock-frees answer s j good = drive-free answer _ (enter_lock s j) good (enter-remaining s j)
