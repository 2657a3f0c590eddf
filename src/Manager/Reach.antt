-- ===== src/Manager/Reach.antt =====
-- Runs of the swap machine (router/engines.py, `EngineManager`).
use local_engine_router.Common.{
  ◌≡◌, ap, none, some, true, String, arith, elem, Option-cases, inl, inr,
}
use local_engine_router.Manager.Step.{
  System, Job, Phase, Action, step, advance, enter_lock, release_served, holder_step, enter,
  released,
}

-- The states that a sequence of actions leads to.
pub data Reach (s : System) : System → Type 0 where
  here : Reach s s
  next : {t u : System} → Reach s t → (a : Action) → step t a ≡ some u → Reach s u

-- What one step may do: a release, an entry, or an answer to the holder's await.
pub data Move (s u : System) : Action → Type 0 where
  releases : (k : String) → release_served s k ≡ some u → Move s u (released k)
  enters :
      (j : Job)
      → s.holder ≡ none
      → elem j.target s.manager.engines ≡ true
      → u ≡ enter_lock s j
      → Move s u (enter j)
  advances : {a : Action} (ph : Phase) → s.holder ≡ some ph → advance s ph a ≡ some u → Move s u a

module _ (s u : System) where
  entry : (j : Job) → step s (enter j) ≡ some u → Move s u (enter j)
  unfolding step
  entry j e = elim (Option-cases s.holder) [
    | inl free ↦ enters j free (ground arith) (ground arith)
    | inr (ph, held) ↦ absurd (ground arith)
  ]

  pub step-Move : (a : Action) → step s a ≡ some u → Move s u a
  unfolding step
  step-Move (released k) e = releases k e
  step-Move (enter j) e = entry j e
  step-Move a e = elim (Option-cases s.holder) [
    | inl free ↦ absurd (ground arith)
    | inr (ph, held) ↦ advances ph held (ground arith)
  ]

-- The actions that answer the holder's await.
abbrev pub IsAnswer : Action → Type 0
IsAnswer (released k) = ⊥
IsAnswer (enter j) = ⊥
IsAnswer a = Unit

pub step-advance :
    (s : System) (ph : Phase) (a : Action)
    → s.holder ≡ some ph
    → IsAnswer a
    → step s a ≡ advance s ph a
unfolding step holder_step
step-advance s ph (released k) h n = absurd n
step-advance s ph (enter j) h n = absurd n
step-advance s ph a h n = ap (λ o. holder_step s o a) h

-- What every step keeps holds in every reachable state.
pub Reach-keeps {ℓ} :
    (P : System → Type ℓ)
    → ((t v : System) (a : Action) → Move t v a → P t → P v)
    → {s u : System} → P s
    → Reach s u
    → P u
Reach-keeps P keep p here = p
Reach-keeps P keep p (next {t} {u} r a e) = keep t u a (step-Move t u a e) (Reach-keeps P keep p r)

-- The same with actions of one kind only.
pub data ReachBy (Allowed : Action → Type 0) (s : System) : System → Type 0 where
  start_here : ReachBy Allowed s s
  then_next :
      {t u : System}
      → ReachBy Allowed s t
      → (a : Action) → Allowed a
      → step t a ≡ some u
      → ReachBy Allowed s u

pub ReachBy-Reach : {Allowed : Action → Type 0} {s u : System} → ReachBy Allowed s u → Reach s u
ReachBy-Reach start_here = here
ReachBy-Reach (then_next r a ok e) = next (ReachBy-Reach r) a e

pub ReachBy-keeps {ℓ} :
    {Allowed : Action → Type 0} (P : System → Type ℓ)
    → ((t v : System) (a : Action) → Allowed a → Move t v a → P t → P v)
    → {s u : System} → P s
    → ReachBy Allowed s u
    → P u
ReachBy-keeps P keep p start_here = p
ReachBy-keeps P keep p (then_next {t} {u} r a ok e) =
    keep t u a ok (step-Move t u a e) (ReachBy-keeps P keep p r)
