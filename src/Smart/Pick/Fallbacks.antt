-- ===== src/Smart/Pick/Fallbacks.antt =====
-- The fallbacks of a decision (router/smart.py, `SmartRouter._decide`).
use mathlib.Core.Option.{some-injective}
use local_engine_router.Common.{
  ℕ, zero, suc, ◌≡◌, ◌≤◌, refl, subst, String, Option, some, Bool, true, false, List, [], ◌∷◌, inl,
  inr, Bool-cases, All, arith, keep_if, not, ◌&&◌, elem, take, length, length-take-le,
}
use local_engine_router.Smart.Floats.{Floats}
use local_engine_router.Smart.Pick.{
  Scored, Facts, Settings, Decision, is_same, final_pick, choose, decide, fallbacks_of, models_of,
}
use local_engine_router.Smart.Pick.Fits.{LetIn, viable_of-LetIn}

module _ (fl : Floats) where
  -- `m` is the model of a candidate that the decision could have picked, on a configured engine.
  abbrev pub IsFallback : (Scored fl → Type 0) → List String → Scored fl → String → Type 0
  IsFallback P engines pick m =
      (c : Scored fl) × (c.model ≡ m)
      × P c
      × (elem c.engine engines ≡ true)
      × (is_same fl c pick ≡ false)

  module _ (P : Scored fl → Type 0) (engines : List String) (pick : Scored fl) where
    All-take :
        (n : ℕ) (ms : List String)
        → All (IsFallback P engines pick) ms
        → All (IsFallback P engines pick) (take n ms)
    All-take zero ms h = tt
    All-take (suc n) [] h = tt
    All-take (suc n) (m ∷ ms) h = (h.0, All-take n ms h.1)

    both : (a b : Bool) → not a && b ≡ true → (b ≡ true) × (a ≡ false)
    both true b e = absurd (ground arith)
    both false b e = (e, refl)

    models-IsFallback :
        (cs : List (Scored fl))
        → All P cs
        → All
            (IsFallback P engines pick)
            (models_of fl (keep_if (λ c. not (is_same fl c pick) && elem c.engine engines) cs))
    unfolding models_of
    models-IsFallback [] h = tt
    models-IsFallback (c ∷ cs) h =
        elim (Bool-cases (not (is_same fl c pick) && elem c.engine engines)) [
          | inl e ↦
              let w = both (is_same fl c pick) (elem c.engine engines) e in
              rw e ((c, refl, h.0, w.0, w.1), models-IsFallback cs h.1)
          | inr e ↦ rw e (models-IsFallback cs h.1)
        ]

  choose-fallbacks :
      (P : Scored fl → Type 0) (s : Settings fl) (engines : List String) (cs : List (Scored fl))
      (d : Decision fl)
      → All P cs
      → choose fl s engines cs ≡ some d
      → (length d.fallbacks ≤ s.max_fallbacks) × All (IsFallback P engines d.pick) d.fallbacks
  unfolding choose fallbacks_of
  choose-fallbacks P s engines [] d h e = absurd (ground arith)
  choose-fallbacks P s engines (c ∷ cs) d h e =
      let pick : Scored fl = final_pick fl s (c ∷ cs) c in
      subst
        (λ d.
          (length d.fallbacks ≤ s.max_fallbacks) × All (IsFallback P engines d.pick) d.fallbacks)
        (some-injective _ _ e)
        (
          length-take-le s.max_fallbacks _,
          All-take P engines pick s.max_fallbacks _ (models-IsFallback P engines pick (c ∷ cs) h),
        )

  -- A decision names at most max_fallbacks fallbacks, and each is the model of another candidate that
  -- passed the checks as the pick did, on an engine that is configured.
  pub decide-fallbacks :
      (s : Settings fl) (engines : List String) (active : Option String) (facts : String → Facts fl)
      (candidates : List (String × String)) (d : Decision fl)
      → decide fl s engines active facts candidates ≡ some d
      → (length d.fallbacks ≤ s.max_fallbacks)
        × All (IsFallback (LetIn fl active facts candidates) engines d.pick) d.fallbacks
  unfolding decide
  decide-fallbacks s engines active facts candidates d e =
      choose-fallbacks (LetIn fl active facts candidates) s engines _ d
        (viable_of-LetIn fl active facts candidates) e
