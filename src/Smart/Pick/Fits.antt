-- ===== src/Smart/Pick/Fits.antt =====
-- Which candidates router/smart.py, `SmartRouter._decide`, lets through: those whose checks passed,
-- and those in cooldown when there is no other.
use mathlib.Core.Option.{some-injective}
use local_engine_router.Common.{
  ◌≡◌, refl, subst, String, Option, none, some, Bool, true, false, List, [], ◌∷◌, ◌⊎◌, inl, inr,
  Bool-cases, All, arith, map, keep_if,
}
use local_engine_router.Smart.Floats.{Floats}
use local_engine_router.Smart.Pick.{
  Scored, Facts, Settings, Decision, Exclusion, shape, context, cooldown, score_all, is_viable,
  is_cooled, let_through, or_cooled, viable_of, sort, is_active, choose, decide, check_shape,
  check_context, check_cooldown, ruled_out, scored_candidate,
}
use local_engine_router.Smart.Pick.Order.{All-sort}
use local_engine_router.Smart.Pick.Rules.{final_pick-All}

-- (model, engine) is one of the candidates.
abbrev pub Listed : String → String → List (String × String) → Type 0
Listed m k [] = ⊥
Listed m k ((n, j) ∷ cs) = ((n ≡ m) × (j ≡ k)) ⊎ Listed m k cs

module _ (fl : Floats) where
  keep_if-All {ℓ κ} :
      (P : Scored fl → Type ℓ) (Q : Scored fl → Type κ) (p : Scored fl → Bool)
      → ((c : Scored fl) → P c → p c ≡ true → Q c)
      → (cs : List (Scored fl)) → All P cs
      → All Q (keep_if p cs)
  keep_if-All P Q p f [] h = tt
  keep_if-All P Q p f (c ∷ cs) h = elim (Bool-cases (p c)) [
    | inl e ↦ rw e (f c h.0 e, keep_if-All P Q p f cs h.1)
    | inr e ↦ rw e (keep_if-All P Q p f cs h.1)
  ]

  not_excluded :
      (o : Option Exclusion) → (elim o [ none ↦ true | some why ↦ false ]) ≡ true → o ≡ none
  not_excluded none e = refl
  not_excluded (some why) e = absurd (ground arith)

  only_cooldown :
      (o : Option Exclusion)
      → (elim o [ some cooldown ↦ true | _ ↦ false ]) ≡ true
      → o ≡ some cooldown
  only_cooldown none e = absurd (ground arith)
  only_cooldown (some cooldown) e = refl
  only_cooldown (some (shape reason)) e = absurd (ground arith)
  only_cooldown (some (context reason)) e = absurd (ground arith)

  -- The checks a candidate passed, by its exclusion.
  abbrev pub Passed : Facts fl → Option Exclusion → Type 0
  Passed f none = (f.shape_reason ≡ none) × (f.context_reason ≡ none) × (f.cooling ≡ false)
  Passed f (some cooldown) =
      (f.shape_reason ≡ none) × (f.context_reason ≡ none) × (f.cooling ≡ true)
  Passed f (some (shape reason)) = f.shape_reason ≡ some reason
  Passed f (some (context reason)) = (f.shape_reason ≡ none) × (f.context_reason ≡ some reason)

  -- A candidate of the list, of an enabled model, resident when its engine is the active one.
  abbrev pub Fits :
      Option String → (String → Facts fl) → List (String × String) → Scored fl → Type 0
  Fits active facts candidates c =
      Listed c.model c.engine candidates
      × ((facts c.model).smart_enabled ≡ true)
      × (c.resident ≡ is_active fl active c.engine)
      × Passed (facts c.model) c.excluded

  -- The weaker list of candidates of a longer one.
  All-Listed :
      (active : Option String) (facts : String → Facts fl) (p : String × String)
      (candidates : List (String × String)) (cs : List (Scored fl))
      → All (Fits active facts candidates) cs
      → All (Fits active facts (p ∷ candidates)) cs
  All-Listed active facts p candidates [] h = tt
  All-Listed active facts p candidates (c ∷ cs) h =
      ((inr h.0.0, h.0.1, h.0.2, h.0.3), All-Listed active facts p candidates cs h.1)

  module _ (active : Option String) (facts : String → Facts fl) (m k : String)
      (candidates : List (String × String)) (e : (facts m).smart_enabled ≡ true) where
    check_cooldown-Fits :
        (cd : Bool)
        → (facts m).shape_reason ≡ none
        → (facts m).context_reason ≡ none
        → (facts m).cooling ≡ cd
        → Fits active facts
            ((m, k) ∷ candidates)
            (check_cooldown fl m k (is_active fl active k) (facts m) cd)
    unfolding check_cooldown ruled_out scored_candidate
    check_cooldown-Fits true hs hc hd = (inl (refl, refl), e, refl, (hs, hc, hd))
    check_cooldown-Fits false hs hc hd = (inl (refl, refl), e, refl, (hs, hc, hd))

    check_context-Fits :
        (co : Option String)
        → (facts m).shape_reason ≡ none
        → (facts m).context_reason ≡ co
        → Fits active facts
            ((m, k) ∷ candidates)
            (check_context fl m k (is_active fl active k) (facts m) co)
    unfolding check_context ruled_out
    check_context-Fits (some r) hs hc = (inl (refl, refl), e, refl, (hs, hc))
    check_context-Fits none hs hc = check_cooldown-Fits (facts m).cooling hs hc refl

    check_shape-Fits :
        (cs : Option String)
        → (facts m).shape_reason ≡ cs
        → Fits active facts
            ((m, k) ∷ candidates)
            (check_shape fl m k (is_active fl active k) (facts m) cs)
    unfolding check_shape ruled_out
    check_shape-Fits (some r) hs = (inl (refl, refl), e, refl, hs)
    check_shape-Fits none hs = check_context-Fits (facts m).context_reason hs refl

  score_all-Fits :
      (active : Option String) (facts : String → Facts fl) (candidates : List (String × String))
      → All (Fits active facts candidates) (score_all fl active facts candidates)
  unfolding score_all
  score_all-Fits active facts [] = tt
  score_all-Fits active facts ((m, k) ∷ cs) = elim (Bool-cases (facts m).smart_enabled) [
    | inl e ↦ rw e (
      check_shape-Fits active facts m k cs e (facts m).shape_reason refl,
      All-Listed active facts (m, k) cs _ (score_all-Fits active facts cs),
    )
    | inr e ↦ rw e (All-Listed active facts (m, k) cs _ (score_all-Fits active facts cs))
  ]

  -- What `viable_of` hands on: a candidate whose checks passed, or, when no candidate's did, one that
  -- only its cooldown excludes.
  abbrev pub LetIn :
      Option String → (String → Facts fl) → List (String × String) → Scored fl → Type 0
  LetIn active facts candidates c =
      Fits active facts candidates c
      × ((c.excluded ≡ none)
          ⊎ ((c.excluded ≡ some cooldown)
              × All (λ d. is_viable fl d ≡ false) (score_all fl active facts candidates)))

  module _ (active : Option String) (facts : String → Facts fl)
      (candidates : List (String × String)) where
    none-viable :
        (cs : List (Scored fl))
        → keep_if (is_viable fl) cs ≡ []
        → All (λ d. is_viable fl d ≡ false) cs
    none-viable [] e = tt
    none-viable (c ∷ cs) e = elim (Bool-cases (is_viable fl c)) [
      | inl y ↦ absurd (ground arith)
      | inr n ↦ (n, none-viable cs (ground arith))
    ]

    let_through-Fits :
        (c : Scored fl)
        → Fits active facts candidates c
        → Fits active facts candidates (let_through fl c)
    unfolding let_through
    let_through-Fits c h = h

    viable-LetIn :
        (cs : List (Scored fl))
        → All (Fits active facts candidates) cs
        → All (LetIn active facts candidates) (keep_if (is_viable fl) cs)
    viable-LetIn = keep_if-All _ _ (is_viable fl) (λ c h e. (h, inl (not_excluded c.excluded e)))

    cooled-LetIn :
        (cs : List (Scored fl))
        → All (λ d. is_viable fl d ≡ false) (score_all fl active facts candidates)
        → All (Fits active facts candidates) cs
        → All (LetIn active facts candidates) (keep_if (is_cooled fl) cs)
    cooled-LetIn cs n =
        keep_if-All _ _ (is_cooled fl) (λ c h e. (h, inr (only_cooldown c.excluded e, n))) cs

    let_through-LetIn :
        (cs : List (Scored fl))
        → All (LetIn active facts candidates) cs
        → All (LetIn active facts candidates) (map (let_through fl) cs)
    unfolding let_through
    let_through-LetIn [] h = tt
    let_through-LetIn (c ∷ cs) h = (h.0, let_through-LetIn cs h.1)

    or_cooled-LetIn :
        (viable cooled : List (Scored fl))
        → All (LetIn active facts candidates) viable
        → (viable ≡ [] → All (LetIn active facts candidates) cooled)
        → All (LetIn active facts candidates) (or_cooled fl viable cooled)
    or_cooled-LetIn [] cooled h f = let_through-LetIn cooled (f refl)
    or_cooled-LetIn (c ∷ cs) cooled h f = h

    pub viable_of-LetIn :
        All
          (LetIn active facts candidates)
          (sort fl (viable_of fl (score_all fl active facts candidates)))
    unfolding viable_of
    viable_of-LetIn =
        let scored : List (Scored fl) = score_all fl active facts candidates in
        let fits : All (Fits active facts candidates) scored =
          score_all-Fits active facts candidates in
        All-sort fl (LetIn active facts candidates) _ (
          or_cooled-LetIn (keep_if (is_viable fl) scored) (keep_if (is_cooled fl) scored)
            (viable-LetIn scored fits) (λ e. cooled-LetIn scored (none-viable scored e) fits))

    choose-All {ℓ} :
        (P : Scored fl → Type ℓ) (s : Settings fl) (engines : List String) (cs : List (Scored fl))
        (d : Decision fl)
        → All P cs
        → choose fl s engines cs ≡ some d
        → P d.pick
    unfolding choose
    choose-All P s engines [] d h e = absurd (ground arith)
    choose-All P s engines (c ∷ cs) d h e =
        subst (λ x. P x.pick) (some-injective _ _ e) (final_pick-All fl P s c cs h)

    -- The decision picks one of the candidates, on the engine it is listed with, of a model that
    -- smart routing may use; the shape check and the context check passed for it; and it is in
    -- cooldown only when no candidate at all passed the three checks.
    pub decide-LetIn :
        (s : Settings fl) (engines : List String) (d : Decision fl)
        → decide fl s engines active facts candidates ≡ some d
        → LetIn active facts candidates d.pick
    unfolding decide
    decide-LetIn s engines d e =
        choose-All (LetIn active facts candidates) s engines _ d viable_of-LetIn e
