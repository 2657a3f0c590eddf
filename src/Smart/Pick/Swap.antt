-- ===== src/Smart/Pick/Swap.antt =====
-- When router/smart.py, `SmartRouter._decide`, picks a model whose engine is not the active one, and
-- which fallbacks it names.
use mathlib.Core.Option.{some-injective}
use local_engine_router.Common.{
  ◌≡◌, ◌∙◌, refl, sym, subst, ap, String, Option, none, some, Bool, true, false, List, [], ◌∷◌, inl,
  inr, Bool-cases, All, arith, if◌then◌else◌, not, ◌&&◌, eq_iff,
}
use local_engine_router.Smart.Floats.{Floats}
use local_engine_router.Smart.Pick.{
  Scored, Facts, Settings, Decision, score_all, viable_of, sort, is_active, is_same, first_resident,
  keep_resident, keep_if_unsure, confidence_of, choose, decide, final_pick,
}
use local_engine_router.Smart.Pick.Order.{IsTop, IsSorted, sort-IsSorted}
use local_engine_router.Smart.Pick.Rules.{
  first_resident-All, first_resident-resident, keep_resident-cases,
}
use local_engine_router.Smart.Pick.Fits.{LetIn, viable_of-LetIn}

module _ (fl : Floats) where
  open fl use {F, lt, sub, lt_asym}

  is_same-engine : (a b : Scored fl) → is_same fl a b ≡ true → a.engine ≡ b.engine
  unfolding is_same
  is_same-engine a b e = ground (arith, eq_iff a.engine b.engine)

  -- The resident flag is the one of the engine.
  abbrev IsResidence : Option String → Scored fl → Type 0
  IsResidence active c = c.resident ≡ is_active fl active c.engine

  not_same :
      (active : Option String) (a b : Scored fl)
      → IsResidence active a
      → IsResidence active b
      → a.resident ≡ false
      → b.resident ≡ true
      → is_same fl a b ≡ false
  not_same active a b ha hb na yb = elim (Bool-cases (is_same fl a b)) [
    | inl e ↦ absurd (
        ground (
          arith,
          sym yb ∙ hb ∙ ap (is_active fl active) (sym (is_same-engine a b e)) ∙ sym ha ∙ na,
        ))
    | inr e ↦ e
  ]

  -- The two rules on the answers of their tests: with a result that is not resident, `best` was kept
  -- because its test failed.
  margin_test :
      (best r : Scored fl) (same home small : Bool)
      → r.resident ≡ true
      → home ≡ best.resident
      → (same ≡ true → best.resident ≡ true)
      → (if not same && not home then (if small then r else best) else best).resident ≡ false
      → ((if not same && not home then (if small then r else best) else best) ≡ best)
        × (small ≡ false)
  margin_test best r true home small y h f n = absurd (ground (arith, f refl))
  margin_test best r false true small y h f n = absurd (ground arith)
  margin_test best r false false true y h f n = absurd (ground arith)
  margin_test best r false false false y h f n = (refl, refl)

  sure_test :
      (best r : Scored fl) (same unsure : Bool)
      → r.resident ≡ true
      → (same ≡ true → best.resident ≡ true)
      → (if unsure && not same then r else best).resident ≡ false
      → ((if unsure && not same then r else best) ≡ best) × (unsure ≡ false)
  sure_test best r true true y f n = absurd (ground (arith, f refl))
  sure_test best r true false y f n = (refl, refl)
  sure_test best r false true y f n = absurd (ground arith)
  sure_test best r false false y f n = (refl, refl)

  is_same-resident :
      (active : Option String) (best r : Scored fl)
      → IsResidence active best
      → IsResidence active r
      → r.resident ≡ true
      → is_same fl best r ≡ true
      → best.resident ≡ true
  is_same-resident active best r hb hr y e =
      hb ∙ ap (is_active fl active) (is_same-engine best r e) ∙ sym hr ∙ y

  keep_resident-swap :
      (s : Settings fl) (active : Option String) (best r : Scored fl)
      → IsResidence active best
      → IsResidence active r
      → r.resident ≡ true
      → (keep_resident fl s best (some r)).resident ≡ false
      → (keep_resident fl s best (some r) ≡ best)
        × (lt (sub best.total r.total) s.swap_margin ≡ false)
  unfolding keep_resident
  keep_resident-swap s active best r hb hr y n =
      margin_test best r (is_same fl best r) best.resident _ y refl
        (is_same-resident active best r hb hr y) n

  keep_if_unsure-swap :
      (s : Settings fl) (confidence : F) (active : Option String) (best r : Scored fl)
      → IsResidence active best
      → IsResidence active r
      → r.resident ≡ true
      → (keep_if_unsure fl s confidence best (some r)).resident ≡ false
      → (keep_if_unsure fl s confidence best (some r) ≡ best)
        × (lt confidence s.min_confidence ≡ false)
  unfolding keep_if_unsure
  keep_if_unsure-swap s confidence active best r hb hr y n =
      sure_test best r (is_same fl best r) _ y (is_same-resident active best r hb hr y) n

  -- A pick that is not resident, when `r` is: it beats `r` by the margin, with the confidence.
  abbrev pub IsWorthSwap : Settings fl → List (Scored fl) → Scored fl → Decision fl → Type 0
  IsWorthSwap s viable r d =
      IsTop fl d.pick viable
      × (lt (sub d.pick.total r.total) s.swap_margin ≡ false)
      × (lt d.confidence s.min_confidence ≡ false)

  keep_resident-IsResidence :
      (s : Settings fl) (active : Option String) (best r : Scored fl)
      → IsResidence active best
      → IsResidence active r
      → IsResidence active (keep_resident fl s best (some r))
  keep_resident-IsResidence s active best r hb hr = elim (keep_resident-cases fl s best (some r)) [
    | inl e ↦ subst (IsResidence active) (sym e) hb
    | inr (q, o, e) ↦ subst (IsResidence active) (some-injective _ _ o ∙ sym e) hr
  ]

  -- Both rules, with the best resident candidate `o`.
  abbrev both_rules : Settings fl → List (Scored fl) → Scored fl → Option (Scored fl) → Scored fl
  both_rules s viable c o =
      keep_if_unsure fl s (confidence_of fl viable (keep_resident fl s c o))
        (keep_resident fl s c o) o

  module _ (s : Settings fl) (active : Option String) (viable : List (Scored fl))
      (c r : Scored fl) where
    both_rules-swap :
        IsResidence active c
        → IsResidence active r
        → r.resident ≡ true
        → (both_rules s viable c (some r)).resident ≡ false
        → (both_rules s viable c (some r) ≡ c)
          × (lt (sub c.total r.total) s.swap_margin ≡ false)
          × (lt (confidence_of fl viable (keep_resident fl s c (some r))) s.min_confidence ≡ false)
    both_rules-swap hc hr y n =
        let best : Scored fl = keep_resident fl s c (some r) in
        let sure =
          keep_if_unsure-swap s (confidence_of fl viable best) active best r
            (keep_resident-IsResidence s active c r hc hr) hr y n in
        let kept =
          keep_resident-swap s active c r hc hr y (ap (λ x. x.resident) (sym sure.0) ∙ n) in
        (sure.0 ∙ kept.0, kept.1, sure.1)

    some_resident :
        (o : Option (Scored fl))
        → o ≡ some r
        → IsResidence active c
        → IsResidence active r
        → r.resident ≡ true
        → (both_rules s viable c o).resident ≡ false
        → (both_rules s viable c o ≡ c)
          × (lt (sub c.total r.total) s.swap_margin ≡ false)
          × (lt (confidence_of fl viable (keep_resident fl s c o)) s.min_confidence ≡ false)
    some_resident none e hc hr y n = absurd (ground arith)
    some_resident (some q) e hc hr y n =
        subst
          (λ o.
            (both_rules s viable c o).resident ≡ false
            → (both_rules s viable c o ≡ c)
              × (lt (sub c.total r.total) s.swap_margin ≡ false)
              × (lt (confidence_of fl viable (keep_resident fl s c o)) s.min_confidence ≡ false))
          (sym e) (both_rules-swap hc hr y) n

  lt_irrefl : (a : F) → lt a a ≡ false
  lt_irrefl a = ground (arith, lt_asym a a)

  choose-swap :
      (s : Settings fl) (engines : List String) (active : Option String) (cs : List (Scored fl))
      (r : Scored fl) (d : Decision fl)
      → IsSorted fl cs
      → All (IsResidence active) cs
      → first_resident fl cs ≡ some r
      → choose fl s engines cs ≡ some d
      → d.pick.resident ≡ false
      → IsWorthSwap s cs r d
  unfolding choose final_pick
  choose-swap s engines active [] r d o h f e n = absurd (ground arith)
  choose-swap s engines active (c ∷ cs) r d o h f e n =
      let eq = some-injective _ _ e in
      let both =
        some_resident s active (c ∷ cs) c r (first_resident fl (c ∷ cs)) f h.0
          (first_resident-All fl (IsResidence active) (c ∷ cs) r h f)
          (first_resident-resident fl (c ∷ cs) r f) (ap (λ x. x.pick.resident) eq ∙ n) in
      subst (IsWorthSwap s (c ∷ cs) r) eq (
        subst (λ p. IsTop fl p (c ∷ cs)) (sym both.0) (lt_irrefl c.total, o.0),
        subst (λ p. lt (sub p.total r.total) s.swap_margin ≡ false) (sym both.0) both.1,
        both.2,
      )

  All-IsResidence :
      (active : Option String) (facts : String → Facts fl) (candidates : List (String × String))
      (cs : List (Scored fl))
      → All (LetIn fl active facts candidates) cs
      → All (IsResidence active) cs
  All-IsResidence active facts candidates [] h = tt
  All-IsResidence active facts candidates (c ∷ cs) h =
      (h.0.0.2, All-IsResidence active facts candidates cs h.1)

  -- A decision that picks a candidate whose engine is not the active one, while a candidate of the
  -- active engine is viable: no viable candidate has a greater total than the pick, the pick's lead
  -- over the best candidate of the active engine is not below the swap margin, and the confidence is
  -- not below the minimum.
  pub decide-IsWorthSwap :
      (s : Settings fl) (engines : List String) (active : Option String) (facts : String → Facts fl)
      (candidates : List (String × String)) (r : Scored fl) (d : Decision fl)
      → first_resident fl (sort fl (viable_of fl (score_all fl active facts candidates))) ≡ some r
      → decide fl s engines active facts candidates ≡ some d
      → d.pick.resident ≡ false
      → IsWorthSwap s (sort fl (viable_of fl (score_all fl active facts candidates))) r d
  unfolding decide
  decide-IsWorthSwap s engines active facts candidates r d f e n =
      choose-swap s engines active _ r d
        (sort-IsSorted fl (viable_of fl (score_all fl active facts candidates)))
        (All-IsResidence active facts candidates _ (viable_of-LetIn fl active facts candidates)) f e
        n
