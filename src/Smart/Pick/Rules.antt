-- ===== src/Smart/Pick/Rules.antt =====
-- What router/smart.py, `SmartRouter._decide`, promises of its choice.
use local_engine_router.Common.{
  sym, ◌≡◌, refl, subst, Option, none, some, Bool, true, not, List, [], ◌∷◌, ◌⊎◌, inl, inr,
  Bool-cases, All, arith, keep_if, ◌&&◌,
}
use local_engine_router.Smart.Floats.{Floats}
use local_engine_router.Smart.Pick.{
  Scored, Settings, first_resident, is_same, keep_resident, keep_if_unsure, confidence_of,
  final_pick,
}

module _ (fl : Floats) where
  open fl use {F, lt, sub, lt_asym}

  pub first_resident-All {ℓ} :
      (P : Scored fl → Type ℓ) (cs : List (Scored fl)) (r : Scored fl)
      → All P cs
      → first_resident fl cs ≡ some r
      → P r
  unfolding first_resident
  first_resident-All P [] r h e = absurd (ground arith)
  first_resident-All P (c ∷ cs) r h e = elim (Bool-cases c.resident) [
    | inl y ↦ subst P (ground arith) h.0
    | inr n ↦ first_resident-All P cs r h.1 (ground arith)
  ]

  pub first_resident-resident :
      (cs : List (Scored fl)) (r : Scored fl) → first_resident fl cs ≡ some r → r.resident ≡ true
  unfolding first_resident
  first_resident-resident [] r e = absurd (ground arith)
  first_resident-resident (c ∷ cs) r e = elim (Bool-cases c.resident) [
    | inl y ↦ ground arith
    | inr n ↦ first_resident-resident cs r (ground arith)
  ]

  -- The two rules keep the candidate or take the best resident one.
  pub keep_resident-cases :
      (s : Settings fl) (best : Scored fl) (o : Option (Scored fl))
      → (keep_resident fl s best o ≡ best)
        ⊎ ((r : Scored fl) × (o ≡ some r) × (keep_resident fl s best o ≡ r))
  unfolding keep_resident
  keep_resident-cases s best none = inl refl
  keep_resident-cases s best (some r) =
      elim (Bool-cases (not (is_same fl best r) && not best.resident)) [
        | inl e ↦ elim (Bool-cases (lt (sub best.total r.total) s.swap_margin)) [
          | inl w ↦ inr (r, refl, rw e (rw w refl))
          | inr w ↦ inl (rw e (rw w refl))
        ]
        | inr e ↦ inl (rw e refl)
      ]

  keep_if_unsure-cases :
      (s : Settings fl) (confidence : F) (best : Scored fl) (o : Option (Scored fl))
      → (keep_if_unsure fl s confidence best o ≡ best)
        ⊎ ((r : Scored fl) × (o ≡ some r) × (keep_if_unsure fl s confidence best o ≡ r))
  unfolding keep_if_unsure
  keep_if_unsure-cases s confidence best none = inl refl
  keep_if_unsure-cases s confidence best (some r) =
      elim (Bool-cases (lt confidence s.min_confidence && not (is_same fl best r))) [
        | inl e ↦ inr (r, refl, rw e refl)
        | inr e ↦ inl (rw e refl)
      ]

  -- What holds of every candidate of the list holds of the one the rules end with.
  pub final_pick-All {ℓ} :
      (P : Scored fl → Type ℓ) (s : Settings fl) (c : Scored fl) (cs : List (Scored fl))
      → All P (c ∷ cs)
      → P (final_pick fl s (c ∷ cs) c)
  unfolding final_pick
  final_pick-All P s c cs h =
      let viable : List (Scored fl) = c ∷ cs in
      let best : Scored fl = keep_resident fl s c (first_resident fl viable) in
      elim (keep_if_unsure-cases s (confidence_of fl viable best) best (first_resident fl viable)) [
        | inl e ↦ subst P (sym e) (elim (keep_resident-cases s c (first_resident fl viable)) [
          | inl w ↦ subst P (sym w) h.0
          | inr (r, o, w) ↦ subst P (sym w) (first_resident-All P viable r h o)
        ])
        | inr (r, o, e) ↦ subst P (sym e) (first_resident-All P viable r h o)
      ]

  All-keep_if {ℓ} :
      (P : Scored fl → Type ℓ) (p : Scored fl → Bool) (cs : List (Scored fl))
      → All P cs
      → All P (keep_if p cs)
  All-keep_if P p [] h = tt
  All-keep_if P p (c ∷ cs) h = elim (Bool-cases (p c)) [
    | inl e ↦ rw e (h.0, All-keep_if P p cs h.1)
    | inr e ↦ rw e (All-keep_if P p cs h.1)
  ]
