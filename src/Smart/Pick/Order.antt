-- ===== src/Smart/Pick/Order.antt =====
-- The order of the viable candidates (router/smart.py, `_decide`).
use local_engine_router.Common.{◌≡◌, true, false, List, [], ◌∷◌, inl, inr, Bool-cases, All, arith}
use local_engine_router.Smart.Floats.{Floats}
use local_engine_router.Smart.Pick.{Scored, before, insert, sort}

module _ (fl : Floats) where
  open fl use {lt, lt_asym, le_trans}

  -- No candidate of the list has a greater total.
  abbrev pub IsTop : Scored fl → List (Scored fl) → Type 0
  IsTop c cs = All (λ d. lt c.total d.total ≡ false) cs

  abbrev pub IsSorted : List (Scored fl) → Type 0
  IsSorted [] = Unit {0}
  IsSorted (c ∷ cs) = IsTop c cs × IsSorted cs

  before-true : (c d : Scored fl) → before fl c d ≡ true → lt c.total d.total ≡ false
  unfolding before
  before-true c d e = ground (arith, lt_asym d.total c.total)

  before-false : (c d : Scored fl) → before fl c d ≡ false → lt d.total c.total ≡ false
  unfolding before
  before-false c d e = ground arith

  IsTop-trans :
      (c d : Scored fl) (cs : List (Scored fl))
      → lt c.total d.total ≡ false
      → IsTop d cs
      → IsTop c cs
  IsTop-trans c d [] h t = tt
  IsTop-trans c d (e ∷ es) h t = (le_trans e.total d.total c.total t.0 h, IsTop-trans c d es h t.1)

  All-insert {ℓ} :
      (P : Scored fl → Type ℓ) (c : Scored fl) (cs : List (Scored fl))
      → P c
      → All P cs
      → All P (insert fl c cs)
  unfolding insert
  All-insert P c [] p h = (p, tt)
  All-insert P c (d ∷ ds) p h = elim (Bool-cases (before fl c d)) [
    | inl e ↦ rw e (p, h)
    | inr e ↦ rw e (h.0, All-insert P c ds p h.1)
  ]

  insert-IsSorted :
      (c : Scored fl) (cs : List (Scored fl)) → IsSorted cs → IsSorted (insert fl c cs)
  unfolding insert
  insert-IsSorted c [] s = (tt, tt)
  insert-IsSorted c (d ∷ ds) s = elim (Bool-cases (before fl c d)) [
    | inl e ↦ rw e ((before-true c d e, IsTop-trans c d ds (before-true c d e) s.0), s)
    | inr e ↦ rw e (
      All-insert (λ x. lt d.total x.total ≡ false) c ds (before-false c d e) s.0,
      insert-IsSorted c ds s.1,
    )
  ]

  pub sort-IsSorted : (cs : List (Scored fl)) → IsSorted (sort fl cs)
  unfolding sort
  sort-IsSorted [] = tt
  sort-IsSorted (c ∷ cs) = insert-IsSorted c (sort fl cs) (sort-IsSorted cs)

  pub All-sort {ℓ} :
      (P : Scored fl → Type ℓ) (cs : List (Scored fl)) → All P cs → All P (sort fl cs)
  unfolding sort
  All-sort P [] h = tt
  All-sort P (c ∷ cs) h = All-insert P c (sort fl cs) h.0 (All-sort P cs h.1)
