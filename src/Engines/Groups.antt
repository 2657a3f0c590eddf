-- ===== src/Engines/Groups.antt =====
-- router/engines.py, `GenericProcessEngine._signal_pids` where process groups exist: whom it signals.
use local_engine_router.Common.{
  ℕ, suc, ◌≤◌, ◌≡◌, refl, subst, arith, Bool, true, false, List, [], ◌∷◌, Option, none, some,
  if◌then◌else◌, eqb, any_of, ◌⊎◌, inl, inr, Bool-cases, Option-cases, All, ◌||◌,
}

pub data Target : Type 0 where
  -- os.killpg, os.kill
  group process : ℕ → Target

abbrev pub has : ℕ → List ℕ → Bool
has g gs = any_of (λ x. eqb x g) gs

-- The loop: `group_of` is none where getpgid fails, `killpg` false where it raises; `done` are the
-- groups signalled so far.
unfoldable pub signal_pids :
    (group_of : ℕ → Option ℕ) (killpg : ℕ → Bool) (done pids : List ℕ) → List Target
signal_pids group_of killpg done [] = []
signal_pids group_of killpg done (p ∷ ps) = elim (group_of p) [
  | none ↦ process p ∷ signal_pids group_of killpg done ps
  | some g ↦
      (let skipped = signal_pids group_of killpg done ps in
        let as_group = group g ∷ signal_pids group_of killpg (g ∷ done) ps in
        let as_process = process p ∷ signal_pids group_of killpg done ps in
        if has g done then skipped else (if killpg g then as_group else as_process))
]

-- How often a group, or a process, is signalled.
abbrev pub group_count : ℕ → List Target → ℕ
group_count g [] = 0
group_count g (group k ∷ ts) = if eqb k g then suc (group_count g ts) else group_count g ts
group_count g (process p ∷ ts) = group_count g ts

abbrev pub hits_process : ℕ → List Target → Bool
hits_process p [] = false
hits_process p (process q ∷ ts) = eqb q p || hits_process p ts
hits_process p (group g ∷ ts) = hits_process p ts

module _ (group_of : ℕ → Option ℕ) (killpg : ℕ → Bool) where
  group_count-signal_pids :
      (g : ℕ) (done pids : List ℕ)
      → group_count g (signal_pids group_of killpg done pids) ≤ (if has g done then 0 else 1)
  unfolding signal_pids
  group_count-signal_pids g done [] = ground arith
  group_count-signal_pids g done (p ∷ ps) = elim (Option-cases (group_of p)) [
    | inl e ↦ ground (arith, group_count-signal_pids g done ps)
    | inr (k, e) ↦
        ground (arith, group_count-signal_pids g done ps, group_count-signal_pids g (k ∷ done) ps)
  ]

  -- The process is signalled itself, or its group is or was.
  abbrev pub IsReached : List ℕ → List Target → ℕ → Type 0
  IsReached done ts p =
      (hits_process p ts ≡ true)
      ⊎ ((g : ℕ) × (group_of p ≡ some g) × ((has g done ≡ true) ⊎ (1 ≤ group_count g ts)))

  still_hit :
      (done more : List ℕ) (ts us : List Target) (p : ℕ)
      → (hits_process p ts ≡ true → hits_process p us ≡ true)
      → ((g : ℕ)
          → group_of p ≡ some g
          → (has g done ≡ true) ⊎ (1 ≤ group_count g ts)
          → (has g more ≡ true) ⊎ (1 ≤ group_count g us))
      → IsReached done ts p
      → IsReached more us p
  still_hit done more ts us p f g (inl e) = inl (f e)
  still_hit done more ts us p f g (inr (k, own, r)) = inr (k, own, g k own r)

  still_hits :
      (done more : List ℕ) (ts us : List Target) (ps : List ℕ)
      → ((p : ℕ) → hits_process p ts ≡ true → hits_process p us ≡ true)
      → ((g : ℕ)
          → (has g done ≡ true) ⊎ (1 ≤ group_count g ts)
          → (has g more ≡ true) ⊎ (1 ≤ group_count g us))
      → All (IsReached done ts) ps
      → All (IsReached more us) ps
  still_hits done more ts us [] f g h = tt
  still_hits done more ts us (p ∷ ps) f g h =
      (still_hit done more ts us p (f p) (λ k own. g k) h.0, still_hits done more ts us ps f g h.1)

  -- One more target, or one more group done, takes nothing away.
  after_process :
      (done : List ℕ) (p : ℕ) (ps : List ℕ) (ts : List Target)
      → All (IsReached done ts) ps
      → All (IsReached done (process p ∷ ts)) (p ∷ ps)
  after_process done p ps ts h = (
    inl (ground arith),
    still_hits done done ts (process p ∷ ts) ps (λ q e. ground arith) (λ g r. r) h,
  )

  after_group :
      (done : List ℕ) (p g : ℕ) (ps : List ℕ) (ts : List Target)
      → group_of p ≡ some g
      → All (IsReached (g ∷ done) ts) ps
      → All (IsReached done (group g ∷ ts)) (p ∷ ps)
  after_group done p g ps ts e h = (
    inr (g, e, inr (ground arith)),
    still_hits (g ∷ done) done ts (group g ∷ ts) ps (λ q y. y) (λ k r. ground arith) h,
  )

  abbrev Reaches : List ℕ → List ℕ → List Target → Type 0
  Reaches done ps ts = All (IsReached done ts) ps

  -- The four ways of one round.
  signal_pids-cases :
      (done : List ℕ) (p : ℕ) (ps : List ℕ)
      → (process p ∷ signal_pids group_of killpg done ps
          ≡ signal_pids group_of killpg done (p ∷ ps))
        ⊎ ((g : ℕ) × (group_of p ≡ some g)
            × (((has g done ≡ true)
                  × (signal_pids group_of killpg done ps
                      ≡ signal_pids group_of killpg done (p ∷ ps)))
                ⊎ (group g ∷ signal_pids group_of killpg (g ∷ done) ps
                    ≡ signal_pids group_of killpg done (p ∷ ps))))
  unfolding signal_pids
  signal_pids-cases done p ps = elim (Option-cases (group_of p)) [
    | inl e ↦ inl (rw (e, signal_pids) refl)
    | inr (k, e) ↦ elim (Bool-cases (has k done)) [
      | inl old ↦ inr (k, e, inl (old, rw (e, signal_pids) (rw old refl)))
      | inr new ↦ elim (Bool-cases (killpg k)) [
        | inl y ↦ inr (k, e, inr (rw (e, signal_pids) (rw new (rw y refl))))
        | inr n ↦ inl (rw (e, signal_pids) (rw new (rw n refl)))
      ]
    ]
  ]

  all_reached : (done pids : List ℕ) → Reaches done pids (signal_pids group_of killpg done pids)
  all_reached done [] = tt
  all_reached done (p ∷ ps) = elim (signal_pids-cases done p ps) [
    | inl e ↦
        subst (Reaches done (p ∷ ps)) e
          (after_process done p ps (signal_pids group_of killpg done ps) (all_reached done ps))
    | inr (k, own, inl (old, e)) ↦
        subst (Reaches done (p ∷ ps)) e (inr (k, own, inl old), all_reached done ps)
    | inr (k, own, inr e) ↦ subst (Reaches done (p ∷ ps)) e (
        after_group done p k ps (signal_pids group_of killpg (k ∷ done) ps) own
          (all_reached (k ∷ done) ps))
  ]

  -- Every process of the list is signalled, itself or through its group, and no group is signalled
  -- twice.
  pub signal_pids_lem :
      (pids : List ℕ)
      → All (IsReached [] (signal_pids group_of killpg [] pids)) pids
        × ((g : ℕ) → group_count g (signal_pids group_of killpg [] pids) ≤ 1)
  signal_pids_lem pids = (all_reached [] pids, λ g. group_count-signal_pids g [] pids)
