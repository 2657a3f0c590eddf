-- ===== src/Smart/Score/Precedence.antt =====
-- Which of several sources a weight and a score of router/smart.py come from.
use mathlib.Core.Option.{map as map_option}
use local_engine_router.Common.{
  ◌≡◌, refl, ap, ◌∙◌, sym, arith, eq_iff, String, Option, none, some, true, [], ◌∷◌, Dict, get, put,
  get-put, elem, first_some, All, Bool-cases, Option-cases, inl, inr, if◌then◌else◌, ◌==◌,
}
use local_engine_router.Smart.Classify.{has_key}
use local_engine_router.Smart.Floats.{Floats}
use local_engine_router.Smart.Pick.{zero_f}
use local_engine_router.Smart.Score.{
  ScoreConfig, Profile, default_weights, base_weights, set_halves, update_all, smart_weights,
  capability_dimensions, first_score, capability_score, sum_capabilities, quality_score,
  told_strengths, mean_or,
}

-- The value of the last entry of a key.
abbrev pub latest {ℓ} : {A : Type ℓ} → Dict A → String → Option A
latest [] k = none
latest ((j, v) ∷ d) k = first_some (latest d k) (if j == k then some v else none)

module _ (fl : Floats) where
  open fl use {F, mul, ratio}

  abbrev pub half : F → F
  half v = mul v (ratio 1 2)

  get-set_halves :
      (ds base : Dict F) (k : String)
      → get (set_halves fl base ds) k ≡ first_some (get base k) (map_option half (get ds k))
  unfolding set_halves
  get-set_halves [] base k = ground arith
  get-set_halves ((j, v) ∷ ds) base k = elim (Option-cases (get base j)) [
    | inl e ↦ rw e (
        ground
          (arith, get-set_halves ds (put base j (half v)) k, get-put base j k (half v), eq_iff j k))
    | inr s ↦ rw s.1 (ground (arith, get-set_halves ds base k, eq_iff j k, s.1))
  ]

  get-update_all :
      (ds base : Dict F) (k : String)
      → get (update_all fl base ds) k ≡ first_some (latest ds k) (get base k)
  unfolding update_all
  get-update_all [] base k = refl
  get-update_all ((j, v) ∷ ds) base k =
      ground (arith, get-update_all ds (put base j v) k, get-put base j k v)

  -- The weight of a component is the configured override, or else the weight of the policy in force, or
  -- else half its default weight; there is none where none of the three names it.
  pub get-smart_weights :
      (c : ScoreConfig fl) (k : String)
      → get (smart_weights fl c) k
        ≡ first_some
            (latest c.weights k)
            (first_some (get (base_weights fl c) k) (map_option half (get (default_weights fl) k)))
  unfolding smart_weights
  get-smart_weights c k =
      get-update_all c.weights (set_halves fl (base_weights fl c) (default_weights fl)) k
      ∙ ap (first_some (latest c.weights k))
          (get-set_halves (default_weights fl) (base_weights fl c) k)

  -- Each capability of the job is one of the table.
  abbrev Covers : Dict F → Dict F → Type 0
  Covers told =
      All (λ (e : String × F). elem e.0 capability_dimensions ≡ true → has_key told e.0 ≡ true)

  first_score-some :
      (told told' measured measured' : Option F) (guess guess' x : F)
      → told ≡ some x
      → told' ≡ some x
      → first_score fl told measured guess ≡ first_score fl told' measured' guess'
  unfolding first_score
  first_score-some told told' measured measured' guess guess' x e e' = rw (e, e') refl

  same_score :
      (c d : ScoreConfig fl) (p q : Profile fl) (dim : String)
      → told_strengths fl p.spec ≡ told_strengths fl q.spec
      → has_key (told_strengths fl p.spec) dim ≡ true
      → capability_score fl c p dim ≡ capability_score fl d q dim
  unfolding capability_score
  same_score c d p q dim e h = elim (Option-cases (get (told_strengths fl p.spec) dim)) [
    | inl n ↦ absurd (ground arith)
    | inr s ↦ first_score-some _ _ _ _ _ _ s.0 s.1 (ap (λ t. get t dim) (sym e) ∙ s.1)
  ]

  same_sums :
      (f g : String → F) (told : Dict F) (job : Dict F) (sums : F × F)
      → ((dim : String) → has_key told dim ≡ true → f dim ≡ g dim)
      → Covers told job
      → sum_capabilities fl f job sums ≡ sum_capabilities fl g job sums
  unfolding sum_capabilities
  same_sums f g told [] (num, den) e h = refl
  same_sums f g told ((dim, w) ∷ job) (num, den) e h =
      elim (Bool-cases (elem dim capability_dimensions)) [
        | inl y ↦ rw (y, e dim (h.0 y)) (same_sums f g told job _ e h.1)
        | inr n ↦ rw n (same_sums f g told job (num, den) e h.1)
      ]

  -- Where the user's strengths name every capability of the job, the quality score is that of any other
  -- model with the same strengths: neither the calibration, nor the benchmarks, nor the tier count.
  pub quality_score-strengths :
      (c d : ScoreConfig fl) (p q : Profile fl) (job : Dict F)
      → told_strengths fl p.spec ≡ told_strengths fl q.spec
      → Covers (told_strengths fl p.spec) job
      → quality_score fl c p job ≡ quality_score fl d q job
  unfolding quality_score
  quality_score-strengths c d p q job e h = ap (mean_or fl) (
      same_sums (capability_score fl c p) (capability_score fl d q) (told_strengths fl p.spec) job
        (zero_f fl, zero_f fl) (λ dim. same_score c d p q dim e) h)
