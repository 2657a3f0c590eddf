-- ===== src/Smart/Score.antt =====
-- router/smart.py, `_weights`, `_quality_score`, `_speed_score` and `_context_fit` of `SmartRouter`. What
-- the registry, the calibration, the benchmarks and the name of a model say of it comes in as its
-- `Profile`; the values of a calibration are read as numbers there.
pub mod Precedence
use local_engine_router.Common.{
  ℕ, zero, suc, ◌+◌, ◌*◌, ◌-◌, String, Option, none, some, Bool, true, false, List, [], ◌∷◌, Dict,
  get, put, elem, ltb, if◌then◌else◌, ◌&&◌, ◌||◌, not,
}
use local_engine_router.Smart.Floats.{Floats}
use local_engine_router.Smart.Pick.{clamp01, zero_f}

-- _CAPABILITY_DIMENSIONS
abbrev pub capability_dimensions : List String
capability_dimensions =
    "general" ∷ "coding" ∷ "code_editing" ∷ "math" ∷ "reasoning" ∷ "tool_use" ∷ "writing"
    ∷ "summarization" ∷ "long_context" ∷ "json_structured" ∷ []

module _ (fl : Floats) where
  open fl use {F, lt, add, sub, mul, div, log10, ratio}

  -- ModelSpec, as far as the scores read it; a tier of 0 stands for a missing one
  pub record Spec : Type 0 where
    pub strengths : Dict F
    pub quality_tier : ℕ
    pub speed_tier : ℕ
    pub smart_enabled : Bool
    pub context_length : ℕ
    pub capabilities : List String

  pub record Profile : Type 0 where
    pub spec : Option Spec
    pub calibration_scores : Dict F
    pub tokens_per_s : Option F
    -- priors_for, each a score and its confidence, and match_confidence
    pub priors : Dict (F × F)
    pub match_confidence : F
    -- identify
    pub is_embedding : Bool
    pub is_vision : Bool
    pub size_b : Option F

  -- SmartConfig, as far as the scores read it
  pub record ScoreConfig : Type 0 where
    pub policy : String
    pub policies : Dict (Dict F)
    pub weights : Dict F
    pub benchmarks_enabled : Bool
    pub swap_cost_horizon_s : F
    pub failure_threshold : ℕ

  abbrev pub percent : ℕ → F
  percent n = ratio n 100

  -- _DEFAULT_WEIGHTS
  abbrev pub default_weights : Dict F
  default_weights =
      ("quality", percent 40)
      ∷ ("speed", percent 10)
      ∷ ("residency", percent 10)
      ∷ ("swap_cost", percent 20)
      ∷ ("reliability", percent 10)
      ∷ ("context", percent 10)
      ∷ []

  -- _POLICY_WEIGHTS
  abbrev pub policy_weights : Dict (Dict F)
  policy_weights =
      ("balanced", default_weights)
      ∷ (
        "fast",
        ("quality", percent 25)
            ∷ ("speed", percent 30)
            ∷ ("residency", percent 15)
            ∷ ("swap_cost", percent 20)
            ∷ ("reliability", percent 5)
            ∷ ("context", percent 5)
            ∷ [],
      )
      ∷ (
        "quality",
        ("quality", percent 60)
            ∷ ("speed", percent 2)
            ∷ ("residency", percent 3)
            ∷ ("swap_cost", percent 15)
            ∷ ("reliability", percent 10)
            ∷ ("context", percent 10)
            ∷ [],
      )
      ∷ (
        "economy",
        ("quality", percent 20)
            ∷ ("speed", percent 25)
            ∷ ("residency", percent 20)
            ∷ ("swap_cost", percent 25)
            ∷ ("reliability", percent 5)
            ∷ ("context", percent 5)
            ∷ [],
      )
      ∷ []

  -- `a or b` of dicts, the first of which may be missing
  abbrev pub or_table : Option (Dict F) → Dict F → Dict F
  or_table none d = d
  or_table (some []) d = d
  or_table (some (w ∷ ws)) d = w ∷ ws

  unfoldable pub base_weights : ScoreConfig → Dict F
  base_weights c =
      or_table (get c.policies c.policy) (or_table (get policy_weights c.policy) default_weights)

  -- base.setdefault(key, val * 0.5)
  set_halves : Dict F → Dict F → Dict F
  set_halves base [] = base
  set_halves base ((k, v) ∷ ds) =
      set_halves (elim (get base k) [ none ↦ put base k (mul v (ratio 1 2)) | some w ↦ base ]) ds

  -- base.update(weights)
  update_all : Dict F → Dict F → Dict F
  update_all base [] = base
  update_all base ((k, v) ∷ ds) = update_all (put base k v) ds

  -- _weights
  unfoldable pub smart_weights : ScoreConfig → Dict F
  unfolding base_weights set_halves update_all
  smart_weights c = update_all (set_halves (base_weights c) default_weights) c.weights

  -- max(a, b)
  abbrev pub max_f : F → F → F
  max_f a b = if lt a b then b else a

  -- bool(x)
  abbrev pub is_nonzero : F → Bool
  is_nonzero x = lt x (zero_f fl) || lt (zero_f fl) x

  abbrev pub told_strengths : Option Spec → Dict F
  told_strengths none = []
  told_strengths (some s) = s.strengths

  abbrev quality_tier_of : Option Spec → ℕ
  quality_tier_of none = 0
  quality_tier_of (some s) = s.quality_tier

  abbrev is_empty {ℓ} : {V : Type ℓ} → Dict V → Bool
  is_empty [] = true
  is_empty (e ∷ d) = false

  -- 0.15 + 0.15 * tier if tier else None
  unfoldable pub tier_score : ℕ → Option F
  tier_score zero = none
  tier_score (suc n) = some (add (percent 15) (mul (percent 15) (ratio (suc n) 1)))

  -- The score of a capability that neither the user nor a calibration gives.
  unfoldable pub guessed_score : Option (F × F) → Option F → F
  guessed_score (some (score, confidence)) (some tier) =
      add (mul confidence score) (mul (sub (ratio 1 1) confidence) tier)
  guessed_score (some (score, confidence)) none = score
  guessed_score none (some tier) = tier
  guessed_score none none = percent 45

  priors_in : ScoreConfig → Profile → Dict (F × F)
  priors_in c p = if c.benchmarks_enabled then p.priors else []

  -- What the user says goes before what was measured, and that before what is guessed.
  unfoldable pub first_score : (told measured : Option F) → F → F
  first_score (some x) measured guess = x
  first_score none (some x) guess = clamp01 fl x
  first_score none none guess = guess

  unfoldable pub capability_score : ScoreConfig → Profile → String → F
  unfolding guessed_score priors_in tier_score
  capability_score c p dim =
      first_score (get (told_strengths p.spec) dim) (get p.calibration_scores dim)
        (guessed_score (get (priors_in c p) dim) (tier_score (quality_tier_of p.spec)))

  -- The loop over the job: the weighted sum and the sum of the weights.
  unfoldable pub sum_capabilities : (String → F) → Dict F → F × F → F × F
  sum_capabilities score [] (num, den) = (num, den)
  sum_capabilities score ((dim, weight) ∷ job) (num, den) = sum_capabilities score job (
      if elem dim capability_dimensions
      then (add num (mul weight (score dim)), add den weight)
      else (num, den))

  -- num / den if den else 0.45
  abbrev pub mean_or : F × F → F
  mean_or (num, den) = if is_nonzero den then div num den else percent 45

  -- The score of _quality_score
  unfoldable pub quality_score : ScoreConfig → Profile → Dict F → F
  unfolding capability_score sum_capabilities first_score
  quality_score c p job =
      mean_or (sum_capabilities (capability_score c p) job (zero_f fl, zero_f fl))

  -- The match confidence of _quality_score
  unfoldable pub match_confidence_of : ScoreConfig → Profile → F
  match_confidence_of c p =
      let found : F = if c.benchmarks_enabled then p.match_confidence else zero_f fl in
      let told : F =
        if not (is_empty (told_strengths p.spec)) || ltb 0 (quality_tier_of p.spec)
        then max_f found (percent 90)
        else found in
      if is_empty p.calibration_scores then told else max_f told (percent 80)

  abbrev speed_tier_of : Option Spec → ℕ
  speed_tier_of none = 0
  speed_tier_of (some s) = s.speed_tier

  size_speed : Option F → F
  size_speed none = ratio 1 2
  size_speed (some b) =
      clamp01 fl
        (sub (percent 105) (mul (percent 28) (log10 (mul (max_f b (percent 5)) (ratio 2 1)))))

  measured_speed : Option F → Option F → F
  unfolding size_speed
  measured_speed none size = size_speed size
  measured_speed (some tps) size =
      if lt (zero_f fl) tps
      then clamp01 fl (div (log10 (div (max_f tps (ratio 1 1)) (ratio 2 1))) (ratio 2 1))
      else size_speed size

  told_speed : ℕ → Profile → F
  unfolding measured_speed
  told_speed zero p = measured_speed p.tokens_per_s p.size_b
  told_speed (suc n) p = div (ratio n 1) (ratio 4 1)

  -- _speed_score
  unfoldable pub speed_score : Profile → F
  unfolding told_speed
  speed_score p = told_speed (speed_tier_of p.spec) p

  -- needed_tokens <= 0.7 * ctx, and otherwise what is left of the window
  context_score : (ctx needed : ℕ) → F
  context_score ctx needed =
      if lt (mul (percent 70) (ratio ctx 1)) (ratio needed 1)
      then clamp01 fl (div (sub (ratio ctx 1) (ratio needed 1)) (mul (percent 30) (ratio ctx 1)))
      else ratio 1 1

  -- _context_fit; a window that is not configured is guessed at 32,768 tokens
  unfoldable pub context_fit : Option Spec → ℕ → F × Option String
  unfolding context_score
  context_fit none needed = (context_score 32768 needed, none)
  context_fit (some s) needed =
      if ltb s.context_length needed
      then (zero_f fl, some "context does not fit")
      else (context_score s.context_length needed, none)
