-- ===== src/Smart/Request.antt =====
-- router/smart.py, `maybe_pick`, `_known_exact` and `_decide` of `SmartRouter` from the request on: the
-- checks and the score of each candidate are its `Facts`, and Pick chooses among them. Where a step
-- raises, `maybe_pick` answers none.
pub mod Suits
pub mod Examples
use Prim.Native.String.{compare}
use Prim.Native.Nat.{Ordering}
use local_engine_router.Common.{
  ℕ, ◌+◌, ◌*◌, String, Option, none, some, Bool, true, false, List, [], ◌∷◌, Dict, get, put, elem,
  any_of, sort_by, ltb, if◌then◌else◌, ◌&&◌, ◌||◌, ◌==◌, not,
}
use local_engine_router.Json.{Json}
use local_engine_router.Manager.State.{Manager}
use local_engine_router.Smart.Candidates.{
  Claim, Sources, Eligibility, enumerate_candidates, is_eligible,
}
use local_engine_router.Smart.Checks.{
  Shape, JobFlags, Verdict, not_embedding, embedding_only, no_vision, allowed, shape_allows,
  Timeouts, swap_cost_estimate,
}
use local_engine_router.Smart.Classify.{Reading, Demand, has_key, demand_of}
use local_engine_router.Smart.Floats.{Floats}
use local_engine_router.Smart.Health.{ModelHealth, HealthTable, in_cooldown}
use local_engine_router.Smart.Pick.{Facts, Settings, Decision, clamp01, is_active, decide}
use local_engine_router.Smart.Score.{
  Spec, Profile, ScoreConfig, percent, max_f, is_nonzero, smart_weights, quality_score,
  match_confidence_of, speed_score, context_fit,
}

-- sorted(candidates.items()); the keys are distinct
unfoldable pub sorted_items : Dict String → List (String × String)
unfolding sort_by
sorted_items = sort_by (λ c. c.0)

unfoldable pub shape_reason_of : Verdict → Option String
shape_reason_of not_embedding = some "not an embedding model"
shape_reason_of embedding_only = some "embedding-only model on a generation request"
shape_reason_of no_vision = some "request contains images; model is not vision-capable"
shape_reason_of allowed = none

module _ (fl : Floats) where
  open fl use {F, lt, add, sub, mul, div, ratio}

  -- What a decision reads beside the request; times are in milliseconds, and `now` is the one reading of
  -- the clock.
  pub record Surroundings : Type 0 where
    pub profile : String → Profile fl
    pub config : ScoreConfig fl
    pub settings : Settings fl
    pub manager : Manager
    pub engines : List String
    pub timeouts : String → Timeouts
    pub settle_timeout_s : ℕ
    pub health : HealthTable
    pub now : ℕ

  abbrev pub smart_enabled_of : Option (Spec fl) → Bool
  smart_enabled_of none = true
  smart_enabled_of (some s) = s.smart_enabled

  abbrev pub spec_capabilities : Option (Spec fl) → List String
  spec_capabilities none = []
  spec_capabilities (some s) = s.capabilities

  unfoldable pub shape_of : Profile fl → Shape
  shape_of p = record {
    has_embedding = elem "embedding" (spec_capabilities p.spec);
    looks_embedding = p.is_embedding;
    has_vision = elem "vision" (spec_capabilities p.spec);
    looks_vision = p.is_vision;
  }

  unfoldable pub job_flags : Demand F → JobFlags
  job_flags d = record { embedding = has_key d.job "embedding"; images = d.has_images }

  weight_or_zero : Option F → F
  weight_or_zero none = ratio 0 1
  weight_or_zero (some w) = w

  weight_in : Dict F → String → F
  unfolding weight_or_zero
  weight_in d k = weight_or_zero (get d k)

  -- eff[k] = eff.get(k, 0.0) * (1.0 + 2.0 * boost)
  boosted : Dict F → String → F → Dict F
  unfolding weight_in
  boosted d k boost = put d k (mul (weight_in d k) (add (ratio 1 1) (mul (ratio 2 1) boost)))

  sum_values : Dict F → F → F
  sum_values [] acc = acc
  sum_values ((k, w) ∷ d) acc = sum_values d (add acc w)

  sum_products : Dict F → Dict F → F → F
  unfolding weight_in
  sum_products weights [] acc = acc
  sum_products weights ((k, v) ∷ cs) acc =
      sum_products weights cs (add acc (mul (weight_in weights k) v))

  -- a or b
  abbrev or_float : F → F → F
  or_float a b = if is_nonzero fl a then a else b

  -- The weighted mean of the components.
  total_of : Dict F → Dict F → Dict F → F
  unfolding boosted sum_values sum_products weight_in
  total_of weights job components =
      let wsum : F = or_float (sum_values weights (ratio 0 1)) (ratio 1 1) in
      let eff : Dict F =
        boosted (boosted weights "speed" (weight_in job "speed")) "reliability"
          (weight_in job "reliability") in
      div (sum_products eff components (ratio 0 1)) (or_float (sum_values eff (ratio 0 1)) wsum)

  -- 1.0 less up to 0.8 for consecutive failures
  reliability_of : ScoreConfig fl → Option ModelHealth → F
  reliability_of c none = ratio 1 1
  reliability_of c (some h) =
      let threshold : ℕ = if ltb 1 c.failure_threshold then c.failure_threshold else 1 in
      sub (ratio 1 1) (mul (ratio 8 10) (clamp01 fl (ratio h.consecutive_failures threshold)))

  cost_of : Surroundings → String → F
  unfolding swap_cost_estimate
  cost_of w k = ratio (swap_cost_estimate w.manager w.timeouts w.settle_timeout_s k) 1000

  -- 1.0 - _clamp01(swap_cost_s / max(horizon, 1.0))
  swap_score : Surroundings → String → F
  unfolding cost_of
  swap_score w k =
      sub (ratio 1 1)
        (clamp01 fl (div (cost_of w k) (max_f fl w.config.swap_cost_horizon_s (ratio 1 1))))

  components_of : Surroundings → Demand F → String → String → Dict F
  unfolding reliability_of swap_score quality_score speed_score context_fit is_active
  components_of w d m k =
      ("quality", quality_score fl w.config (w.profile m) d.job)
      ∷ ("speed", speed_score fl (w.profile m))
      ∷ ("residency", if is_active fl w.manager.active_engine k then ratio 1 1 else ratio 0 1)
      ∷ ("swap_cost", swap_score w k)
      ∷ ("reliability", reliability_of w.config (get w.health.health m))
      ∷ ("context", (context_fit fl (w.profile m).spec d.needed_tokens).0)
      ∷ []

  -- What the loop of `_decide` computes for a model on an engine.
  unfoldable pub facts_of : Surroundings → Demand F → String → String → Facts fl
  unfolding shape_of job_flags shape_reason_of context_fit in_cooldown total_of components_of
      cost_of match_confidence_of smart_weights shape_allows
  facts_of w d m k =
      let p : Profile fl = w.profile m in
      record {
        smart_enabled = smart_enabled_of p.spec;
        shape_reason = shape_reason_of (shape_allows (shape_of p) (job_flags d));
        context_reason = (context_fit fl p.spec d.needed_tokens).1;
        cooling = in_cooldown w.health m w.now;
        score = total_of (smart_weights fl w.config) d.job (components_of w d m k);
        swap_cost = cost_of w k;
        match_confidence = match_confidence_of fl w.config p;
      }

  abbrev pub engine_of : Dict String → String → String
  engine_of candidates m = elim (get candidates m) [ none ↦ "" | some k ↦ k ]

  -- _decide
  unfoldable pub decide_request :
      Surroundings → Option (Demand F) → Dict String → Option (Decision fl)
  unfolding facts_of decide sorted_items
  decide_request w none candidates = none
  decide_request w (some d) candidates =
      decide fl w.settings w.engines w.manager.active_engine
        (λ m. facts_of w d m (engine_of candidates m)) (sorted_items candidates)

-- Where `_known_exact` looks, in its order; the tags of an engine that cannot be read are empty.
pub record Known : Type 0 where
  pub index : List String
  pub aliases : List String
  pub discovered : Dict String
  pub owners : List String
  pub tags : List (List String)

-- bool(d.get(m)): an engine's key that is not empty
abbrev names_engine : Option String → Bool
names_engine none = false
names_engine (some k) = not (k == "")

-- _known_exact
unfoldable pub is_known_exact : Known → String → Bool
is_known_exact n m =
    elem m n.index
    || (elem m n.aliases
        || (names_engine (get n.discovered m) || (elem m n.owners || any_of (elem m) n.tags)))

-- SmartConfig, as far as maybe_pick reads it; `clouds` answer whether a pattern finds a model id
pub record PickConfig : Type 0 where
  pub smart_mode : Bool
  pub aliases : List String
  pub override_exact_model_ids : Bool
  pub catch_cloud_models : Bool
  pub catch_unknown_models : Bool
  pub clouds : List (String → Bool)

-- is_cloud_model
unfoldable pub is_cloud_model : List (String → Bool) → String → Bool
is_cloud_model clouds m = any_of (λ finds. finds m) clouds

unfoldable pub eligibility_of : PickConfig → Known → String → Eligibility
unfolding is_known_exact is_cloud_model
eligibility_of c n m = record {
  smart_mode = c.smart_mode;
  known_exact = is_known_exact n m;
  is_smart_alias = elem m c.aliases;
  override_exact = c.override_exact_model_ids;
  is_cloud = is_cloud_model c.clouds m;
  catch_cloud = c.catch_cloud_models;
  catch_unknown = c.catch_unknown_models;
}

module _ (fl : Floats) (share : ℕ → ℕ → fl.F) (r : Reading) where
  -- maybe_pick
  unfoldable pub maybe_pick :
      PickConfig
      → Known
      → Surroundings fl
      → Sources
      → String
      → String
      → Dict Json
      → Option (Decision fl)
  maybe_pick c n w sources model path body =
      if is_eligible (eligibility_of c n model)
      then decide_request fl w (demand_of share r path body) (enumerate_candidates sources)
      else none
