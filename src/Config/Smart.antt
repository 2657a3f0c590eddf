-- ===== src/Config/Smart.antt =====
-- router/config.py, `_parse_smart_section` and `_parse_discover_section`, and what an accepted section
-- satisfies.
pub mod Valid
use local_engine_router.Common.{
  ◌≡◌, refl, subst, ℕ, zero, suc, ◌≤◌, ◌<◌, arith, Bool, true, false, Bool-cases, inl, inr, ◌⊎◌,
  not, ◌&&◌, ◌||◌, ◌==◌, List, [], ◌∷◌, ◌++◌, map, String, Option, none, some, elem, if◌then◌else◌,
  All, Dict, put,
}
use local_engine_router.Json.{is_text}
use local_engine_router.Config.{
  Checked, good, refused, ◌>>=◌, ◌>>◌, guard, >>=-eq-good, >>-eq-good, Yaml, Items, null, bool, int,
  nonneg, negative, real, text, list, mapping, nil, item, Fields, end, field, Key, name, other_key,
  all_known, truthy, lookup, get_or, get_null, flag, mapping_or_empty, names_in, named_items,
}
use local_engine_router.Config.Numbers.{
  Numbers, parse_nonnegative_float, parse_fraction, float_or, fraction_or, parse_weight_table,
  IsNonneg, IsFraction, IsTable, float_or-IsNonneg, fraction_or-IsFraction,
  parse_weight_table-IsTable,
}

-- isinstance(val, int) and not isinstance(val, bool) and val >= 0
abbrev pub count_in : Yaml → Checked ℕ
count_in (int (nonneg n)) = good n
count_in v = refused

-- SMART_BUILTIN_POLICIES
abbrev pub builtin_policies : List String
builtin_policies = "balanced" ∷ "fast" ∷ "quality" ∷ "economy" ∷ []

abbrev pub default_aliases : List String
default_aliases = "smart" ∷ "auto" ∷ "default" ∷ []

abbrev pub smart_keys : List String
smart_keys =
    "aliases" ∷ "policy" ∷ "policies" ∷ "weights" ∷ "catch_cloud_models" ∷ "catch_unknown_models"
    ∷ "override_exact_model_ids" ∷ "swap_margin" ∷ "min_confidence" ∷ "swap_cost_horizon_s"
    ∷ "retry" ∷ "benchmarks" ∷ "calibration_enabled" ∷ []

abbrev pub retry_keys : List String
retry_keys =
    "same_model_reload" ∷ "fall_forward" ∷ "max_fallbacks" ∷ "failure_threshold" ∷ "cooldown_s" ∷ []

abbrev pub benchmarks_keys : List String
benchmarks_keys = "enabled" ∷ "allow_network" ∷ "cache_ttl_s" ∷ []

abbrev pub discover_keys : List String
discover_keys = "enabled" ∷ "collision" ∷ "refresh_interval_s" ∷ "state_ttl_s" ∷ "port_probe" ∷ []

abbrev pub names_or_default : Option Yaml → Checked (List String)
names_or_default none = good default_aliases
names_or_default (some v) = names_in v

-- the value of `policy` or `collision`: a text among those allowed
abbrev pub one_of : List String → Yaml → Checked String
one_of allowed (text s) = do guard (elem s allowed); good s
one_of allowed v = refused

module _ (N : Numbers) where
  open N use {F}

  pub record SmartRetryConfig : Type 0 where
    pub same_model_reload : Bool
    pub fall_forward : Bool
    pub max_fallbacks : ℕ
    pub failure_threshold : ℕ
    pub cooldown_s : F

  pub record SmartBenchmarksConfig : Type 0 where
    pub bench_enabled : Bool
    pub allow_network : Bool
    pub cache_ttl_s : F

  pub record SmartConfig : Type 0 where
    pub aliases : List String
    pub policy : String
    pub catch_cloud_models : Bool
    pub catch_unknown_models : Bool
    pub override_exact_model_ids : Bool
    pub swap_margin : F
    pub min_confidence : F
    pub swap_cost_horizon_s : F
    pub weights : Dict F
    pub policies : Dict (Dict F)
    pub retry : SmartRetryConfig
    pub benchmarks : SmartBenchmarksConfig
    pub calibration_enabled : Bool

  unfoldable pub parse_retry : Yaml → Checked SmartRetryConfig
  parse_retry v = do
    raw ← mapping_or_empty v
    guard (all_known retry_keys raw)
    most ← count_in (get_or raw "max_fallbacks" (int (nonneg 2)))
    failures ← count_in (get_or raw "failure_threshold" (int (nonneg 3)))
    cooldown ← float_or N (lookup raw "cooldown_s") 12000
    good (record {
      same_model_reload = flag raw "same_model_reload" true;
      fall_forward = flag raw "fall_forward" true;
      max_fallbacks = most;
      failure_threshold = failures;
      cooldown_s = cooldown;
    })

  unfoldable pub parse_benchmarks : Yaml → Checked SmartBenchmarksConfig
  parse_benchmarks v = do
    raw ← mapping_or_empty v
    guard (all_known benchmarks_keys raw)
    ttl ← float_or N (lookup raw "cache_ttl_s") 0
    good (record {
      bench_enabled = flag raw "enabled" true;
      allow_network = flag raw "allow_network" false;
      cache_ttl_s = ttl;
    })

  -- The loop over the policies; their names are not empty.
  unfoldable pub policies_of : Fields → Checked (Dict (Dict F))
  policies_of end = good []
  policies_of (field (name k) v fs) = do
    guard (is_text k)
    table ← parse_weight_table N v
    rest ← policies_of fs
    good ((k, table) ∷ rest)
  policies_of (field other_key v fs) = refused

  abbrev pub policy_names : Dict (Dict F) → List String
  policy_names d = builtin_policies ++ map (λ p. p.0) d

  parse_smart_fields : Fields → Checked SmartConfig
  unfolding parse_retry parse_benchmarks policies_of
  parse_smart_fields raw = do
    guard (all_known smart_keys raw)
    given ← names_or_default (lookup raw "aliases")
    tables ← mapping_or_empty (get_null raw "policies")
    named ← policies_of tables
    chosen ← one_of (policy_names named) (get_or raw "policy" (text "balanced"))
    table ← mapping_or_empty (get_null raw "weights")
    own ← parse_weight_table N (mapping table)
    r ← parse_retry (get_null raw "retry")
    b ← parse_benchmarks (get_null raw "benchmarks")
    margin ← fraction_or N (lookup raw "swap_margin") 8
    sure ← fraction_or N (lookup raw "min_confidence") 25
    horizon ← float_or N (lookup raw "swap_cost_horizon_s") 18000
    good (record {
      aliases = given;
      policy = chosen;
      catch_cloud_models = flag raw "catch_cloud_models" true;
      catch_unknown_models = flag raw "catch_unknown_models" true;
      override_exact_model_ids = flag raw "override_exact_model_ids" false;
      swap_margin = margin;
      min_confidence = sure;
      swap_cost_horizon_s = horizon;
      weights = own;
      policies = named;
      retry = r;
      benchmarks = b;
      calibration_enabled = flag raw "calibration_enabled" true;
    })

  -- _parse_smart_section; an absent section and an empty mapping have the defaults
  unfoldable pub parse_smart_section : Yaml → Checked SmartConfig
  unfolding parse_smart_fields
  parse_smart_section v = do raw ← mapping_or_empty v; parse_smart_fields raw
