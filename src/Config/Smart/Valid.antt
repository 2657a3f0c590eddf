-- ===== src/Config/Smart/Valid.antt =====
-- What an accepted `smart` section satisfies.
use local_engine_router.Common.{
  ◌≡◌, refl, subst, arith, true, List, ◌∷◌, String, Option, none, some, elem, All, Dict,
}
use local_engine_router.Json.{is_text}
use local_engine_router.Config.{
  good, >>=-eq-good, >>-eq-good, good-injective, Yaml, Items, int, nonneg, text, list, mapping, nil,
  item, Fields, end, field, name, other_key, all_known, lookup, get_or, get_null, mapping_or_empty,
  named_items,
}
use local_engine_router.Config.Numbers.{
  Numbers, float_or, fraction_or, parse_weight_table, IsNonneg, IsFraction, IsTable,
  float_or-IsNonneg, fraction_or-IsFraction, parse_weight_table-IsTable,
}
use local_engine_router.Config.Smart.{
  count_in, names_or_default, one_of, SmartConfig, SmartRetryConfig, SmartBenchmarksConfig,
  parse_retry, parse_benchmarks, policies_of, policy_names, parse_smart_fields, parse_smart_section,
  smart_keys, retry_keys, benchmarks_keys,
}

abbrev pub IsNamed : List String → Type 0
IsNamed names = All (λ n. is_text n ≡ true) names

named_items-IsNamed : (vs : Items) (xs : List String) → named_items vs ≡ good xs → IsNamed xs
named_items-IsNamed nil xs e = subst IsNamed (good-injective e) tt
named_items-IsNamed (item (text s) vs) xs e =
    let (rest, parsed, more) = >>=-eq-good (named_items vs) _ e in
    let (named, same) = >>-eq-good (is_text s) (good (s ∷ rest)) more in
    subst IsNamed (good-injective same) (named, named_items-IsNamed vs rest parsed)
named_items-IsNamed (item v vs) xs e = absurd (ground arith)

names_or_default-IsNamed :
    (v : Option Yaml) (xs : List String) → names_or_default v ≡ good xs → IsNamed xs
names_or_default-IsNamed none xs e = subst IsNamed (good-injective e) (refl, (refl, (refl, tt)))
names_or_default-IsNamed (some (list vs)) xs e = named_items-IsNamed vs xs e
names_or_default-IsNamed (some v) xs e = absurd (ground arith)

pub one_of-elem :
    (allowed : List String) (v : Yaml) (s : String)
    → one_of allowed v ≡ good s
    → elem s allowed ≡ true
one_of-elem allowed (text s) t e =
    let (known, same) = >>-eq-good (elem s allowed) (good s) e in
    subst (λ x. elem x allowed ≡ true) (good-injective same) known
one_of-elem allowed v t e = absurd (ground arith)

module _ (N : Numbers) where
  -- Policies have names and weights.
  abbrev pub IsPolicy : String × Dict (N.F) → Type 0
  IsPolicy p = (is_text p.0 ≡ true) × IsTable N p.1

  policies_of-IsPolicy :
      (fs : Fields) (d : Dict (Dict (N.F))) → policies_of N fs ≡ good d → All IsPolicy d
  unfolding policies_of
  policies_of-IsPolicy end d e = subst (All IsPolicy) (good-injective e) tt
  policies_of-IsPolicy (field (name k) v fs) d e =
      let (named, more) = >>-eq-good (is_text k) _ e in
      let (table, parsed, later) = >>=-eq-good (parse_weight_table N v) _ more in
      let (rest, others, same) = >>=-eq-good (policies_of N fs) _ later in
      subst (All IsPolicy) (good-injective same)
        ((named, parse_weight_table-IsTable N v table parsed), policies_of-IsPolicy fs rest others)
  policies_of-IsPolicy (field other_key v fs) d e = absurd (ground arith)

  retry-IsNonneg :
      (v : Yaml) (r : SmartRetryConfig N) → parse_retry N v ≡ good r → IsNonneg N (r.cooldown_s)
  unfolding parse_retry
  retry-IsNonneg v r e =
      let (raw, is_raw, e1) = >>=-eq-good (mapping_or_empty v) _ e in
      let (known, e2) = >>-eq-good (all_known retry_keys raw) _ e1 in
      let (most, is_most, e3) =
        >>=-eq-good (count_in (get_or raw "max_fallbacks" (int (nonneg 2)))) _ e2 in
      let (failures, is_failures, e4) =
        >>=-eq-good (count_in (get_or raw "failure_threshold" (int (nonneg 3)))) _ e3 in
      let (cooldown, is_cooldown, e5) =
        >>=-eq-good (float_or N (lookup raw "cooldown_s") 12000) _ e4 in
      subst (λ x. IsNonneg N (x.cooldown_s)) (good-injective e5)
        (float_or-IsNonneg N (lookup raw "cooldown_s") 12000 cooldown (omega arith) is_cooldown)

  benchmarks-IsNonneg :
      (v : Yaml) (b : SmartBenchmarksConfig N)
      → parse_benchmarks N v ≡ good b
      → IsNonneg N (b.cache_ttl_s)
  unfolding parse_benchmarks
  benchmarks-IsNonneg v b e =
      let (raw, is_raw, e1) = >>=-eq-good (mapping_or_empty v) _ e in
      let (known, e2) = >>-eq-good (all_known benchmarks_keys raw) _ e1 in
      let (ttl, is_ttl, e3) = >>=-eq-good (float_or N (lookup raw "cache_ttl_s") 0) _ e2 in
      subst (λ x. IsNonneg N (x.cache_ttl_s)) (good-injective e3)
        (float_or-IsNonneg N (lookup raw "cache_ttl_s") 0 ttl (omega arith) is_ttl)

  pub record IsValid (c : SmartConfig N) : Type 0 where
    pub aliases_named : IsNamed (c.aliases)
    pub policy_exists : elem (c.policy) (policy_names N (c.policies)) ≡ true
    pub policies_weighed : All IsPolicy (c.policies)
    pub weights_table : IsTable N (c.weights)
    pub margin_fraction : IsFraction N (c.swap_margin)
    pub confidence_fraction : IsFraction N (c.min_confidence)
    pub horizon_nonneg : IsNonneg N (c.swap_cost_horizon_s)
    pub cooldown_nonneg : IsNonneg N (c.retry.cooldown_s)
    pub ttl_nonneg : IsNonneg N (c.benchmarks.cache_ttl_s)

  fields-IsValid :
      (raw : Fields) (c : SmartConfig N) → parse_smart_fields N raw ≡ good c → IsValid c
  unfolding parse_smart_section
  fields-IsValid raw c e0 =
      let (known, e1) = >>-eq-good (all_known smart_keys raw) _ e0 in
      let (given, is_given, e2) = >>=-eq-good (names_or_default (lookup raw "aliases")) _ e1 in
      let (tables, is_tables, e3) = >>=-eq-good (mapping_or_empty (get_null raw "policies")) _ e2 in
      let (named, is_named, e4) = >>=-eq-good (policies_of N tables) _ e3 in
      let (chosen, is_chosen, e5) =
        >>=-eq-good (one_of (policy_names N named) (get_or raw "policy" (text "balanced"))) _ e4 in
      let (table, is_table, e6) = >>=-eq-good (mapping_or_empty (get_null raw "weights")) _ e5 in
      let (own, is_own, e7) = >>=-eq-good (parse_weight_table N (mapping table)) _ e6 in
      let (r, is_r, e8) = >>=-eq-good (parse_retry N (get_null raw "retry")) _ e7 in
      let (b, is_b, e9) = >>=-eq-good (parse_benchmarks N (get_null raw "benchmarks")) _ e8 in
      let (margin, is_margin, e10) =
        >>=-eq-good (fraction_or N (lookup raw "swap_margin") 8) _ e9 in
      let (sure, is_sure, e11) =
        >>=-eq-good (fraction_or N (lookup raw "min_confidence") 25) _ e10 in
      let (horizon, is_horizon, e12) =
        >>=-eq-good (float_or N (lookup raw "swap_cost_horizon_s") 18000) _ e11 in
      subst IsValid (good-injective e12) (record {
        aliases_named = names_or_default-IsNamed (lookup raw "aliases") given is_given;
        policy_exists =
            one_of-elem (policy_names N named) (get_or raw "policy" (text "balanced")) chosen
              is_chosen;
        policies_weighed = policies_of-IsPolicy tables named is_named;
        weights_table = parse_weight_table-IsTable N (mapping table) own is_own;
        margin_fraction =
            fraction_or-IsFraction N (lookup raw "swap_margin") 8 margin (omega arith) is_margin;
        confidence_fraction =
            fraction_or-IsFraction N (lookup raw "min_confidence") 25 sure (omega arith) is_sure;
        horizon_nonneg =
            float_or-IsNonneg N (lookup raw "swap_cost_horizon_s") 18000 horizon (omega arith)
              is_horizon;
        cooldown_nonneg = retry-IsNonneg (get_null raw "retry") r is_r;
        ttl_nonneg = benchmarks-IsNonneg (get_null raw "benchmarks") b is_b;
      })

  -- An accepted smart section, whatever the file holds, has aliases that are not empty, a policy that is
  -- built in or defined, weights and policies with known keys and finite weights that are not negative,
  -- one of them positive where there are any, a margin and a confidence between 0 and 1, and times that
  -- are finite and not negative.
  pub parse_smart_section-IsValid :
      (v : Yaml) (c : SmartConfig N) → parse_smart_section N v ≡ good c → IsValid c
  unfolding parse_smart_section
  parse_smart_section-IsValid v c e =
      let (raw, is_raw, rest) = >>=-eq-good (mapping_or_empty v) _ e in fields-IsValid raw c rest
