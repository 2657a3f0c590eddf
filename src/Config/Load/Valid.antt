-- ===== src/Config/Load/Valid.antt =====
-- What a configuration that `load_config` accepts satisfies.
use local_engine_router.Common.{
  ◌≡◌, refl, subst, ℕ, ◌≤◌, arith, true, false, ◌&&◌, List, [], ◌∷◌, String, Option, none, some,
  elem, leb, All,
}
use local_engine_router.Json.{is_text, strip}
use local_engine_router.Routing.Aliases.{AliasError, validate_aliases}
use local_engine_router.Config.{
  good, >>=-eq-good, >>-eq-good, good-injective, Yaml, Items, null, bool, int, nonneg, text, list,
  nil, item, Fields, lookup, get_or, get_null, mapping_or_empty,
}
use local_engine_router.Config.Numbers.{Numbers, float_or, IsNonneg, float_or-IsNonneg}
use local_engine_router.Config.Smart.{parse_smart_section, one_of}
use local_engine_router.Config.Smart.Valid.{one_of-elem, parse_smart_section-IsValid}
use local_engine_router.Config.Smart.Valid
use local_engine_router.Config.Models.{EngineSpec, Model, parse_models, build_engines_section}
use local_engine_router.Config.Load.{
  api_keys_of, api_keys_in, port_in, bool_in, coerce_section, no_error, aliases_of, Times,
  RouterConfig, parse_discover_section, parse_times, engine_known, all_engines_known, specs_of,
  load_fields, load_config,
}

abbrev pub IsKey : String → Type 0
IsKey k = is_text (strip k) ≡ true

api_keys_of-IsKey : (vs : Items) (ks : List String) → api_keys_of vs ≡ good ks → All IsKey ks
api_keys_of-IsKey nil ks e = subst (All IsKey) (good-injective e) tt
api_keys_of-IsKey (item (text k) vs) ks e =
    let (rest, parsed, more) = >>=-eq-good (api_keys_of vs) _ e in
    let (named, same) = >>-eq-good (is_text (strip k)) (good (k ∷ rest)) more in
    subst (All IsKey) (good-injective same) (named, api_keys_of-IsKey vs rest parsed)
api_keys_of-IsKey (item v vs) ks e = absurd (ground arith)

api_keys_in-IsKey : (v : Yaml) (ks : List String) → api_keys_in v ≡ good ks → All IsKey ks
api_keys_in-IsKey null ks e = subst (All IsKey) (good-injective e) tt
api_keys_in-IsKey (list vs) ks e = api_keys_of-IsKey vs ks e
api_keys_in-IsKey v ks e = absurd (ground arith)

abbrev pub IsPort : ℕ → Type 0
IsPort n = (1 ≤ n) × (n ≤ 65535)

port_in-IsPort : (v : Yaml) (n : ℕ) → port_in v ≡ good n → IsPort n
port_in-IsPort (int (nonneg m)) n e =
    let (range, same) = >>-eq-good (leb 1 m && leb m 65535) (good m) e in
    subst IsPort (good-injective same) (ground arith)
port_in-IsPort v n e = absurd (ground arith)

none_of : (o : Option AliasError) → no_error o ≡ true → o ≡ none
none_of none e = refl
none_of (some x) e = absurd (ground arith)

module _ (N : Numbers) where
  open N use {lt, hundredths}

  abbrev IsKnown : List EngineSpec → Model N → Type 0
  IsKnown es m = engine_known N es m ≡ true

  models-IsKnown :
      (es : List EngineSpec) (ms : List (Model N))
      → all_engines_known N es ms ≡ true
      → All (IsKnown es) ms
  models-IsKnown es [] e = tt
  models-IsKnown es (m ∷ ms) e = (ground arith, models-IsKnown es ms (ground arith))

  pub record IsTimes (t : Times N) : Type 0 where
    pub drain : IsNonneg N t.drain_timeout_s
    pub settled : IsNonneg N t.swap_memory_settle_timeout_s
    pub keepalive : IsNonneg N t.swap_keepalive_interval_s
    pub keepalive_positive : lt (hundredths 0) t.swap_keepalive_interval_s ≡ true
    pub connect : IsNonneg N t.upstream_connect_timeout_s
    pub connect_positive : lt (hundredths 0) t.upstream_connect_timeout_s ≡ true

  parse_times-IsTimes : (raw : Fields) (t : Times N) → parse_times N raw ≡ good t → IsTimes t
  unfolding parse_times
  parse_times-IsTimes raw t e0 =
      let (a, is_a, e1) = >>=-eq-good (float_or N (lookup raw "drain_timeout_s") 3000) _ e0 in
      let (b, is_b, e2) =
        >>=-eq-good (float_or N (lookup raw "swap_memory_settle_timeout_s") 2500) _ e1 in
      let (c, is_c, e3) =
        >>=-eq-good (float_or N (lookup raw "swap_keepalive_interval_s") 500) _ e2 in
      let (c_pos, e4) = >>-eq-good (lt (hundredths 0) c) _ e3 in
      let (d, is_d, e5) =
        >>=-eq-good (float_or N (lookup raw "upstream_connect_timeout_s") 1500) _ e4 in
      let (d_pos, e6) = >>-eq-good (lt (hundredths 0) d) _ e5 in
      subst IsTimes (good-injective e6) (record {
        drain = float_or-IsNonneg N (lookup raw "drain_timeout_s") 3000 a (omega arith) is_a;
        settled =
            float_or-IsNonneg N (lookup raw "swap_memory_settle_timeout_s") 2500 b (omega arith)
              is_b;
        keepalive =
            float_or-IsNonneg N (lookup raw "swap_keepalive_interval_s") 500 c (omega arith) is_c;
        keepalive_positive = c_pos;
        connect =
            float_or-IsNonneg N (lookup raw "upstream_connect_timeout_s") 1500 d (omega arith) is_d;
        connect_positive = d_pos;
      })

  pub record IsLoaded (c : RouterConfig N) : Type 0 where
    pub port_in_range : IsPort c.port
    pub keys_named : All IsKey c.api_keys
    pub times_valid : IsTimes c.times
    pub engines_known : All (IsKnown c.engines) c.models
    pub aliases_valid : validate_aliases (specs_of N c.models) c.aliases ≡ none
    pub mode_known : elem c.routing_mode ("smart" ∷ "manual" ∷ []) ≡ true
    pub smart_valid : Valid.IsValid N c.smart

  load_fields-IsLoaded :
      (raw : Fields) (c : RouterConfig N) → load_fields N raw ≡ good c → IsLoaded c
  unfolding load_config
  load_fields-IsLoaded raw c e0 =
      let (ds, is_ds, e1) = >>=-eq-good (coerce_section (get_null raw "ds4")) _ e0 in
      let (ol, is_ol, e2) = >>=-eq-good (coerce_section (get_null raw "ollama")) _ e1 in
      let (es, is_es, e3) = >>=-eq-good (build_engines_section N (get_null raw "engines")) _ e2 in
      let (ms, is_ms, e4) = >>=-eq-good (parse_models N (get_null raw "models")) _ e3 in
      let (d, is_d, e5) = >>=-eq-good (parse_discover_section N (get_null raw "discover")) _ e4 in
      let (s, is_s, e6) = >>=-eq-good (parse_smart_section N (get_null raw "smart")) _ e5 in
      let (mode, is_mode, e7) =
        >>=-eq-good (one_of ("smart" ∷ "manual" ∷ []) (get_or raw "routing_mode" (text "smart"))) _
          e6 in
      let (keys, is_keys, e8) = >>=-eq-good (api_keys_in (get_null raw "api_keys")) _ e7 in
      let (p, is_p, e9) = >>=-eq-good (port_in (get_or raw "port" (int (nonneg 8077)))) _ e8 in
      let (ka, is_ka, e10) =
        >>=-eq-good (bool_in (get_or raw "swap_keepalive_enabled" (bool true))) _ e9 in
      let (de, is_de, e11) =
        >>=-eq-good (bool_in (get_or raw "allow_destructive_ollama_api" (bool false))) _ e10 in
      let (t, is_t, e12) = >>=-eq-good (parse_times N raw) _ e11 in
      let (known, e13) = >>-eq-good (all_engines_known N es ms) _ e12 in
      let (aliased, is_aliased, e14) =
        >>=-eq-good (mapping_or_empty (get_null raw "aliases")) _ e13 in
      let (table, is_table, e15) = >>=-eq-good (aliases_of aliased) _ e14 in
      let (fine, e16) = >>-eq-good (no_error (validate_aliases (specs_of N ms) table)) _ e15 in
      subst IsLoaded (good-injective e16) (record {
        port_in_range = port_in-IsPort (get_or raw "port" (int (nonneg 8077))) p is_p;
        keys_named = api_keys_in-IsKey (get_null raw "api_keys") keys is_keys;
        times_valid = parse_times-IsTimes raw t is_t;
        engines_known = models-IsKnown es ms known;
        aliases_valid = none_of (validate_aliases (specs_of N ms) table) fine;
        mode_known =
            one_of-elem ("smart" ∷ "manual" ∷ []) (get_or raw "routing_mode" (text "smart")) mode
              is_mode;
        smart_valid = parse_smart_section-IsValid N (get_null raw "smart") s is_s;
      })

  -- Whatever the file holds, a configuration that load_config returns has a port from 1 to 65535, API keys
  -- that are not blank, times that are finite and not negative, those of the keep-alives and of connecting
  -- positive, an engine in the table for every model, aliases that pass their check, a known routing mode
  -- and a valid smart section.
  pub load_config-IsLoaded : (v : Yaml) (c : RouterConfig N) → load_config N v ≡ good c → IsLoaded c
  unfolding load_config
  load_config-IsLoaded v c e =
      let (raw, is_raw, rest) = >>=-eq-good (coerce_section v) _ e in
      load_fields-IsLoaded raw c rest
