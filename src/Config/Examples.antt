-- ===== src/Config/Examples.antt =====
-- A small configuration file, with floats that are whole hundredths.
use local_engine_router.Common.{
  ◌≤◌, ◌<◌, ◌≡◌, refl, ℕ, ◌*◌, arith, ltb, leb, true, false, [], ◌∷◌, none,
}
use local_engine_router.Routing.Aliases.{validate_aliases}
use local_engine_router.Config.{
  Checked, Integer, good, refused, Yaml, int, nonneg, text, list, mapping, nil, item, end, field,
  name,
}
use local_engine_router.Config.Numbers.{Numbers, parse_weight_table, parse_fraction}
use local_engine_router.Config.Smart.{SmartConfig, parse_smart_section, default_aliases}
use local_engine_router.Config.Models.{api_swap, build_engines_section, parse_model}
use local_engine_router.Config.Load.{RouterConfig, load_config}
use local_engine_router.Config.Load.Valid.{IsLoaded, load_config-IsLoaded}

abbrev to_hundredths : Yaml → Checked ℕ
to_hundredths (int (nonneg n)) = good (n * 100)
to_hundredths v = refused

abbrev whole : Yaml → Checked Integer
whole (int i) = good i
whole v = refused

small_finite : (a : ℕ) → a < 1000000000000 → ltb a 1000000000000 ≡ true
small_finite a small = ground arith

never_below : (a : ℕ) → ltb a 0 ≡ false
never_below a = ground arith

at_most_one : (a : ℕ) → a ≤ 100 → ltb 100 a ≡ false
at_most_one a small = ground arith

abbrev numbers : Numbers
numbers = record {
  F = ℕ;
  to_float = to_hundredths;
  to_int = whole;
  is_finite = λ a. ltb a 1000000000000;
  le = leb;
  lt = ltb;
  hundredths = λ a. a;
  hundredths_finite = small_finite;
  hundredths_nonneg = never_below;
  hundredths_fraction = at_most_one;
}

abbrev smart_section : Yaml
smart_section = mapping (
    field (name "swap_margin") (int (nonneg 1)) (
      field (name "policy") (text "mine") (
        field (name "policies")
          (mapping (field (name "mine") (mapping (field (name "speed") (int (nonneg 2)) end)) end))
          end)))

abbrev smart : SmartConfig numbers
smart = record {
  aliases = default_aliases;
  policy = "mine";
  catch_cloud_models = true;
  catch_unknown_models = true;
  override_exact_model_ids = false;
  swap_margin = 100;
  min_confidence = 25;
  swap_cost_horizon_s = 18000;
  weights = [];
  policies = ("mine", ("speed", 200) ∷ []) ∷ [];
  retry = record {
    same_model_reload = true;
    fall_forward = true;
    max_fallbacks = 2;
    failure_threshold = 3;
    cooldown_s = 12000;
  };
  benchmarks = record { bench_enabled = true; allow_network = false; cache_ttl_s = 0 };
  calibration_enabled = true;
}

smart_parsed : parse_smart_section numbers smart_section ≡ good smart
unfolding parse_smart_section parse_weight_table parse_fraction
smart_parsed = refl

margin_too_large :
    parse_smart_section numbers (mapping (field (name "swap_margin") (int (nonneg 2)) end))
    ≡ refused
unfolding parse_smart_section parse_weight_table parse_fraction
margin_too_large = refl

abbrev engine : Yaml
engine =
    mapping (field (name "type") (text "api_swap") (field (name "base_url") (text "http://a") end))

abbrev model : Yaml
model = mapping (field (name "id") (text "m") (field (name "engine") (text "a") end))

abbrev file : Yaml
file = mapping (
    field (name "engines") (mapping (field (name "a") engine end)) (
      field (name "models") (list (item model nil)) (
        field (name "aliases") (mapping (field (name "fast") (text "m") end))
          (field (name "smart") smart_section end))))

abbrev config : RouterConfig numbers
config = record {
  port = 8077;
  api_keys = [];
  swap_keepalive_enabled = true;
  allow_destructive_ollama_api = false;
  times = record {
    drain_timeout_s = 3000;
    swap_memory_settle_timeout_s = 2500;
    swap_keepalive_interval_s = 500;
    upstream_connect_timeout_s = 1500;
  };
  ds4_enabled = true;
  ollama_enabled = true;
  engines = record { key = name "a"; engine_type = api_swap; enabled = true } ∷ [];
  models =
      record {
        id = "m";
        engine = "a";
        display_name = text "m";
        context_length = nonneg 131072;
        thinking_floor = none;
        metadata = record {
          quality_tier = none;
          speed_tier = none;
          memory_gb = none;
          capabilities = [];
          strengths = [];
          smart_enabled = true;
        };
      }
      ∷ [];
  aliases = ("fast", "m") ∷ [];
  discover = record {
    discover_enabled = false;
    collision = "config_order";
    refresh_interval_s = 30000;
    state_ttl_s = 259200000;
    port_probe_enabled = false;
  };
  routing_mode = "smart";
  smart = smart;
}

file_loaded : load_config numbers file ≡ good config
unfolding load_config build_engines_section parse_model parse_smart_section parse_weight_table
    parse_fraction validate_aliases
file_loaded = refl

load_config-IsLoaded_example : IsLoaded numbers config
load_config-IsLoaded_example = load_config-IsLoaded numbers file config file_loaded
