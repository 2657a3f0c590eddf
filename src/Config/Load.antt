-- ===== src/Config/Load.antt =====
-- router/config.py, `load_config` and `_parse_discover_section`. Host, logging and the sections `ds4` and
-- `ollama`, of which only `enabled` is kept, need no checks but that these are mappings.
pub mod Valid
use local_engine_router.Common.{
  ◌≡◌, ℕ, Bool, true, false, not, ◌&&◌, ◌||◌, ◌==◌, List, [], ◌∷◌, map, String, Option, none, some,
  elem, if◌then◌else◌, leb, Dict, any_of, All,
}
use local_engine_router.Json.{is_text, strip}
use local_engine_router.Routing.{ModelSpec}
use local_engine_router.Routing.Aliases.{AliasError, validate_aliases}
use local_engine_router.Config.{
  Checked, good, refused, ◌>>=◌, ◌>>◌, guard, Integer, Yaml, Items, null, bool, int, nonneg,
  negative, real, text, list, mapping, nil, item, Fields, end, field, Key, name, other_key,
  all_known, truthy, lookup, get_or, get_null, flag, is_named, mapping_or_empty, names_in,
}
use local_engine_router.Config.Numbers.{Numbers, float_or}
use local_engine_router.Config.Smart.{SmartConfig, parse_smart_section, discover_keys, one_of}
use local_engine_router.Config.Models.{
  EngineSpec, EngineType, Model, parse_models, build_engines_section, mapping_in,
}

-- `aliases`: each alias and its target is a text; what else is asked of them is `validate_aliases`.
abbrev pub aliases_of : Fields → Checked (Dict String)
aliases_of end = good []
aliases_of (field (name alias) (text target) fs) = do
  rest ← aliases_of fs
  good ((alias, target) ∷ rest)
aliases_of (field k v fs) = refused

-- a list of texts that are not blank
abbrev pub api_keys_of : Items → Checked (List String)
api_keys_of nil = good []
api_keys_of (item (text k) vs) = do
  rest ← api_keys_of vs
  guard (is_text (strip k))
  good (k ∷ rest)
api_keys_of (item v vs) = refused

abbrev pub api_keys_in : Yaml → Checked (List String)
api_keys_in null = good []
api_keys_in (list vs) = api_keys_of vs
api_keys_in v = refused

abbrev pub port_in : Yaml → Checked ℕ
port_in (int (nonneg n)) = do guard (leb 1 n && leb n 65535); good n
port_in v = refused

abbrev pub bool_in : Yaml → Checked Bool
bool_in (bool b) = good b
bool_in v = refused

-- _coerce_section: null has the defaults
abbrev pub coerce_section : Yaml → Checked Fields
coerce_section null = good end
coerce_section (mapping fs) = good fs
coerce_section v = refused

-- port_probe: its `enabled`
abbrev pub port_probe_in : Yaml → Checked Bool
port_probe_in null = good false
port_probe_in (mapping fs) = do
  guard (all_known ("enabled" ∷ []) fs)
  good (flag fs "enabled" false)
port_probe_in v = refused

abbrev pub no_error : Option AliasError → Bool
no_error none = true
no_error (some e) = false

module _ (N : Numbers) where
  open N use {F, lt, hundredths}

  pub record DiscoverConfig : Type 0 where
    pub discover_enabled : Bool
    pub collision : String
    pub refresh_interval_s : F
    pub state_ttl_s : F
    pub port_probe_enabled : Bool

  -- _parse_discover_section
  unfoldable pub parse_discover_section : Yaml → Checked DiscoverConfig
  parse_discover_section v = do
    raw ← mapping_or_empty v
    guard (all_known discover_keys raw)
    rule ← one_of ("config_order" ∷ []) (get_or raw "collision" (text "config_order"))
    probe ← port_probe_in (get_null raw "port_probe")
    interval ← float_or N (lookup raw "refresh_interval_s") 30000
    ttl ← float_or N (lookup raw "state_ttl_s") 259200000
    good (record {
      discover_enabled = flag raw "enabled" false;
      collision = rule;
      refresh_interval_s = interval;
      state_ttl_s = ttl;
      port_probe_enabled = probe;
    })

  pub record Times : Type 0 where
    pub drain_timeout_s : F
    pub swap_memory_settle_timeout_s : F
    pub swap_keepalive_interval_s : F
    pub upstream_connect_timeout_s : F

  -- The loop over the four times; two of them may not be 0
  unfoldable pub parse_times : Fields → Checked Times
  parse_times raw = do
    drain ← float_or N (lookup raw "drain_timeout_s") 3000
    settle ← float_or N (lookup raw "swap_memory_settle_timeout_s") 2500
    keepalive ← float_or N (lookup raw "swap_keepalive_interval_s") 500
    guard (lt (hundredths 0) keepalive)
    connect ← float_or N (lookup raw "upstream_connect_timeout_s") 1500
    guard (lt (hundredths 0) connect)
    good (record {
      drain_timeout_s = drain;
      swap_memory_settle_timeout_s = settle;
      swap_keepalive_interval_s = keepalive;
      upstream_connect_timeout_s = connect;
    })

  pub record RouterConfig : Type 0 where
    pub port : ℕ
    pub api_keys : List String
    pub swap_keepalive_enabled : Bool
    pub allow_destructive_ollama_api : Bool
    pub times : Times
    pub ds4_enabled : Bool
    pub ollama_enabled : Bool
    pub engines : List EngineSpec
    pub models : List (Model N)
    pub aliases : Dict String
    pub discover : DiscoverConfig
    pub routing_mode : String
    pub smart : SmartConfig N

  -- spec.engine in valid_engines
  abbrev pub engine_known : List EngineSpec → Model N → Bool
  engine_known [] m = elem m.engine ("ds4" ∷ "ollama" ∷ [])
  engine_known (e ∷ es) m = any_of (λ s. is_named s.key m.engine) (e ∷ es)

  abbrev pub all_engines_known : List EngineSpec → List (Model N) → Bool
  all_engines_known es [] = true
  all_engines_known es (m ∷ ms) = engine_known es m && all_engines_known es ms

  abbrev pub specs_of : List (Model N) → List ModelSpec
  specs_of [] = []
  specs_of (m ∷ ms) = record { id = m.id; engine = m.engine } ∷ specs_of ms

  load_fields : Fields → Checked RouterConfig
  unfolding parse_discover_section parse_times
  load_fields raw = do
    ds4_section ← coerce_section (get_null raw "ds4")
    ollama_section ← coerce_section (get_null raw "ollama")
    specs ← build_engines_section N (get_null raw "engines")
    ms ← parse_models N (get_null raw "models")
    d ← parse_discover_section (get_null raw "discover")
    s ← parse_smart_section N (get_null raw "smart")
    mode ← one_of ("smart" ∷ "manual" ∷ []) (get_or raw "routing_mode" (text "smart"))
    keys ← api_keys_in (get_null raw "api_keys")
    p ← port_in (get_or raw "port" (int (nonneg 8077)))
    keepalive ← bool_in (get_or raw "swap_keepalive_enabled" (bool true))
    destructive ← bool_in (get_or raw "allow_destructive_ollama_api" (bool false))
    t ← parse_times raw
    guard (all_engines_known specs ms)
    aliased ← mapping_or_empty (get_null raw "aliases")
    table ← aliases_of aliased
    guard (no_error (validate_aliases (specs_of ms) table))
    good (record {
      port = p;
      api_keys = keys;
      swap_keepalive_enabled = keepalive;
      allow_destructive_ollama_api = destructive;
      times = t;
      ds4_enabled = flag ds4_section "enabled" true;
      ollama_enabled = flag ollama_section "enabled" true;
      engines = specs;
      models = ms;
      aliases = table;
      discover = d;
      routing_mode = mode;
      smart = s;
    })

  -- load_config, from what the file holds; a file that is missing or empty is null
  unfoldable pub load_config : Yaml → Checked RouterConfig
  unfolding load_fields
  load_config v = do raw ← coerce_section v; load_fields raw
