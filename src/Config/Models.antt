-- ===== src/Config/Models.antt =====
-- router/config.py, the entries of `models`, `_parse_model_smart_metadata` and `_build_engines_section`
-- with the checks of each type of engine.
use local_engine_router.Common.{
  ℕ, Bool, true, false, not, ◌&&◌, ◌==◌, List, [], ◌∷◌, String, Option, none, some, elem,
  if◌then◌else◌, leb, Dict, any_of,
}
use local_engine_router.Json.{is_text, strip}
use local_engine_router.Config.{
  Checked, good, refused, ◌>>=◌, ◌>>◌, guard, Integer, Yaml, Items, null, int, nonneg, negative,
  text, list, mapping, nil, item, Fields, end, field, Key, name, other_key, truthy, lookup, get_or,
  get_null, flag, is_named, mapping_or_empty, names_in,
}
use local_engine_router.Config.Numbers.{Numbers, parse_fraction}

-- MODEL_CAPABILITIES
abbrev pub capabilities_known : List String
capabilities_known =
    "general" ∷ "coding" ∷ "code_editing" ∷ "math" ∷ "reasoning" ∷ "tool_use" ∷ "writing"
    ∷ "summarization" ∷ "long_context" ∷ "json_structured" ∷ "embedding" ∷ "vision" ∷ []

-- An integer from 1 to 5, or none
abbrev pub tier_in : Yaml → Checked (Option ℕ)
tier_in null = good none
tier_in (int (nonneg n)) = do guard (leb 1 n && leb n 5); good (some n)
tier_in v = refused

-- A list of known capabilities
abbrev pub capabilities_of : Items → Checked (List String)
capabilities_of nil = good []
capabilities_of (item (text c) vs) = do
  rest ← capabilities_of vs
  guard (elem c capabilities_known)
  good (c ∷ rest)
capabilities_of (item v vs) = refused

abbrev pub capabilities_in : Yaml → Checked (List String)
capabilities_in (list vs) = capabilities_of vs
capabilities_in v = if truthy v then refused else good []

-- isinstance(v, str) and v.strip()
abbrev pub named_text : Option Yaml → Checked String
named_text (some (text s)) = do guard (is_text (strip s)); good s
named_text v = refused

-- ENGINE_TYPES
pub data EngineType : Type 0 where
  ds4 ollama generic_process api_swap : EngineType

abbrev pub type_in : Yaml → Checked EngineType
type_in (text s) =
    if s == "ds4"
    then good ds4
    else if s == "ollama"
    then good ollama
    else if s == "generic_process"
    then good generic_process
    else if s == "api_swap"
    then good api_swap
    else refused
type_in v = refused

pub record EngineSpec : Type 0 where
  pub key : Key
  pub engine_type : EngineType
  pub enabled : Bool

-- val in (None, "", [], {})
abbrev pub is_missing : Yaml → Bool
is_missing null = true
is_missing (text s) = not (is_text s)
is_missing (list nil) = true
is_missing (mapping end) = true
is_missing v = false

abbrev pub key_seen : Key → List Key → Bool
key_seen (name k) seen = any_of (λ j. is_named j k) seen
key_seen other_key seen = false

abbrev pub mapping_in : Yaml → Checked Fields
mapping_in (mapping fs) = good fs
mapping_in v = refused

module _ (N : Numbers) where
  open N use {F, to_float, to_int, le, lt, hundredths}

  pub record Metadata : Type 0 where
    pub quality_tier : Option ℕ
    pub speed_tier : Option ℕ
    pub memory_gb : Option F
    pub capabilities : List String
    pub strengths : Dict F
    pub smart_enabled : Bool

  -- the memory of a model; NaN is not refused
  abbrev pub memory_in : Yaml → Checked (Option F)
  memory_in null = good none
  memory_in v = do m ← to_float v; guard (not (le m (hundredths 0))); good (some m)

  abbrev pub strengths_of : Fields → Checked (Dict F)
  strengths_of end = good []
  strengths_of (field (name cap) v fs) = do
    score ← parse_fraction N v
    rest ← strengths_of fs
    guard (elem cap capabilities_known)
    good ((cap, score) ∷ rest)
  strengths_of (field other_key v fs) = refused

  -- _parse_model_smart_metadata
  unfoldable pub parse_model_smart_metadata : Fields → Checked Metadata
  parse_model_smart_metadata m = do
    quality ← tier_in (get_null m "quality_tier")
    speed ← tier_in (get_null m "speed_tier")
    memory ← memory_in (get_null m "memory_gb")
    caps ← capabilities_in (get_null m "capabilities")
    raw ← mapping_or_empty (get_null m "strengths")
    scores ← strengths_of raw
    good (record {
      quality_tier = quality;
      speed_tier = speed;
      memory_gb = memory;
      capabilities = caps;
      strengths = scores;
      smart_enabled = flag m "smart_enabled" true;
    })

  pub record Model : Type 0 where
    pub id : String
    pub engine : String
    pub display_name : Yaml
    pub context_length : Integer
    pub thinking_floor : Option ℕ
    pub metadata : Metadata

  -- an integer of at least 1
  floor_from : Integer → Checked (Option ℕ)
  floor_from (nonneg n) = do guard (leb 1 n); good (some n)
  floor_from (negative n) = refused

  floor_in : Yaml → Checked (Option ℕ)
  unfolding floor_from
  floor_in null = good none
  floor_in v = do n ← to_int v; floor_from n

  -- One entry of `models`
  unfoldable pub parse_model : Yaml → Checked Model
  unfolding parse_model_smart_metadata floor_in
  parse_model v = do
    m ← mapping_in v
    id_text ← named_text (lookup m "id")
    engine_key ← named_text (lookup m "engine")
    floor ← floor_in (get_null m "disable_thinking_below_max_tokens")
    length ← to_int (get_or m "context_length" (int (nonneg 131072)))
    meta ← parse_model_smart_metadata m
    good (record {
      id = id_text;
      engine = engine_key;
      display_name = get_or m "display_name" (text id_text);
      context_length = length;
      thinking_floor = floor;
      metadata = meta;
    })

  abbrev pub model_list : Items → Checked (List Model)
  model_list nil = good []
  model_list (item v vs) = do m ← parse_model v; rest ← model_list vs; good (m ∷ rest)

  abbrev pub parse_models : Yaml → Checked (List Model)
  parse_models null = good []
  parse_models (list vs) = model_list vs
  parse_models v = refused

  -- float(params.tags_cache_ttl_s) of at least 0; NaN is not refused
  abbrev pub ttl_ok : Option Yaml → Checked (Unit {0})
  ttl_ok none = good tt
  ttl_ok (some v) = do ttl ← to_float v; guard (not (lt ttl (hundredths 0)))

  -- _validate_generic_process_fields
  unfoldable pub validate_generic_process_fields : Fields → Checked (Unit {0})
  validate_generic_process_fields body = do
    ttl_ok (lookup body "tags_cache_ttl_s")
    served ← names_in (get_or body "served_models" (list nil))
    good tt

  -- _validate_engine_params
  unfoldable pub validate_engine_params : EngineType → Fields → Checked (Unit {0})
  unfolding validate_generic_process_fields
  validate_engine_params generic_process body = do
    guard (not (is_missing (get_null body "base_url")))
    guard (not (is_missing (get_null body "start_cmd")))
    validate_generic_process_fields body
  validate_engine_params api_swap body = guard (not (is_missing (get_null body "base_url")))
  validate_engine_params ds4 body = good tt
  validate_engine_params ollama body =
      guard (truthy (get_or body "base_url" (text "http://127.0.0.1:11434")))

  -- The loop over the table; `seen` are the keys before
  unfoldable pub engines_of : List Key → Fields → Checked (List EngineSpec)
  unfolding validate_engine_params
  engines_of seen end = good []
  engines_of seen (field k v fs) = do
    guard (not (key_seen k seen))
    body ← mapping_in v
    t ← type_in (get_null body "type")
    validate_engine_params t body
    rest ← engines_of (k ∷ seen) fs
    good (record { key = k; engine_type = t; enabled = flag body "enabled" true } ∷ rest)

  -- _build_engines_section
  unfoldable pub build_engines_section : Yaml → Checked (List EngineSpec)
  unfolding engines_of
  build_engines_section v = do raw ← mapping_or_empty v; engines_of [] raw
