-- ===== src/Identity.antt =====
-- router/model_identity.py: what a model id says of the model. `lower` is str.lower; the family patterns
-- and the size pattern, with the numbers that it reads, are arguments. Confidences are in thousandths.
pub mod Tokens
pub mod Quant
mod Examples
use Prim.Native.String
use Prim.Native.String.{◌++◌}
use local_engine_router.Common.{
  ℕ, String, Option, none, some, Bool, true, false, List, [], ◌∷◌, Dict, get, elem, any_of, keep_if,
  if◌then◌else◌, ◌&&◌, ◌||◌, not, ◌==◌, first_some,
}
use local_engine_router.Json.{is_text, strip}
use local_engine_router.Identity.Tokens.{
  strip_org, strip_extension, normalize, tokenize, is_gguf_quant, is_version,
}

-- _QUANT_TOKENS
abbrev pub quant_tokens : List String
quant_tokens =
    "fp16" ∷ "f16" ∷ "bf16" ∷ "fp8" ∷ "f32" ∷ "fp32" ∷ "fp4" ∷ "int4" ∷ "int8" ∷ "4bit" ∷ "8bit"
    ∷ "2bit" ∷ "3bit" ∷ "6bit" ∷ "awq" ∷ "gptq" ∷ "exl2" ∷ "exl3" ∷ "nf4" ∷ "bnb" ∷ "marlin"
    ∷ "w4a16" ∷ "w8a8" ∷ "w8a16" ∷ "mxfp4" ∷ []

-- _FORMAT_TOKENS, each of which is its own format
abbrev pub format_tokens : List String
format_tokens = "gguf" ∷ "awq" ∷ "gptq" ∷ "exl2" ∷ "exl3" ∷ "mlx" ∷ "safetensors" ∷ "onnx" ∷ []

abbrev pub instruct_tokens : List String
instruct_tokens = "instruct" ∷ "it" ∷ "chat" ∷ "chatml" ∷ []

abbrev pub base_tokens : List String
base_tokens = "base" ∷ "text" ∷ "pt" ∷ []

abbrev pub code_tokens : List String
code_tokens = "coder" ∷ "code" ∷ "codestral" ∷ "starcoder" ∷ "codellama" ∷ []

-- _VISION_TOKENS - {"v"}
abbrev pub vision_tokens : List String
vision_tokens = "vl" ∷ "vision" ∷ "llava" ∷ "multimodal" ∷ []

abbrev pub abliterated_tokens : List String
abliterated_tokens = "abliterated" ∷ "abliterate" ∷ "uncensored" ∷ []

abbrev pub fine_tune_tokens : List String
fine_tune_tokens =
    "hermes" ∷ "openhermes" ∷ "dolphin" ∷ "wizardlm" ∷ "wizard" ∷ "vicuna" ∷ "alpaca" ∷ "orca"
    ∷ "airoboros" ∷ "magnum" ∷ "smaug" ∷ "tulu" ∷ "zephyr" ∷ "starling" ∷ "openchat" ∷ "capybara"
    ∷ "bagel" ∷ "mythomax" ∷ "goliath" ∷ "beagle" ∷ "neuralchat" ∷ "nemotron" ∷ "openorca"
    ∷ "samantha" ∷ "silicon" ∷ "einstein" ∷ "calme" ∷ "athene" ∷ []

-- next((t for t in tokens if test(t)), None)
unfoldable pub first_token : (String → Bool) → List String → Option String
first_token test [] = none
first_token test (t ∷ ts) = if test t then some t else first_token test ts

-- toks & known
abbrev pub meets : List String → List String → Bool
meets known ts = any_of (λ t. elem t known) ts

is_quant : String → Bool
is_quant t = is_gguf_quant t || elem t quant_tokens

format_of_quant : Option String → Option String
format_of_quant none = none
format_of_quant (some q) =
    if is_gguf_quant q
    then some "gguf"
    else if elem q ("awq" ∷ "gptq" ∷ "exl2" ∷ "exl3" ∷ [])
    then some q
    else none

-- _parse_quant_and_format
unfoldable pub parse_quant_and_format : List String → Option String × Option String
unfolding first_token is_quant format_of_quant
parse_quant_and_format ts =
    let quant : Option String = first_token is_quant ts in
    (quant, first_some (first_token (λ t. elem t format_tokens) ts) (format_of_quant quant))

-- _parse_variant; `looks_vision` is the vision pattern
unfoldable pub parse_variant : (String → Bool) → List String → String → String
parse_variant looks_vision ts name =
    if meets vision_tokens ts || looks_vision name
    then "vision"
    else if meets code_tokens ts
    then "code"
    else if meets instruct_tokens ts
    then "instruct"
    else if meets base_tokens ts
    then "base"
    else ""

-- "-".join(p for p in parts if p)
unfoldable pub slug : List String → String
slug [] = ""
slug (p ∷ ps) =
    let rest = slug ps in
    if is_text p then (if is_text rest then p ++ ("-" ++ rest) else p) else rest

abbrev pub or_empty : Option String → String
or_empty none = ""
or_empty (some s) = s

abbrev has {ℓ} : {A : Type ℓ} → Option A → Bool
has none = false
has (some x) = true

-- What is compiled from patterns, and numbers: the ordered family patterns with their slugs, the size of
-- a token that is one, and its text in a slug.
pub record Patterns {ℓ} (F : Type ℓ) : Type ℓ where
  pub lower : String → String
  pub families : List ((String → Bool) × String)
  pub size_of : String → Option F
  pub size_token : F → String
  pub looks_vision : String → Bool
  pub looks_embedding : String → Bool

-- ModelIdentity
pub record ModelIdentity {ℓ} (F : Type ℓ) : Type ℓ where
  pub raw : String
  pub canonical : String
  pub family : Option String
  pub size_b : Option F
  pub variant : String
  pub quant : Option String
  pub fmt : Option String
  pub version : Option String
  pub fine_tune : Option String
  pub abliterated : Bool
  pub base_canonical : Option String
  pub confidence : ℕ
  pub tokens : List String

-- _detect_family
unfoldable pub detect_family : List ((String → Bool) × String) → String → Option String
detect_family [] name = none
detect_family ((finds, family) ∷ ps) name =
    if finds name then some family else detect_family ps name

module _ {ℓ} {F : Type ℓ} (ps : Patterns F) where
  -- _parse_size
  unfoldable pub parse_size : List String → Option F
  parse_size [] = none
  parse_size (t ∷ ts) = elim (ps.size_of t) [ some b ↦ some b | none ↦ parse_size ts ]

  abbrev size_text : Option F → String
  size_text none = ""
  size_text (some b) = ps.size_token b

  -- The variant, with an unmarked fine-tune as instruct.
  unfoldable pub variant_of : List String → String → Option String → String
  unfolding parse_variant
  variant_of ts norm fine_tune =
      let variant : String = parse_variant ps.looks_vision ts norm in
      if has fine_tune && not (is_text variant) then "instruct" else variant

  -- family-size-variant
  unfoldable pub base_slug : String → List String → String → String
  unfolding parse_size variant_of first_token slug
  base_slug family ts norm = slug (
      family
      ∷ size_text (parse_size ts)
      ∷ variant_of ts norm (first_token (λ t. elem t fine_tune_tokens) ts)
      ∷ [])

  -- The canonical id of a known family.
  unfoldable pub family_slug : String → List String → String → String
  family_slug family ts norm =
      let fine_tune : Option String = first_token (λ t. elem t fine_tune_tokens) ts in
      slug (
        family
        ∷ size_text (parse_size ts)
        ∷ variant_of ts norm fine_tune
        ∷ or_empty fine_tune
        ∷ (if meets abliterated_tokens ts then "abliterated" else "")
        ∷ (if has fine_tune then "" else or_empty (first_token is_version ts))
        ∷ [])

  -- The name without quant, format and noise tokens.
  unfoldable pub unknown_slug : List String → String → String → String
  unfolding slug
  unknown_slug ts norm raw =
      let kept : String = slug (
        keep_if
          (λ t.
            not (elem t format_tokens || (elem t quant_tokens || t == "latest"))
            && not (is_gguf_quant t))
          ts) in
      if is_text kept then kept else if is_text norm then norm else ps.lower raw

  known_confidence : Bool → Bool → ℕ
  known_confidence sized tuned =
      if sized then (if tuned then 900 else 1000) else if tuned then 675 else 750

  with_family : Option String → ModelIdentity F → String → ModelIdentity F
  unfolding known_confidence
  with_family none i norm = record i {
    canonical = unknown_slug i.tokens norm i.raw;
    confidence = 350;
  }
  with_family (some family) i norm = record i {
    canonical = family_slug family i.tokens norm;
    family = some family;
    base_canonical = some (base_slug family i.tokens norm);
    confidence = known_confidence (has i.size_b) (has i.fine_tune || i.abliterated);
  }

  -- The name without its organisation and its extension, normalized.
  abbrev pub norm_of : String → String
  norm_of model_id =
      normalize ps.lower (strip_extension ps.lower (strip_org ps.lower (strip model_id)).1).0

  -- The format that a file's extension or its publisher marks.
  marked_format : String → Option String
  marked_format model_id =
      let (org, given) = strip_org ps.lower (strip model_id) in
      first_some (strip_extension ps.lower given).1
        (if or_empty org == "mlx-community" then some "mlx" else none)

  -- What does not depend on the family.
  parsed : String → ModelIdentity F
  unfolding marked_format
  parsed model_id =
      let ts : List String = tokenize (norm_of model_id) in
      let (quant, fmt) = parse_quant_and_format ts in
      let fine_tune : Option String = first_token (λ t. elem t fine_tune_tokens) ts in
      record {
        raw = model_id;
        canonical = "";
        family = none;
        size_b = parse_size ts;
        variant = variant_of ts (norm_of model_id) fine_tune;
        quant = quant;
        fmt = first_some fmt (marked_format model_id);
        version = first_token is_version ts;
        fine_tune = fine_tune;
        abliterated = meets abliterated_tokens ts;
        base_canonical = none;
        confidence = 0;
        tokens = ts;
      }

  -- identify
  unfoldable pub identify : String → ModelIdentity F
  unfolding parsed with_family
  identify model_id =
      with_family (detect_family ps.families (norm_of model_id)) (parsed model_id)
        (norm_of model_id)

  -- The properties of ModelIdentity
  unfoldable pub is_embedding : ModelIdentity F → Bool
  is_embedding i = ps.looks_embedding i.canonical

  unfoldable pub is_vision : ModelIdentity F → Bool
  is_vision i = ps.looks_vision i.canonical || i.variant == "vision"
