-- ===== src/Identity/Examples.antt =====
-- Ids of two families, run through router/model_identity.py. Sizes are in hundreds of millions.
use local_engine_router.Common.{
  ℕ, ◌≡◌, refl, String, none, some, Bool, true, false, [], ◌∷◌, if◌then◌else◌, ◌==◌,
}
use local_engine_router.Json.{after_prefix}
use local_engine_router.Identity.{
  Patterns, identify, family_slug, parse_size, variant_of, first_token, slug, detect_family,
  parse_quant_and_format,
}
use local_engine_router.Identity.Quant.{identify-unread, quant_quality_penalty}
use local_engine_router.Identity.Tokens.{
  tokenize, strip_org, strip_extension, normalize, is_gguf_quant, is_version,
}

abbrev begins : String → String → Bool
begins p s = elim (after_prefix p s) [ none ↦ false | some r ↦ true ]

abbrev patterns : Patterns ℕ
patterns = record {
  lower = λ s.
      if s == "Qwen3-8B-Q4_K_M.gguf"
      then "qwen3-8b-q4_k_m.gguf"
      else if s == "Qwen3-8B-Q4_K_M"
      then "qwen3-8b-q4_k_m"
      else s;
  families = (begins "qwen3", "qwen3") ∷ (begins "qwen", "qwen") ∷ [];
  size_of = λ t. if t == "8b" then some 80 else none;
  size_token = λ b. "8b";
  looks_vision = begins "llava";
  looks_embedding = begins "bge";
}

cut : tokenize "qwen3-8b-q4-k-m" ≡ "qwen3" ∷ "8b" ∷ "q4_k_m" ∷ []
unfolding tokenize
cut = refl

repacked : (identify patterns "org/Qwen3-8B-Q4_K_M.gguf").canonical ≡ "qwen3-8b"
unfolding identify tokenize strip_org strip_extension normalize detect_family family_slug parse_size
    variant_of first_token slug is_version
repacked = refl

quant_found : (identify patterns "org/Qwen3-8B-Q4_K_M.gguf").quant ≡ some "q4_k_m"
unfolding identify tokenize strip_org strip_extension normalize detect_family parse_quant_and_format
    is_gguf_quant
quant_found = refl

penalised : quant_quality_penalty (λ s. s) (some "q4_k_m") ≡ 4
unfolding quant_quality_penalty
penalised = refl

-- A quantisation does not change which model it is.
identify-unread_example :
    ((identify patterns "qwen3-q4_k_m:8b").canonical ≡ (identify patterns "qwen3:8b").canonical)
    × ((identify patterns "qwen3-q4_k_m:8b").base_canonical
        ≡ (identify patterns "qwen3:8b").base_canonical)
unfolding tokenize strip_org strip_extension normalize detect_family is_version
identify-unread_example =
    identify-unread patterns "qwen3-q4_k_m:8b" "qwen3:8b" "qwen3" "q4_k_m" ("qwen3" ∷ [])
      ("8b" ∷ []) refl refl refl refl refl
      (record {
        no_size = refl;
        no_version = refl;
        no_vision = refl;
        no_code = refl;
        no_instruct = refl;
        no_base = refl;
        no_mark = refl;
        no_fine_tune = refl;
      })

-- The word "embedding" is not read, so a model for embeddings of a family that has others has the
-- canonical id of one of these.
embedding_unread : (identify patterns "qwen3-embedding:8b").canonical ≡ "qwen3-8b"
unfolding identify tokenize strip_org strip_extension normalize detect_family family_slug parse_size
    variant_of first_token slug is_version
embedding_unread = refl
