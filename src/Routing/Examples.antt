-- ===== src/Routing/Examples.antt =====
-- A table of two engines, run through router/engines.py, `engine_for`, and router/config.py.
use local_engine_router.Common.{◌≡◌, refl, arith, some, true, [], ◌∷◌, eq_iff, inr}
use local_engine_router.Routing.{
  Table, generic_process, api_swap, ok, build_model_index, resolve_model_id, engine_for,
}
use local_engine_router.Routing.Aliases.{validate_aliases, engine_for-resolve_model_id}
use local_engine_router.Routing.Explain.{IsCoherent}

-- "fast" stands for "llama", which engine "vllm" serves; "ollama" answers the tag "qwen", which the
-- catalog also holds.
abbrev two_engines : Table
two_engines = record {
  models = record { id = "llama"; engine = "vllm" } ∷ [];
  aliases = ("fast", "llama") ∷ ("small", "qwen") ∷ [];
  discover_enabled = true;
  engines = ("vllm", generic_process) ∷ ("ollama", api_swap) ∷ [];
  owners = ("llama", "vllm") ∷ ("qwen", "ollama") ∷ ("small", "ollama") ∷ [];
  discovered = ("qwen", "ollama") ∷ [];
  tags = λ k. "qwen" ∷ [];
}

acquire_resolves_example :
    engine_for two_engines (some (resolve_model_id two_engines.aliases "small"))
    ≡ engine_for two_engines (some "small")
unfolding validate_aliases
acquire_resolves_example = engine_for-resolve_model_id two_engines "small" refl

routes_small : engine_for two_engines (some "small") ≡ ok "ollama"
unfolding engine_for
routes_small = refl

small-IsCoherent : IsCoherent two_engines "small"
unfolding build_model_index resolve_model_id
small-IsCoherent = record {
  owners_known = λ x k e. ground (
    arith,
    eq_iff "llama" x,
    eq_iff "qwen" x,
    eq_iff "small" x,
    eq_iff "vllm" k,
    eq_iff "ollama" k,
  );
  alias_owner = inr refl;
  discovered_owned = λ e. absurd (ground arith);
  static_known = λ spec e. absurd (ground arith);
}
