-- ===== src/Catalog/Examples.antt =====
-- A catalog of one static model, one live model and an alias, run through router/catalog.py,
-- `ModelCatalog.rebuild`.
use local_engine_router.Common.{
  get, some, none, refl, ◌≡◌, elem, String, List, [], ◌∷◌, Dict, All, true,
}
use local_engine_router.Routing.{
  ModelSpec, Table, generic_process, api_swap, ok, build_model_index, engine_for, explain_model,
}
use local_engine_router.Catalog.{
  Catalog, Hints, Entry, candidate, priority, static_entry, merge_all, rebuild, live,
}
use local_engine_router.Catalog.Seen.{set_seen_models, seen_models}
use local_engine_router.Catalog.Routed.{owners_of, engine_for-rebuild}
use local_engine_router.Catalog.Merge.{IsUsable, Holds, merge_all-worth}
use local_engine_router.Catalog.Coherence.{IsPlain, IsStatic, rebuild-IsStatic}

abbrev llama : ModelSpec
llama = record { id = "llama"; engine = "vllm" }

abbrev order : List Hints
order =
    record { key = "vllm"; discover_models = true; served = []; start_ids = "llama" ∷ [] }
    ∷ record { key = "ollama"; discover_models = true; served = "qwen" ∷ []; start_ids = [] }
    ∷ []

abbrev two_engines : Catalog
two_engines = record {
  models = llama ∷ [];
  aliases = ("fast", "llama") ∷ [];
  discover_enabled = true;
  engines = "vllm" ∷ "ollama" ∷ [];
  hints = order;
  entries = [];
  persisted_entries = [];
}

-- "ollama" answers "llama" and "qwen".
abbrev answered : Dict (List String)
answered = ("ollama", "llama" ∷ "qwen" ∷ []) ∷ []

rebuild-IsStatic_example :
    All
      (λ spec. IsPlain two_engines spec → IsStatic (rebuild two_engines answered 7).entries spec.id)
      (llama ∷ [])
rebuild-IsStatic_example = rebuild-IsStatic two_engines answered 7

llama-IsPlain : IsPlain two_engines llama
llama-IsPlain = (refl, refl, refl)

-- The static "llama" and the live one.
abbrev rivals : List Entry
rivals = static_entry 7 llama ∷ candidate [] "llama" "ollama" live 7 "live" ∷ []

rivals_example :
    All
      (λ e.
        IsUsable two_engines.engines e
        → Holds (merge_all two_engines.engines order [] rivals) e.id (priority e.source))
      rivals
rivals_example = merge_all-worth two_engines.engines order rivals []

-- "ollama" was seen with "old", and is now seen with "new".
abbrev once_seen : Catalog
once_seen = record two_engines {
  persisted_entries = ("old", candidate [] "old" "ollama" live 3 "live") ∷ [];
}

both_seen :
    seen_models (set_seen_models once_seen "ollama" ("new" ∷ []) 9) "ollama"
    ≡ "old" ∷ "new" ∷ "old" ∷ "new" ∷ []
unfolding seen_models set_seen_models rebuild candidate static_entry
both_seen = refl

old_id : (candidate [] "old" "ollama" live 3 "live").id ≡ "old"
unfolding candidate
old_id = refl

old_engine : elem (candidate [] "old" "ollama" live 3 "live").engine ("vllm" ∷ "ollama" ∷ []) ≡ true
unfolding candidate
old_engine = refl

abbrev routed : Table
routed = record {
  models = llama ∷ [];
  aliases = ("fast", "llama") ∷ [];
  discover_enabled = true;
  engines = ("vllm", generic_process) ∷ ("ollama", api_swap) ∷ [];
  owners = owners_of (rebuild two_engines answered 7).entries;
  discovered = [];
  tags = λ k. [];
}

abbrev qwen_entry : Entry
qwen_entry = elim (get (rebuild two_engines answered 7).entries "qwen") [
  | none ↦ static_entry 7 llama
  | some e ↦ e
]

qwen_found : get (rebuild two_engines answered 7).entries "qwen" ≡ some qwen_entry
unfolding rebuild candidate static_entry
qwen_found = refl

engine_for-rebuild_example :
    (engine_for routed (some "qwen") ≡ ok qwen_entry.engine)
    × (explain_model routed (some "qwen") ≡ some (some qwen_entry.engine))
unfolding build_model_index
engine_for-rebuild_example =
    engine_for-rebuild routed two_engines answered 7 "qwen" qwen_entry refl refl refl refl refl refl
      qwen_found

routed_to : qwen_entry.engine ≡ "ollama"
unfolding rebuild candidate static_entry
routed_to = refl
