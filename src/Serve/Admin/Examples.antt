-- ===== src/Serve/Admin/Examples.antt =====
-- The endpoints of router/app.py besides the POST handlers, run on a small configuration.
use local_engine_router.Common.{◌≡◌, refl, none, some, true, false, [], ◌∷◌, if◌then◌else◌, ◌==◌}
use local_engine_router.Json.{null, str, obj, field, end}
use local_engine_router.Catalog.{Entry, live}
use local_engine_router.Serve.Admin.{
  DryRun, rejects, calls, admin_swap, admin_smart_mode, admin_smart_resolve, read_json_object,
  dry_run_of,
}
use local_engine_router.Serve.Admin.DryRuns.{admin_smart_resolve-demand}
use local_engine_router.Serve.Bodies.{Raw, no_bytes, json_value}
use local_engine_router.Serve.Listed.{Inventory, list_models}
use local_engine_router.Serve.Listed.Owners.{owner, list_models-owner}
use local_engine_router.Serve.Passthrough.{
  Upstream, answers, forwards, head_segment, passthrough, api_catchall, api_catchall-refuses, chunk,
  pull_answers, pull_gen,
}
use local_engine_router.Smart.Classify.{demand_of}
use local_engine_router.Smart.Request.Examples.{reading, share}

-- {"model": "qwen", "engine": null}
abbrev swap_raw : Raw
swap_raw = json_value (obj (field "model" (str "qwen") (field "engine" null end)))

swaps : admin_swap swap_raw ≡ calls (record { model_id = some "qwen"; engine_key = none })
unfolding admin_swap
swaps = refl

swaps_nothing : admin_swap (json_value (obj end)) ≡ rejects 400
unfolding admin_swap
swaps_nothing = refl

sets_manual :
    admin_smart_mode "smart" (json_value (obj (field "mode" (str "manual") end)))
    ≡ (calls "manual", "manual")
unfolding admin_smart_mode
sets_manual = refl

keeps_smart : admin_smart_mode "smart" no_bytes ≡ (rejects 400, "smart")
unfolding admin_smart_mode
keeps_smart = refl

-- {"endpoint": "/v1/embeddings", "prompt": "hi"}
abbrev dry_raw : Raw
dry_raw = json_value (obj (field "endpoint" (str "/v1/embeddings") (field "prompt" (str "hi") end)))

abbrev dry_run : DryRun
dry_run = record {
  model = "auto";
  endpoint = "/v1/embeddings";
  synthetic = ("prompt", str "hi") ∷ ("model", str "auto") ∷ [];
}

admin_smart_resolve-demand_example :
    demand_of share reading "/v1/embeddings" dry_run.synthetic
    ≡ demand_of share reading "/v1/embeddings"
        (("endpoint", str "/v1/embeddings") ∷ ("prompt", str "hi") ∷ [])
unfolding admin_smart_resolve read_json_object dry_run_of
admin_smart_resolve-demand_example =
    admin_smart_resolve-demand share reading (λ v. "") ("auto" ∷ []) dry_raw
      (("endpoint", str "/v1/embeddings") ∷ ("prompt", str "hi") ∷ []) dry_run "/v1/embeddings" refl
      refl

abbrev qwen_entry : Entry
qwen_entry = record {
  id = "qwen";
  engine = "ollama";
  source = live;
  first_seen = 0;
  last_seen = 0;
  last_live_status = "live";
  resolved_model = none;
  stale = false;
  collisions = [];
}

abbrev inventory : Inventory
inventory = record {
  specs =
      record { id = "llama"; engine = "vllm"; display_name = "Llama"; context_length = 8192 } ∷ [];
  discover_enabled = true;
  entries = qwen_entry ∷ record qwen_entry { id = "llama" } ∷ [];
  discovered = ("phi", "tgi") ∷ [];
  live_tags = none;
}

list_models-owner_example : owner "phi" (list_models inventory) ≡ some "tgi"
list_models-owner_example = list_models-owner inventory "phi"

abbrev ollama : Upstream
ollama = record { is_ollama = true; base_url = "http://h:1/" }

passes :
    api_catchall (λ s. s) false (ollama ∷ []) "show/x" "v=1" ≡ forwards "http://h:1/api/show/x?v=1"
unfolding api_catchall head_segment passthrough
passes = refl

api_catchall-refuses_example :
    (api_catchall (λ s. if s == "Delete" then "delete" else s) false (ollama ∷ []) "Delete" ""
      ≡ answers 403)
    × (api_catchall (λ s. if s == "Delete" then "delete" else s) false (ollama ∷ []) "Delete/x" ""
        ≡ answers 403)
api_catchall-refuses_example =
    api_catchall-refuses (λ s. if s == "Delete" then "delete" else s) (ollama ∷ []) "Delete" "x" ""
      refl refl

pulls : pull_gen (pull_answers 200 (("a", false) ∷ ("b", true) ∷ []) false) ≡ chunk "a" ∷ []
unfolding pull_gen
pulls = refl
