-- ===== src/Smart/Request/Examples.antt =====
-- A chat with tools and code, a request for embeddings, and a model that is too small for the chat, run
-- through router/smart.py in hundredths.
use local_engine_router.Common.{
  map, keep_if, ltb, ℕ, ◌*◌, ◌/◌, ◌≡◌, refl, none, some, true, false, [], ◌∷◌, Dict, ◌==◌,
  if◌then◌else◌,
}
use local_engine_router.Json.{Json, null, num, str, arr, obj, nil, item, end, field}
use local_engine_router.Manager.Examples.{manager_a}
use local_engine_router.Smart.Candidates.{enumerate_candidates, is_eligible}
use local_engine_router.Smart.Classify.{
  Reading, sum_scores, demand_of, classify_request, points_of, structure_signs, text_signs,
  size_signs, seen_points, budget_tokens, is_embedding_path,
}
use local_engine_router.Smart.Classify.Totals.{expected_scores, classify_request-expected}
use local_engine_router.Smart.Examples.{hundredths, sources, settings, timeouts}
use local_engine_router.Smart.Gather.{gather_text, has_image_parts}
use local_engine_router.Smart.Pick.{Scored, is_same}
use local_engine_router.Smart.Request.{
  Surroundings, Known, PickConfig, maybe_pick, is_known_exact, eligibility_of, decide_request,
}
use local_engine_router.Smart.Request.Suits.{Suits, maybe_pick-Suits}
use local_engine_router.Smart.Score.{Spec, Profile, ScoreConfig}

abbrev pub reading : Reading
reading = record {
  stack_trace = λ s. false;
  diff = λ s. false;
  file_path = λ s. false;
  code_keyword = λ s. false;
  edit_verb = λ s. false;
  math = λ s. s == "hi\n2 + 2";
  reasoning = λ s. false;
  summarize = λ s. false;
  writing = λ s. false;
  json_ask = λ s. false;
  is_small = λ s. s == "100";
  tokens_of = λ s. if s == "100" then some 100 else some 40000;
}

-- {"system": "hi", "messages": [{"content": "2 + 2"}], "tools": [null], "max_tokens": 100}
abbrev chat : Dict Json
chat =
    ("model", str "auto")
    ∷ ("system", str "hi")
    ∷ ("messages", arr (item (obj (field "content" (str "2 + 2") end)) nil))
    ∷ ("tools", arr (item null nil))
    ∷ ("max_tokens", num false "100")
    ∷ []

abbrev pub share : ℕ → ℕ → ℕ
share v total = (100 * v) / total

gathered : gather_text chat ≡ some ("hi\n2 + 2", 1)
unfolding gather_text
gathered = refl

chat_job :
    classify_request share reading "/v1/chat/completions" chat
    ≡ some (
        ("general", 13)
        ∷ ("math", 19)
        ∷ ("reasoning", 5)
        ∷ ("tool_use", 34)
        ∷ ("json_structured", 6)
        ∷ ("speed", 13)
        ∷ ("reliability", 6)
        ∷ [])
unfolding classify_request points_of structure_signs text_signs size_signs seen_points
chat_job = refl

embedding_job :
    classify_request share reading "/v1/embeddings/" chat ≡ some (("embedding", 100) ∷ [])
unfolding classify_request
embedding_job = refl

abbrev empty_spec : Spec hundredths
empty_spec = record {
  strengths = ("general", 90) ∷ ("math", 80) ∷ [];
  quality_tier = 0;
  speed_tier = 3;
  smart_enabled = true;
  context_length = 100;
  capabilities = [];
}

abbrev unknown_model : Profile hundredths
unknown_model = record {
  spec = none;
  calibration_scores = [];
  tokens_per_s = none;
  priors = ("math", (70, 50)) ∷ [];
  match_confidence = 60;
  is_embedding = false;
  is_vision = false;
  size_b = none;
}

abbrev small_window : Profile hundredths
small_window = record unknown_model { spec = some empty_spec }

abbrev score_config : ScoreConfig hundredths
score_config = record {
  policy = "fast";
  policies = [];
  weights = ("speed", 50) ∷ [];
  benchmarks_enabled = true;
  swap_cost_horizon_s = 12000;
  failure_threshold = 3;
}

abbrev around : Surroundings hundredths
around = record {
  profile = λ m. if m == "llama" then small_window else unknown_model;
  config = score_config;
  settings = settings;
  manager = record manager_a { engines = "vllm" ∷ "ollama" ∷ []; active_engine = some "ollama" };
  engines = "vllm" ∷ "ollama" ∷ [];
  timeouts = timeouts;
  settle_timeout_s = 30;
  health = record { health = []; dirty = false };
  now = 0;
}

abbrev known : Known
known = record {
  index = "llama" ∷ [];
  aliases = "fast" ∷ [];
  discovered = [];
  owners = "fast" ∷ [];
  tags = ("fast" ∷ "qwen" ∷ []) ∷ [];
}

abbrev pick_config : PickConfig
pick_config = record {
  smart_mode = true;
  aliases = "auto" ∷ [];
  override_exact_model_ids = false;
  catch_cloud_models = true;
  catch_unknown_models = false;
  clouds = [];
}

-- "llama" has more strengths and a window of 100 tokens; the chat needs 101.
abbrev qwen : Scored hundredths
qwen = record {
  model = "qwen";
  engine = "ollama";
  total = 66;
  swap_cost_s = 0;
  resident = true;
  excluded = none;
  match_conf = 60;
}

picks_qwen :
    maybe_pick hundredths share reading pick_config known around sources "auto"
      "/v1/chat/completions" chat
    ≡ some (record { pick = qwen; confidence = 78; fallbacks = [] })
unfolding maybe_pick is_eligible eligibility_of decide_request demand_of classify_request points_of
    structure_signs text_signs size_signs seen_points budget_tokens has_image_parts
    enumerate_candidates is_same
picks_qwen = refl

classify_request-expected_example :
    classify_request share reading "/v1/chat/completions" chat
    ≡ some (
        map
          (λ s. (s.0, share s.1 (sum_scores (expected_scores reading chat ("hi\n2 + 2", 1)))))
          (keep_if (λ s. ltb 0 s.1) (expected_scores reading chat ("hi\n2 + 2", 1))))
unfolding is_embedding_path
classify_request-expected_example =
    classify_request-expected share reading "/v1/chat/completions" chat ("hi\n2 + 2", 1) refl
      gathered

maybe_pick-Suits_example :
    Suits hundredths around "/v1/chat/completions"
      (demand_of share reading "/v1/chat/completions" chat)
      (enumerate_candidates sources)
      qwen
    × (pick_config.smart_mode ≡ true)
    × (is_known_exact known "auto" ≡ true → pick_config.override_exact_model_ids ≡ true)
maybe_pick-Suits_example =
    maybe_pick-Suits hundredths share reading pick_config known around sources "auto"
      "/v1/chat/completions" chat (record { pick = qwen; confidence = 78; fallbacks = [] })
      picks_qwen

-- A calibration and a tier that do not count.
abbrev measured : Profile hundredths
measured = record small_window {
  calibration_scores = ("math", 10) ∷ [];
  spec = some (record empty_spec { quality_tier = 5 });
}
