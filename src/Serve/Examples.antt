-- ===== src/Serve/Examples.antt =====
-- A streaming request of a smart pick whose first attempt is refused after a keep-alive comment and
-- whose fallback streams, and one that is not streamed.
use local_engine_router.Common.{
  ◌≡◌, refl, ℕ, String, Dict, elem, if◌then◌else◌, ◌==◌, true, false, List, [], ◌∷◌, none, some,
  Option, Bool, ltb, ◌&&◌, All,
}
use local_engine_router.Serve.{
  asks, takes, gives_back, falls_back, notes_success, notes_failure, saves, keepalive, sends, Call,
  StreamAnswer, refused, streams, complete, PostAnswer, post_connect_error, post_answers,
  attempt_plan, stream,
}
use local_engine_router.Serve.Thinking.{TurnsOff, apply_thinking_policy, is_chat, policy-TurnsOff}
use local_engine_router.Serve.Fallbacks.{
  v1_body_for, prepare, sent_bodies, IsOwn, sent_bodies-IsOwn,
}
use local_engine_router.Json.{Json, num, str, bool, obj, field, end}
use local_engine_router.Routing.{resolve_model_id}
use local_engine_router.Serve.Ndjson.{ndjson, ndjson-IsBalanced}
use local_engine_router.Serve.Bodies.{Raw, json_value, read_request, request, first_body}
use local_engine_router.Engines.StartCmd.{same, lower_codes}
use local_engine_router.Serve.Access.{
  auth_middleware, IsPresented, auth_middleware-IsPresented, filter_request_headers,
}
use local_engine_router.Serve.Balance.{IsBalanced, stream-IsBalanced}
use local_engine_router.Serve.Commit.{IsCommitted, stream-IsCommitted}

abbrev call : Call
call = record { smart = true; model = "big"; keepalive_enabled = true }

abbrev plan : List (String × StreamAnswer)
plan = ("big", refused 1) ∷ ("small", streams 0 "ollama" ("hel" ∷ "lo" ∷ []) complete) ∷ []

abbrev posts : List (String × PostAnswer)
posts = ("big", post_connect_error "vllm") ∷ ("small", post_answers "ollama" 200) ∷ []

plan_of_pick :
    attempt_plan "big"
      (some (record { same_model_reload = false; fall_forward = true; fallbacks = "small" ∷ [] }))
    ≡ "big" ∷ "small" ∷ []
unfolding attempt_plan
plan_of_pick = refl

stream_run :
    stream call plan
    ≡ asks "big"
      ∷ keepalive
      ∷ notes_failure "big"
      ∷ saves
      ∷ falls_back "small" false
      ∷ asks "small"
      ∷ takes "ollama"
      ∷ sends "hel"
      ∷ sends "lo"
      ∷ notes_success "small"
      ∷ gives_back "ollama"
      ∷ []
unfolding stream
stream_run = refl

stream-IsBalanced_example : IsBalanced (stream call plan)
stream-IsBalanced_example = stream-IsBalanced call plan

stream-IsCommitted_example : IsCommitted (stream call plan)
stream-IsCommitted_example = stream-IsCommitted call plan

-- A budget of 500 below a threshold of 2000.
abbrev below : String → ℕ → Bool
below s t = s == "500" && ltb 500 t

abbrev small_budget : Dict Json
small_budget = ("model", str "big") ∷ ("max_tokens", num false "500") ∷ []

abbrev no_thinking : Json
no_thinking = obj (field "enable_thinking" (bool false) end)

abbrev thinking_off : Dict Json
thinking_off =
    ("model", str "big")
    ∷ ("max_tokens", num false "500")
    ∷ ("chat_template_kwargs", no_thinking)
    ∷ []

policy_rewrites :
    apply_thinking_policy below (some 2000) "/v1/chat/completions/" small_budget ≡ some thinking_off
unfolding apply_thinking_policy
policy_rewrites = refl

policy-TurnsOff_example :
    (n : ℕ) × (some 2000 ≡ some n)
    × (is_chat "/v1/chat/completions/" ≡ true)
    × TurnsOff below n small_budget thinking_off
policy-TurnsOff_example =
    policy-TurnsOff below (some 2000) "/v1/chat/completions/" small_budget thinking_off
      policy_rewrites

abbrev thresholds : String → Option ℕ
thresholds m = if m == "big" then some 2000 else none

-- The fallback has no threshold, and does not get the kwargs of the first attempt.
sent_run :
    sent_bodies below thresholds "/v1/chat/completions"
      (prepare below thresholds "/v1/chat/completions" [] none "big" small_budget).0
      (prepare below thresholds "/v1/chat/completions" [] none "big" small_budget).1
      ("big" ∷ "small" ∷ [])
    ≡ ("big", thinking_off)
      ∷ ("small", ("model", str "small") ∷ ("max_tokens", num false "500") ∷ [])
      ∷ []
unfolding sent_bodies prepare v1_body_for first_body resolve_model_id apply_thinking_policy
sent_run = refl

ndjson_run :
    ndjson call (("big", refused 1) ∷ ("small", streams 0 "ollama" [] complete) ∷ [])
    ≡ asks "big"
      ∷ keepalive
      ∷ notes_failure "big"
      ∷ saves
      ∷ falls_back "small" false
      ∷ asks "small"
      ∷ takes "ollama"
      ∷ notes_success "small"
      ∷ gives_back "ollama"
      ∷ []
unfolding ndjson
ndjson_run = refl

ndjson-IsBalanced_example : IsBalanced (ndjson call plan) × IsCommitted (ndjson call plan)
ndjson-IsBalanced_example = ndjson-IsBalanced call plan

-- {"model": "fast", "stream": false}
abbrev raw : Raw
raw = json_value (obj (field "model" (str "fast") (field "stream" (bool false) end)))

abbrev client_body : Dict Json
client_body = ("model", str "fast") ∷ ("stream", bool false) ∷ []

abbrev aliases : Dict String
aliases = ("fast", "small") ∷ []

raw_read : read_request raw ≡ request "fast" client_body
unfolding read_request
raw_read = refl

sent_bodies-IsOwn_example : All (IsOwn below thresholds "/v1/chat/completions" client_body) (
    sent_bodies below thresholds "/v1/chat/completions"
      (prepare below thresholds "/v1/chat/completions" aliases none "fast" client_body).0
      (prepare below thresholds "/v1/chat/completions" aliases none "fast" client_body).1
      ("small" ∷ "big" ∷ []))
sent_bodies-IsOwn_example =
    sent_bodies-IsOwn below thresholds "/v1/chat/completions" raw aliases none "fast" client_body
      ("small" ∷ "big" ∷ []) raw_read

-- A bearer token, and a header that the Connection header names.
abbrev headers : Dict String
headers =
    ("authorization", "Bearer  k1 ")
    ∷ ("connection", "close, X-Trace")
    ∷ ("x-trace", "7")
    ∷ ("host", "h")
    ∷ ("x-kept", "1")
    ∷ []

goes_on : auth_middleware ("k0" ∷ "k1" ∷ []) "POST" "/v1/completions" headers ≡ true
unfolding auth_middleware
goes_on = refl

auth_middleware-IsPresented_example :
    (k : String) × (elem k ("k0" ∷ "k1" ∷ []) ≡ true) × IsPresented headers k
auth_middleware-IsPresented_example =
    auth_middleware-IsPresented "k0" ("k1" ∷ []) "POST" "/v1/completions" headers refl goes_on

kept_headers :
    filter_request_headers headers ≡ ("authorization", "Bearer  k1 ") ∷ ("x-kept", "1") ∷ []
unfolding filter_request_headers same lower_codes
kept_headers = refl
