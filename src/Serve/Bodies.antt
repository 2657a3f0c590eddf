-- ===== src/Serve/Bodies.antt =====
-- router/app.py, what the two POST handlers make of a request's body before and between attempts: the
-- checks, `_resolve_alias_and_rewrite` and `body_for`. A body is the object that its bytes are read as.
use local_engine_router.Common.{
  ◌≡◌, ◌∙◌, sym, ap, arith, eq_iff, String, Option, none, some, Bool, true, false, Bool-cases, inl,
  inr, ◌&&◌, [], ◌∷◌, if◌then◌else◌, ◌==◌, Dict, get, put, get-put, elem,
}
use local_engine_router.Json.{Json, bool, str, obj, fields, is_text, strip, truthy}
use local_engine_router.Routing.{resolve_model_id}

-- The bytes of a request: none at all, not JSON, or JSON
pub data Raw : Type 0 where
  no_bytes not_json : Raw
  json_value : Json → Raw

-- A response of status 400, or the model and the body
pub data Accepted : Type 0 where
  bad_request : Accepted
  request : String → Dict Json → Accepted

-- not isinstance(model, str) or not model.strip()
with_model : Dict Json → Option Json → Accepted
with_model body (some (str m)) = if is_text (strip m) then request m body else bad_request
with_model body v = bad_request

unfoldable pub read_request : Raw → Accepted
unfolding with_model
read_request no_bytes = with_model [] none
read_request not_json = bad_request
read_request (json_value (obj fs)) = with_model (fields fs) (get (fields fs) "model")
read_request (json_value v) = bad_request

-- _resolve_alias_and_rewrite
unfoldable pub resolve_alias_and_rewrite : Dict String → String → Dict Json → String × Dict Json
resolve_alias_and_rewrite aliases model body =
    let real = resolve_model_id aliases model in
    if real == model then (model, body) else (real, put body "model" (str real))

-- The model and the body of the first attempt; `picked` is the model of a smart decision
unfoldable pub first_body : Dict String → Option String → String → Dict Json → String × Dict Json
unfolding resolve_alias_and_rewrite
first_body aliases none model body = resolve_alias_and_rewrite aliases model body
first_body aliases (some picked) model body = (picked, put body "model" (str picked))

-- body_for of the Ollama handler
unfoldable pub body_for : String × Dict Json → String → Dict Json
body_for (model, body) mid = if mid == model then body else put body "model" (str mid)

-- path in {...} and body.get("stream", True) is not False
abbrev pub not_false : Option Json → Bool
not_false (some (bool false)) = false
not_false v = true

unfoldable pub api_is_stream : String → Dict Json → Bool
api_is_stream path body =
    elem path ("/api/chat" ∷ "/api/generate" ∷ []) && not_false (get body "stream")

-- bool(body.get("stream", False))
unfoldable pub v1_is_stream : Dict Json → Bool
v1_is_stream body = elim (get body "stream") [ none ↦ false | some v ↦ truthy v ]

abbrev model_of : Accepted → String
model_of bad_request = ""
model_of (request m body) = m

abbrev body_of : Accepted → Dict Json
body_of bad_request = []
body_of (request m body) = body

with_model-get :
    (body given : Dict Json) (v : Option Json) (m : String)
    → with_model given v ≡ request m body
    → (v ≡ some (str m)) × (given ≡ body)
unfolding with_model
with_model-get body given (some (str n)) m e = elim (Bool-cases (is_text (strip n))) [
  | inl y ↦ request_parts (rw y at e)
  | inr y ↦ absurd (ground arith)
]
  where
    request_parts :
        request n given ≡ request m body → (some (str n) ≡ some (str m)) × (given ≡ body)
    request_parts f = (ap (λ r. some (str (model_of r))) f, ap body_of f)
with_model-get body given v m e = absurd (ground arith)

-- The body names the model, and is the client's at every other key.
abbrev pub Names : Dict Json → String × Dict Json → Type 0
Names body p = (k : String) → get p.1 k ≡ (if "model" == k then some (str p.0) else get body k)

pub named_model :
    (raw : Raw) (m : String) (body : Dict Json)
    → read_request raw ≡ request m body
    → get body "model" ≡ some (str m)
unfolding read_request
named_model no_bytes m body e = absurd (ground arith)
named_model not_json m body e = absurd (ground arith)
named_model (json_value (obj fs)) m body e =
    let (own, same) = with_model-get body (fields fs) (get (fields fs) "model") m e in
    sym (ap (λ d. get d "model") same) ∙ own
named_model (json_value v) m body e = absurd (ground arith)

pub first-Names :
    (aliases : Dict String) (picked : Option String) (m : String) (body : Dict Json)
    → get body "model" ≡ some (str m)
    → Names body (first_body aliases picked m body)
unfolding first_body
first-Names aliases (some p) m body e k = get-put body "model" k (str p)
first-Names aliases none m body e k = elim (Bool-cases (resolve_model_id aliases m == m)) [
  | inl y ↦ rw y (ground (arith, eq_iff "model" k))
  | inr y ↦ rw y (get-put body "model" k (str (resolve_model_id aliases m)))
]

attempt-Names :
    (p : String × Dict Json) (body : Dict Json) (mid k : String)
    → Names body p
    → get (body_for p mid) k ≡ (if "model" == k then some (str mid) else get body k)
unfolding body_for
attempt-Names (n, b) body mid k h = elim (Bool-cases (mid == n)) [
  | inl y ↦ rw y (ground (arith, eq_iff mid n, h k))
  | inr y ↦ rw y (ground (arith, get-put b "model" k (str mid), h k))
]

-- The body that is sent in an attempt of the Ollama handler names the model of the attempt, and has
-- every other key as the client sent it, whether the model was picked, an alias or named as it is, and
-- also in the attempts of a fallback.
pub get-body_for :
    (raw : Raw) (aliases : Dict String) (picked : Option String) (m : String) (body : Dict Json)
    (mid k : String)
    → read_request raw ≡ request m body
    → get (body_for (first_body aliases picked m body) mid) k
      ≡ (if "model" == k then some (str mid) else get body k)
unfolding body_for
get-body_for raw aliases picked m body mid k e =
    attempt-Names (first_body aliases picked m body) body mid k
      (first-Names aliases picked m body (named_model raw m body e))
