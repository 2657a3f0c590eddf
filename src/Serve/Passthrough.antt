-- ===== src/Serve/Passthrough.antt =====
-- router/app.py, `_find_ollama_engine`, `_passthrough_to_ollama`, `api_pull` and `api_catchall`;
-- `upstream_url` of router/proxy.py. What the upstream does is its answer.
use Prim.Native.Char.{code}
use Prim.Native.String.{◌++◌}
use local_engine_router.Common.{
  ℕ, ◌≡◌, ◌∙◌, refl, sym, ap, arith, String, Option, none, some, Bool, true, false, List, [], ◌∷◌,
  elem, eqb, leb, if◌then◌else◌, ◌&&◌, not, Bool-cases, inl, inr,
}
use text.Mathlib.TextLemmas.{nil-append, cons-append, append-nil}
use local_engine_router.Json.{is_text, strip_slashes}

-- An engine of the table, as far as the passthrough reads it.
pub record Upstream : Type 0 where
  pub is_ollama : Bool
  pub base_url : String

-- _find_ollama_engine
unfoldable pub find_ollama_engine : List Upstream → Option Upstream
find_ollama_engine [] = none
find_ollama_engine (e ∷ es) = if e.is_ollama then some e else find_ollama_engine es

-- upstream_url
unfoldable pub upstream_url : String → String → String → String
upstream_url base path query =
    let url : String = strip_slashes base ++ path in
    if is_text query then url ++ ("?" ++ query) else url

-- A response of this status without a call, or a request that is sent on.
pub data Sent : Type 0 where
  answers : (status : ℕ) → Sent
  forwards : (url : String) → Sent

forward_to : Option Upstream → String → String → Sent
unfolding upstream_url
forward_to none path query = answers 503
forward_to (some e) path query = forwards (upstream_url e.base_url path query)

-- _passthrough_to_ollama, and the beginning of api_pull with its path
unfoldable pub passthrough : List Upstream → String → String → Sent
unfolding find_ollama_engine forward_to
passthrough engines path query = forward_to (find_ollama_engine engines) path query

-- What the upstream of a passthrough does, and the status that is answered.
pub data Reply : Type 0 where
  http_error : Reply
  answered : (status : ℕ) → Reply

unfoldable pub passed_status : Sent → Reply → ℕ
passed_status (answers status) a = status
passed_status (forwards url) http_error = 502
passed_status (forwards url) (answered status) = status

-- path.split("/", 1)[0]
unfoldable pub head_segment : String → String
head_segment String.[] = String.[]
head_segment (String.◌∷◌ c s) =
    let rest = head_segment s in if eqb (code c) b'/' then String.[] else String.◌∷◌ c rest

-- _DESTRUCTIVE_API_SEGMENTS
abbrev pub destructive_api_segments : List String
destructive_api_segments = "delete" ∷ "create" ∷ "copy" ∷ "push" ∷ "blobs" ∷ []

-- api_catchall, of the path below /api/; `lower` is str.lower
unfoldable pub api_catchall :
    (lower : String → String) → Bool → List Upstream → String → String → Sent
api_catchall lower allowed engines path query =
    if elem (lower (head_segment path)) destructive_api_segments && not allowed
    then answers 403
    else passthrough engines ("/api/" ++ path) query

-- What a pull gives: no answer at all, or a status, with its chunks, each with whether the client has
-- gone by then, and whether the stream then breaks off.
pub data PullAnswer : Type 0 where
  unreachable : PullAnswer
  pull_answers : (status : ℕ) (chunks : List (String × Bool)) (breaks : Bool) → PullAnswer

pub data PullFrame : Type 0 where
  chunk : String → PullFrame
  error_line : PullFrame

relayed : List (String × Bool) → Bool → List PullFrame
relayed [] breaks = if breaks then error_line ∷ [] else []
relayed ((c, gone) ∷ cs) breaks =
    let rest = relayed cs breaks in if gone then [] else chunk c ∷ rest

-- pull_gen
unfoldable pub pull_gen : PullAnswer → List PullFrame
unfolding relayed
pull_gen unreachable = error_line ∷ []
pull_gen (pull_answers status chunks breaks) =
    if leb 400 status then error_line ∷ [] else relayed chunks breaks

abbrev has_slash : String → Bool
has_slash String.[] = false
has_slash (String.◌∷◌ c s) = if eqb (code c) b'/' then true else has_slash s

head_segment-append :
    (s t : String) → has_slash s ≡ false → head_segment t ≡ String.[] → head_segment (s ++ t) ≡ s
unfolding head_segment
head_segment-append String.[] t h e = rw nil-append e
head_segment-append (String.◌∷◌ c s) t h e = elim (Bool-cases (eqb (code c) b'/')) [
  | inl y ↦ absurd (ground arith)
  | inr n ↦
      rw (cons-append c s t, n) (ap (λ r. String.◌∷◌ c r) (head_segment-append s t (rw n at h) e))
]

head_segment-slash : (rest : String) → head_segment ("/" ++ rest) ≡ String.[]
unfolding head_segment
head_segment-slash rest = rw (cons-append "/" String.[] rest) refl

refused-head :
    (lower : String → String) (engines : List Upstream) (segment path query : String)
    → head_segment path ≡ segment
    → elem (lower segment) destructive_api_segments ≡ true
    → api_catchall lower false engines path query ≡ answers 403
unfolding api_catchall
refused-head lower engines segment path query e d = rw (e, d)

-- A request below /api/ is answered with 403, and never sent on, where its first segment is, in any
-- case of its letters, a destructive one and these are not allowed, whatever comes after the segment.
pub api_catchall-refuses :
    (lower : String → String) (engines : List Upstream) (segment rest query : String)
    → has_slash segment ≡ false
    → elem (lower segment) destructive_api_segments ≡ true
    → (api_catchall lower false engines segment query ≡ answers 403)
      × (api_catchall lower false engines (segment ++ ("/" ++ rest)) query ≡ answers 403)
api_catchall-refuses lower engines segment rest query n d = (
  refused-head lower engines segment segment query
      (ap head_segment (sym (append-nil segment))
        ∙ head_segment-append segment String.[] n (unfold head_segment in refl))
      d,
  refused-head lower engines segment (segment ++ ("/" ++ rest)) query
      (head_segment-append segment ("/" ++ rest) n (head_segment-slash rest)) d,
)
