-- ===== src/Smart/Classify.antt =====
-- router/smart.py, `classify_request`, and the tokens that `_decide` takes a request to need. Scores
-- are in hundredths. What the patterns find in a text, and the values of numbers, are arguments.
pub mod Rewrites
pub mod Shares
pub mod Totals
use Prim.Native.Char.{code}
use Prim.Native.String
use mathlib.Core.Option.{map as map_option}
use local_engine_router.Common.{
  ℕ, zero, suc, ◌+◌, ◌-◌, ◌*◌, String, Option, none, some, Bool, true, false, List, [], ◌∷◌, ◌++◌,
  map, Dict, get, put, length, keep_if, ltb, leb, eqb, elem, if◌then◌else◌, ◌&&◌, ◌||◌, not, ◌==◌,
}
use local_engine_router.Json.{
  strip_slashes, ends_with, Json, null, bool, num, str, arr, obj, items, fields, truthy, is_text,
}
use local_engine_router.Smart.Gather.{gather_text, has_image_parts, is_truthy}

-- What the compiled patterns answer about a text, and `0 < x <= 256` and `int(max(0, x))` of a number;
-- `int` raises on an infinite one.
pub record Reading : Type 0 where
  pub stack_trace : String → Bool
  pub diff : String → Bool
  pub file_path : String → Bool
  pub code_keyword : String → Bool
  pub edit_verb : String → Bool
  pub math : String → Bool
  pub reasoning : String → Bool
  pub summarize : String → Bool
  pub writing : String → Bool
  pub json_ask : String → Bool
  pub is_small : String → Bool
  pub tokens_of : String → Option ℕ

-- JOB_DIMENSIONS
abbrev pub job_dimensions : List String
job_dimensions =
    "general" ∷ "coding" ∷ "code_editing" ∷ "math" ∷ "reasoning" ∷ "tool_use" ∷ "writing"
    ∷ "summarization" ∷ "long_context" ∷ "json_structured" ∷ "speed" ∷ "reliability" ∷ "embedding"
    ∷ []

unfoldable pub is_embedding_path : String → Bool
is_embedding_path path =
    ends_with "/embeddings" (strip_slashes path) || ends_with "/embed" (strip_slashes path)

-- len(_CODE_FENCE_RE.findall(text)), after `seen` backticks in a row that no fence has taken
unfoldable pub count_fences : (seen : ℕ) → String → ℕ
count_fences seen String.[] = 0
count_fences seen (String.◌∷◌ c s) =
    let tick = eqb (code c) b'`' in
    let closes = tick && leb 2 seen in
    (if closes then 1 else 0) + count_fences (if closes then 0 else if tick then suc seen else 0) s

abbrev pub Points : Type 0
Points = List (String × ℕ)

-- The signs of a request, each with what it adds where it is there.
abbrev pub Signs : Type 0
Signs = List (Bool × Points)

unfoldable pub seen_points : Signs → Points
seen_points [] = []
seen_points ((there, ps) ∷ signs) =
    let rest = seen_points signs in if there then ps ++ rest else rest

abbrev pub is_nonempty_list : Option Json → Bool
is_nonempty_list (some (arr vs)) = truthy (arr vs)
is_nonempty_list v = false

-- tool_choice not in (None, "none")
abbrev pub is_choice : Option Json → Bool
is_choice none = false
is_choice (some null) = false
is_choice (some (str s)) = not (s == "none")
is_choice (some v) = true

abbrev is_json_type : Option Json → Bool
is_json_type (some (str t)) = elem t ("json_object" ∷ "json_schema" ∷ [])
is_json_type v = false

abbrev pub asks_format : Option Json → Bool
asks_format (some (obj fs)) = is_json_type (get (fields fs) "type")
asks_format v = false

-- fmt == "json" or isinstance(fmt, dict)
abbrev pub is_format : Option Json → Bool
is_format (some (str s)) = s == "json"
is_format (some (obj fs)) = true
is_format v = false

-- Tools and structured output.
unfoldable pub structure_signs : Dict Json → Signs
structure_signs body =
    (
      is_nonempty_list (get body "tools"),
      ("tool_use", 250) ∷ ("json_structured", 50) ∷ ("reliability", 50) ∷ [],
    )
    ∷ (is_choice (get body "tool_choice"), ("tool_use", 100) ∷ [])
    ∷ (
      asks_format (get body "response_format"),
      ("json_structured", 200) ∷ ("reliability", 50) ∷ [],
    )
    ∷ (is_format (get body "format"), ("json_structured", 200) ∷ ("reliability", 50) ∷ [])
    ∷ []

-- min(2.0, 0.75 * fences)
unfoldable pub fence_points : ℕ → ℕ
fence_points n = if ltb (75 * n) 200 then 75 * n else 200

-- The scanned text.
unfoldable pub text_signs : Reading → String → Signs
unfolding count_fences fence_points
text_signs r text =
    let fences : ℕ = count_fences 0 text in
    (ltb 0 fences, ("coding", fence_points fences) ∷ [])
    ∷ (r.stack_trace text, ("coding", 120) ∷ ("reasoning", 30) ∷ [])
    ∷ (r.diff text, ("code_editing", 200) ∷ ("coding", 50) ∷ [])
    ∷ (r.file_path text, ("coding", 60) ∷ [])
    ∷ (r.code_keyword text, ("coding", 80) ∷ [])
    ∷ (r.edit_verb text && (ltb 0 fences || r.code_keyword text), ("code_editing", 120) ∷ [])
    ∷ (r.math text, ("math", 140) ∷ ("reasoning", 40) ∷ [])
    ∷ (r.reasoning text, ("reasoning", 120) ∷ [])
    ∷ (r.summarize text, ("summarization", 150) ∷ [])
    ∷ (r.writing text, ("writing", 150) ∷ [])
    ∷ (r.json_ask text, ("json_structured", 100) ∷ [])
    ∷ []

-- body.get("max_completion_tokens", body.get("max_tokens"))
abbrev or_else : Option Json → Option Json → Option Json
or_else none o = o
or_else (some v) o = some v

unfoldable pub budget_of : Dict Json → Option Json
budget_of body = or_else (get body "max_completion_tokens") (get body "max_tokens")

abbrev pub is_small_budget : Reading → Option Json → Bool
is_small_budget r (some (num is_zero s)) = r.is_small s
is_small_budget r v = false

abbrev pub is_long_list : Option Json → Bool
is_long_list (some (arr vs)) = ltb 6 (length (items vs))
is_long_list v = false

-- The size of the request and of its answer.
unfoldable pub size_signs : Reading → Dict Json → ℕ → Signs
unfolding budget_of
size_signs r body tokens =
    (ltb 32000 tokens, ("long_context", 200) ∷ [])
    ∷ (not (ltb 32000 tokens) && ltb 8000 tokens, ("long_context", 100) ∷ [])
    ∷ (is_long_list (get body "messages"), ("reliability", 30) ∷ [])
    ∷ (is_small_budget r (budget_of body), ("speed", 100) ∷ [])
    ∷ (is_truthy (get body "stream"), ("speed", 30) ∷ [])
    ∷ []

abbrev pub or_zero : Option ℕ → ℕ
or_zero none = 0
or_zero (some n) = n

-- scores[dim] += n, of each in turn
unfoldable pub add_points : Dict ℕ → Points → Dict ℕ
add_points scores [] = scores
add_points scores ((dim, n) ∷ ps) = add_points (put scores dim (or_zero (get scores dim) + n)) ps

-- "general" has its base line.
unfoldable pub start_scores : Dict ℕ
start_scores = put (map (λ dim. (dim, 0)) job_dimensions) "general" 100

abbrev pub sum_scores : Dict ℕ → ℕ
sum_scores [] = 0
sum_scores ((dim, n) ∷ ds) = n + sum_scores ds

-- What is added, in this order, of the text that is scanned and its tokens.
unfoldable pub points_of : Reading → Dict Json → String × ℕ → Points
points_of r body (text, tokens) =
    seen_points (structure_signs body)
    ++ ((if is_text text then seen_points (text_signs r text) else [])
        ++ seen_points (size_signs r body tokens))

-- The scores before they are divided by their sum.
unfoldable pub scores_of : Reading → Dict Json → String × ℕ → Dict ℕ
unfolding points_of add_points start_scores
scores_of r body gathered = add_points start_scores (points_of r body gathered)

-- _decide, of the tokens that the request is estimated at; a budget that is no number is 1024
unfoldable pub budget_tokens : Reading → Dict Json → Option ℕ
unfolding budget_of
budget_tokens r body = elim (budget_of body) [
  | some (num is_zero s) ↦ r.tokens_of s
  | _ ↦ some 1024
]

module _ {ℓ} {F : Type ℓ} (share : ℕ → ℕ → F) where
  -- {dim: round(v / total, 4)} of the positive scores; `share v total` is the rounded quotient
  unfoldable pub normalized : Dict ℕ → Dict F
  normalized scores =
      map (λ s. (s.0, share s.1 (sum_scores scores))) (keep_if (λ s. ltb 0 s.1) scores)

  -- classify_request
  unfoldable pub classify_request : Reading → String → Dict Json → Option (Dict F)
  unfolding is_embedding_path normalized scores_of gather_text
  classify_request r path body =
      if is_embedding_path path
      then some (("embedding", share 1 1) ∷ [])
      else map_option (λ g. normalized (scores_of r body g)) (gather_text body)

-- key in d
abbrev pub has_key {ℓ} : {V : Type ℓ} → Dict V → String → Bool
has_key d k = elim (get d k) [ none ↦ false | some v ↦ true ]

-- What `_decide` takes from a request: the weights of the job, whether it has images, and the tokens it
-- needs.
pub record Demand {ℓ} (F : Type ℓ) : Type ℓ where
  pub job : Dict F
  pub has_images : Bool
  pub needed_tokens : ℕ

-- none where a part raises
unfoldable pub all_parts {ℓ} :
    {F : Type ℓ}
    → Option (Dict F)
    → Option Bool
    → Option (String × ℕ)
    → Option ℕ
    → Option (Demand F)
all_parts (some job) (some images) (some (text, tokens)) (some budget) =
    some (record { job = job; has_images = images; needed_tokens = tokens + budget })
all_parts job images gathered budget = none

-- The beginning of `_decide`.
unfoldable pub demand_of {ℓ} :
    {F : Type ℓ} → (ℕ → ℕ → F) → Reading → String → Dict Json → Option (Demand F)
unfolding all_parts
demand_of share r path body =
    all_parts (classify_request share r path body) (has_image_parts body) (gather_text body)
      (budget_tokens r body)
