-- ===== src/Smart/Classify/Totals.antt =====
-- The scores of router/smart.py, `classify_request`, one dimension at a time.
use mathlib.Core.Path.{fun_ext}
use local_engine_router.Common.{
  ℕ, ◌+◌, ◌*◌, ◌≡◌, refl, ap, ◌∙◌, subst, arith, eq_iff, eq_refl, String, some, Bool, true, false,
  List, [], ◌∷◌, ◌++◌, map, Dict, get, put, elem, ltb, not, All, Bool-cases, keep_if, inl, inr,
  if◌then◌else◌, ◌==◌, ◌&&◌, ◌||◌,
}
use local_engine_router.Json.{Json, is_text}
use local_engine_router.Smart.Gather.{gather_text, is_truthy}
use local_engine_router.Smart.Classify.{
  Reading, Points, Signs, job_dimensions, seen_points, structure_signs, text_signs, size_signs,
  points_of, start_scores, add_points, scores_of, normalized, sum_scores, is_embedding_path,
  classify_request, is_nonempty_list, is_choice, asks_format, is_format, is_small_budget,
  is_long_list, budget_of, count_fences, fence_points,
}
use local_engine_router.Smart.Classify.Shares.{generation_dimensions, Generates, points-Generates}

-- The points of a dimension.
abbrev points_at : String → Points → ℕ
points_at d [] = 0
points_at d ((j, n) ∷ ps) = (if j == d then n else 0) + points_at d ps

-- 1 of what is there, 0 of what is not
unfoldable pub bit : Bool → ℕ
bit b = if b then 1 else 0

abbrev sign_sum : String → Signs → ℕ
sign_sum d [] = 0
sign_sum d ((there, ps) ∷ signs) = bit there * points_at d ps + sign_sum d signs

points_at-append :
    (d : String) (ps qs : Points) → points_at d (ps ++ qs) ≡ points_at d ps + points_at d qs
points_at-append d [] qs = omega arith
points_at-append d ((j, n) ∷ ps) qs = omega (arith, points_at-append d ps qs)

points_at-seen : (d : String) (signs : Signs) → points_at d (seen_points signs) ≡ sign_sum d signs
unfolding seen_points bit
points_at-seen d [] = refl
points_at-seen d ((there, ps) ∷ signs) =
    ground (arith, points_at-seen d signs, points_at-append d ps (seen_points signs))

abbrev table : (String → ℕ) → List String → Dict ℕ
table f ds = map (λ d. (d, f d)) ds

-- No name comes twice.
abbrev IsFresh : List String → Type 0
IsFresh [] = Unit
IsFresh (d ∷ ds) = (elem d ds ≡ false) × IsFresh ds

abbrev raised : (String → ℕ) → String → ℕ → String → ℕ
raised f d n x = f x + (if d == x then n else 0)

get-table :
    (f : String → ℕ) (d : String) (ds : List String)
    → elem d ds ≡ true
    → get (table f ds) d ≡ some (f d)
get-table f d [] h = absurd (ground arith)
get-table f d (x ∷ ds) h = elim (Bool-cases (x == d)) [
  | inl y ↦ rw (y, (eq_iff x d).0 y) refl
  | inr n ↦ rw n (get-table f d ds (rw n at h))
]

table-raised_not :
    (f : String → ℕ) (d : String) (n : ℕ) (ds : List String)
    → elem d ds ≡ false
    → table (raised f d n) ds ≡ table f ds
table-raised_not f d n [] h = refl
table-raised_not f d n (x ∷ ds) h =
    ground (arith, table-raised_not f d n ds, eq_iff x d, eq_iff d x)

put-table :
    (f : String → ℕ) (d : String) (n : ℕ) (ds : List String)
    → IsFresh ds
    → elem d ds ≡ true
    → put (table f ds) d (f d + n) ≡ table (raised f d n) ds
put-table f d n [] i h = absurd (ground arith)
put-table f d n (x ∷ ds) i h = elim (Bool-cases (x == d)) [
  | inl y ↦
      let e : x ≡ d = (eq_iff x d).0 y in
      rw (y, table-raised_not f d n ds (subst (λ z. elem z ds ≡ false) e i.0))
        (ap (λ m. (x, m) ∷ table f ds) (rw (e, eq_refl d) refl))
  | inr other ↦
      rw (other, put-table f d n ds i.1 (rw other at h))
        (ap (λ m. (x, m) ∷ table (raised f d n) ds) (ground (arith, other, eq_iff x d, eq_iff d x)))
]

add_points-table :
    (f : String → ℕ) (ps : Points) (ds : List String)
    → IsFresh ds
    → All (λ (p : String × ℕ). elem p.0 ds ≡ true) ps
    → add_points (table f ds) ps ≡ table (λ x. f x + points_at x ps) ds
unfolding add_points
add_points-table f [] ds i h = ap (λ g. table g ds) (fun_ext λ x. omega arith)
add_points-table f ((d, n) ∷ ps) ds i h =
    rw (get-table f d ds h.0, put-table f d n ds i h.0)
      (add_points-table (raised f d n) ps ds i h.1
        ∙ ap (λ g. table g ds) (fun_ext λ x. omega arith))

-- n where it is there
abbrev pub worth : Bool → ℕ → ℕ
worth there n = bit there * n

-- min(2.0, 0.75 * fences), as the sizes of it
abbrev pub fences_worth : ℕ → ℕ
fences_worth n = if ltb n 3 then 75 * n else 200

abbrev pub length_worth : ℕ → ℕ
length_worth tokens = if ltb 32000 tokens then 200 else if ltb 8000 tokens then 100 else 0

-- What each dimension is due of a request with this text and these tokens.
unfoldable pub expected_scores : Reading → Dict Json → String × ℕ → Dict ℕ
unfolding count_fences budget_of
expected_scores r body (text, tokens) =
    let some_text : Bool = is_text text in
    let fences : ℕ = count_fences 0 text in
    let tools : Bool = is_nonempty_list (get body "tools") in
    let response_format : Bool = asks_format (get body "response_format") in
    let format : Bool = is_format (get body "format") in
    ("general", 100)
    ∷ (
      "coding",
      worth (some_text && ltb 0 fences) (fences_worth fences)
          + worth (some_text && r.stack_trace text) 120
          + worth (some_text && r.diff text) 50
          + worth (some_text && r.file_path text) 60
          + worth (some_text && r.code_keyword text) 80,
    )
    ∷ (
      "code_editing",
      worth (some_text && r.diff text) 200
          + worth (some_text && (r.edit_verb text && (ltb 0 fences || r.code_keyword text))) 120,
    )
    ∷ ("math", worth (some_text && r.math text) 140)
    ∷ (
      "reasoning",
      worth (some_text && r.stack_trace text) 30
          + worth (some_text && r.math text) 40
          + worth (some_text && r.reasoning text) 120,
    )
    ∷ ("tool_use", worth tools 250 + worth (is_choice (get body "tool_choice")) 100)
    ∷ ("writing", worth (some_text && r.writing text) 150)
    ∷ ("summarization", worth (some_text && r.summarize text) 150)
    ∷ ("long_context", length_worth tokens)
    ∷ (
      "json_structured",
      worth tools 50
          + worth response_format 200
          + worth format 200
          + worth (some_text && r.json_ask text) 100,
    )
    ∷ (
      "speed",
      worth (is_small_budget r (budget_of body)) 100 + worth (is_truthy (get body "stream")) 30,
    )
    ∷ (
      "reliability",
      worth tools 50
          + worth response_format 50
          + worth format 50
          + worth (is_long_list (get body "messages")) 30,
    )
    ∷ ("embedding", 0)
    ∷ []

abbrev base_line : String → ℕ
base_line d = if d == "general" then 100 else 0

start-table : start_scores ≡ table base_line job_dimensions
unfolding start_scores
start-table = refl

generation-elem : (d : String) → elem d generation_dimensions ≡ true → elem d job_dimensions ≡ true
generation-elem d h = ground arith

All-weaken_to :
    (ps : Points) → Generates ps → All (λ (p : String × ℕ). elem p.0 job_dimensions ≡ true) ps
All-weaken_to [] h = tt
All-weaken_to ((d, n) ∷ ps) h = (generation-elem d h.0, All-weaken_to ps h.1)

job_dimensions-IsFresh : IsFresh job_dimensions
job_dimensions-IsFresh = ground arith

-- The points of a dimension, sign by sign.
abbrev sums : Reading → Dict Json → String → ℕ → String → ℕ
sums r body text tokens d =
    sign_sum d (structure_signs body)
    + ((if is_text text then sign_sum d (text_signs r text) else 0)
        + sign_sum d (size_signs r body tokens))

points_at-points_of :
    (r : Reading) (body : Dict Json) (text : String) (tokens : ℕ) (d : String)
    → points_at d (points_of r body (text, tokens)) ≡ sums r body text tokens d
unfolding points_of
points_at-points_of r body text tokens d = elim (Bool-cases (is_text text)) [
  | inl y ↦
      rw (y, points_at-append, points_at-append, points_at-seen, points_at-seen, points_at-seen)
        refl
  | inr n ↦ rw (n, points_at-append, points_at-seen, points_at-seen) (omega arith)
]

entry_cons : (d : String) {m n : ℕ} {xs ys : Dict ℕ} → m ≡ n → xs ≡ ys → (d, m) ∷ xs ≡ (d, n) ∷ ys
entry_cons d {m} {n} {xs} {ys} e f = rw (e, f) refl

bit-false : bit false ≡ 0
unfolding bit
bit-false = refl

fences_worth_lem : (n : ℕ) → fence_points n ≡ fences_worth n
unfolding fence_points
fences_worth_lem n = ground arith

length_worth_lem :
    (n : ℕ) → bit (ltb 32000 n) * 200 + bit (not (ltb 32000 n) && ltb 8000 n) * 100 ≡ length_worth n
unfolding bit
length_worth_lem n = ground arith

sums-expected :
    (r : Reading) (body : Dict Json) (text : String) (tokens : ℕ)
    → table (λ d. base_line d + sums r body text tokens d) job_dimensions
      ≡ expected_scores r body (text, tokens)
unfolding structure_signs text_signs size_signs expected_scores
sums-expected r body text tokens = elim (Bool-cases (is_text text)) [
  | inl y ↦
      rw (y, fences_worth_lem)
        (entry_cons "general" (omega arith) (
          entry_cons "coding" (omega arith) (
            entry_cons "code_editing" (omega arith) (
              entry_cons "math" (omega arith) (
                entry_cons "reasoning" (omega arith) (
                  entry_cons "tool_use" (omega arith) (
                    entry_cons "writing" (omega arith) (
                      entry_cons "summarization" (omega arith) (
                        entry_cons "long_context" (omega (arith, length_worth_lem tokens)) (
                          entry_cons "json_structured" (omega arith) (
                            entry_cons "speed" (omega arith) (
                              entry_cons "reliability" (omega arith)
                                (entry_cons "embedding" (omega arith) refl)))))))))))))
  | inr n ↦
      rw (n, bit-false)
        (entry_cons "general" (omega arith) (
          entry_cons "coding" (omega arith) (
            entry_cons "code_editing" (omega arith) (
              entry_cons "math" (omega arith) (
                entry_cons "reasoning" (omega arith) (
                  entry_cons "tool_use" (omega arith) (
                    entry_cons "writing" (omega arith) (
                      entry_cons "summarization" (omega arith) (
                        entry_cons "long_context" (omega (arith, length_worth_lem tokens)) (
                          entry_cons "json_structured" (omega arith) (
                            entry_cons "speed" (omega arith) (
                              entry_cons "reliability" (omega arith)
                                (entry_cons "embedding" (omega arith) refl)))))))))))))
]

scores_of-expected :
    (r : Reading) (body : Dict Json) (text : String) (tokens : ℕ)
    → scores_of r body (text, tokens) ≡ expected_scores r body (text, tokens)
unfolding scores_of
scores_of-expected r body text tokens =
    ap (λ s. add_points s (points_of r body (text, tokens))) start-table
    ∙ (add_points-table base_line (points_of r body (text, tokens)) job_dimensions
          job_dimensions-IsFresh (All-weaken_to _ (points-Generates r body (text, tokens)))
        ∙ (ap (λ f. table (λ d. base_line d + f d) job_dimensions)
              (fun_ext λ d. points_at-points_of r body text tokens d)
            ∙ sums-expected r body text tokens))

module _ {ℓ} {F : Type ℓ} (share : ℕ → ℕ → F) where
  -- For a request that is not for embeddings and whose text and tokens are g, the weights are exactly the
  -- rounded shares, in their sum, of the scores that are due and not zero: 100 for "general", and for
  -- each other dimension what is listed for it in `expected_scores`, from the tools, the formats, the
  -- patterns found in the text, its code fences, the size of the request and its budget.
  pub classify_request-expected :
      (r : Reading) (path : String) (body : Dict Json) (g : String × ℕ)
      → is_embedding_path path ≡ false
      → gather_text body ≡ some g
      → classify_request share r path body
        ≡ some (
            map
              (λ s. (s.0, share s.1 (sum_scores (expected_scores r body g))))
              (keep_if (λ s. ltb 0 s.1) (expected_scores r body g)))
  unfolding classify_request normalized
  classify_request-expected r path body (text, tokens) n e =
      rw (n, e, scores_of-expected r body text tokens) refl
