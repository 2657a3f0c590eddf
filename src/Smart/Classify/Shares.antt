-- ===== src/Smart/Classify/Shares.antt =====
-- When "embedding" is among the weights of router/smart.py, `classify_request`.
use mathlib.Core.Option.{some-injective, map as map_option}
use local_engine_router.Common.{
  ℕ, ◌<◌, ◌≡◌, refl, subst, arith, eq_iff, String, Option, none, some, Bool, true, false, List, [],
  ◌∷◌, ◌++◌, map, Dict, put, elem, keep_if, ltb, All, Bool-cases, inl, inr, ◌⊎◌, if◌then◌else◌,
  ◌==◌,
}
use local_engine_router.Json.{Json, is_text}
use local_engine_router.Smart.Gather.{gather_text}
use local_engine_router.Smart.Classify.{
  Reading, Points, Signs, sum_scores, seen_points, structure_signs, text_signs, size_signs, has_key,
  points_of, start_scores, add_points, scores_of, normalized, is_embedding_path, classify_request,
}

abbrev positive : Dict ℕ → Dict ℕ
positive = keep_if (λ s. ltb 0 s.1)

-- The dimensions of a request that is not for embeddings.
abbrev pub generation_dimensions : List String
generation_dimensions =
    "general" ∷ "coding" ∷ "code_editing" ∷ "math" ∷ "reasoning" ∷ "tool_use" ∷ "writing"
    ∷ "summarization" ∷ "long_context" ∷ "json_structured" ∷ "speed" ∷ "reliability" ∷ []

abbrev pub Generates : Points → Type 0
Generates = All (λ (p : String × ℕ). elem p.0 generation_dimensions ≡ true)

All-append {ℓ κ} :
    {A : Type ℓ} (P : A → Type κ) (xs ys : List A) → All P xs → All P ys → All P (xs ++ ys)
All-append P [] ys h g = g
All-append P (x ∷ xs) ys h g = (h.0, All-append P xs ys h.1 g)

if-Generates :
    (b : Bool) (ps qs : Points) → Generates ps → Generates qs → Generates (if b then ps else qs)
if-Generates true ps qs h g = h
if-Generates false ps qs h g = g

seen_points-Generates :
    (signs : Signs)
    → All (λ (s : Bool × Points). Generates s.1) signs
    → Generates (seen_points signs)
unfolding seen_points
seen_points-Generates [] h = tt
seen_points-Generates ((there, ps) ∷ signs) h =
    if-Generates there (ps ++ seen_points signs) (seen_points signs)
      (All-append _ ps (seen_points signs) h.0 (seen_points-Generates signs h.1))
      (seen_points-Generates signs h.1)

structure-Generates : (body : Dict Json) → Generates (seen_points (structure_signs body))
unfolding structure_signs
structure-Generates body = seen_points-Generates (structure_signs body) (ground arith)

text-Generates : (r : Reading) (text : String) → Generates (seen_points (text_signs r text))
unfolding text_signs
text-Generates r text = seen_points-Generates (text_signs r text) (ground arith)

size-Generates :
    (r : Reading) (body : Dict Json) (n : ℕ) → Generates (seen_points (size_signs r body n))
unfolding size_signs
size-Generates r body n = seen_points-Generates (size_signs r body n) (ground arith)

pub points-Generates :
    (r : Reading) (body : Dict Json) (g : String × ℕ) → Generates (points_of r body g)
unfolding points_of
points-Generates r body (text, n) =
    All-append _ (seen_points (structure_signs body)) _ (structure-Generates body) (
      All-append _ (if is_text text then seen_points (text_signs r text) else []) _
        (if-Generates (is_text text) (seen_points (text_signs r text)) [] (text-Generates r text)
          tt)
        (size-Generates r body n))

-- A dimension of generation, or one with no points.
abbrev Fair : String × ℕ → Type 0
Fair s = (elem s.0 generation_dimensions ≡ true) ⊎ (s.1 ≡ 0)

put-Fair :
    (s : Dict ℕ) (d : String) (n : ℕ)
    → All Fair s
    → elem d generation_dimensions ≡ true
    → All Fair (put s d n)
put-Fair [] d n h e = (inl e, tt)
put-Fair ((j, w) ∷ s) d n h e = elim (Bool-cases (j == d)) [
  | inl y ↦ rw y (inl (rw ((eq_iff j d).0 y) e), h.1)
  | inr y ↦ rw y (h.0, put-Fair s d n h.1 e)
]

add_points-Fair :
    (ps : Points) (s : Dict ℕ) → All Fair s → Generates ps → All Fair (add_points s ps)
unfolding add_points
add_points-Fair [] s h g = h
add_points-Fair ((d, n) ∷ ps) s h g = add_points-Fair ps _ (put-Fair s d _ h g.0) g.1

start-Fair : All Fair start_scores
unfolding start_scores
start-Fair = (
  inl refl,
  (
    inl refl,
    (
      inl refl,
      (
        inl refl,
        (
          inl refl,
          (
            inl refl,
            (inl refl, (inl refl, (inl refl, (inl refl, (inl refl, (inl refl, (inr refl, tt))))))),
          ),
        ),
      ),
    ),
  ),
)

abbrev Listed : String × ℕ → Type 0
Listed s = (elem s.0 generation_dimensions ≡ true) × (0 < s.1)

entry-Listed : (s : String × ℕ) → Fair s → ltb 0 s.1 ≡ true → Listed s
entry-Listed (j, w) (inl e) y = (e, ground arith)
entry-Listed (j, w) (inr e) y = absurd (ground arith)

positive-Listed : (s : Dict ℕ) → All Fair s → All Listed (positive s)
positive-Listed [] h = tt
positive-Listed ((j, w) ∷ s) h = elim (Bool-cases (ltb 0 w)) [
  | inl y ↦ rw y (entry-Listed (j, w) h.0 y, positive-Listed s h.1)
  | inr y ↦ rw y (positive-Listed s h.1)
]

module _ {ℓ} {F : Type ℓ} (share : ℕ → ℕ → F) where
  scores-Listed :
      (r : Reading) (body : Dict Json) (g : String × ℕ) → All Listed (positive (scores_of r body g))
  unfolding scores_of
  scores-Listed r body g =
      positive-Listed _
        (add_points-Fair (points_of r body g) start_scores start-Fair (points-Generates r body g))

  entries-ne :
      (f : ℕ → F) (s : Dict ℕ)
      → All Listed s
      → has_key (map (λ p. (p.0, f p.1)) s) "embedding" ≡ false
  entries-ne f [] h = refl
  entries-ne f ((j, w) ∷ s) h = elim (Bool-cases (j == "embedding")) [
    | inl y ↦ absurd (ground (arith, rw ((eq_iff j "embedding").0 y) at (h.0.0)))
    | inr y ↦ rw (y, has_key) (entries-ne f s h.1)
  ]

  normalized-ne :
      (r : Reading) (body : Dict Json) (o : Option (String × ℕ)) (job : Dict F)
      → map_option (λ g. normalized share (scores_of r body g)) o ≡ some job
      → has_key job "embedding" ≡ false
  unfolding normalized
  normalized-ne r body none job h = absurd (ground arith)
  normalized-ne r body (some g) job h =
      subst (λ d. has_key d "embedding" ≡ false) (some-injective _ _ h)
        (entries-ne (λ n. share n (sum_scores (scores_of r body g))) (positive (scores_of r body g))
          (scores-Listed r body g))

  -- The job has "embedding" exactly when the path is one for embeddings.
  pub classify_request-embedding :
      (r : Reading) (path : String) (body : Dict Json) (job : Dict F)
      → classify_request share r path body ≡ some job
      → has_key job "embedding" ≡ is_embedding_path path
  unfolding classify_request
  classify_request-embedding r path body job h = elim (Bool-cases (is_embedding_path path)) [
    | inl y ↦ rw y (subst (λ d. has_key d "embedding" ≡ true) (some-injective _ _ (rw y at h)) refl)
    | inr n ↦ rw n (normalized-ne r body (gather_text body) job (rw n at h))
  ]
