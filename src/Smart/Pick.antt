-- ===== src/Smart/Pick.antt =====
-- router/smart.py, `SmartRouter._decide` from the exclusions on: which candidates are viable, their
-- order, the swap-worth-it rule, the confidence and the fallbacks. What the checks and scores of one
-- candidate answer comes in with it, as its `Facts`.
pub mod Order
pub mod Rules
pub mod Fits
pub mod Swap
pub mod Fallbacks
use Prim.Native.String.{compare}
use Prim.Native.Nat.{Ordering}
use local_engine_router.Common.{
  ℕ, String, Option, none, some, Bool, true, false, List, [], ◌∷◌, map, Dict, get, take, keep_if,
  elem, if◌then◌else◌, ◌==◌, not, ◌&&◌, ◌||◌,
}
use local_engine_router.Smart.Floats.{Floats}

pub data Exclusion : Type 0 where
  -- `_shape_allows` and `_context_fit`, with the reason
  shape context : (reason : String) → Exclusion
  cooldown : Exclusion

module _ (fl : Floats) where
  open fl use {F, lt, add, sub, mul, ratio}

  -- What `_decide` computes for one model: the metadata flag, the reasons to exclude it, and its score.
  pub record Facts : Type 0 where
    pub smart_enabled : Bool
    pub shape_reason : Option String
    pub context_reason : Option String
    pub cooling : Bool
    pub score : F
    pub swap_cost : F
    pub match_confidence : F

  -- ScoredCandidate
  pub record Scored : Type 0 where
    pub model : String
    pub engine : String
    pub total : F
    pub swap_cost_s : F
    pub resident : Bool
    pub excluded : Option Exclusion
    pub match_conf : F

  abbrev pub zero_f : F
  zero_f = ratio 0 1

  -- A candidate without a score.
  ruled_out : String → String → Bool → Exclusion → Scored
  ruled_out m k resident why = record {
    model = m;
    engine = k;
    total = zero_f;
    swap_cost_s = zero_f;
    resident = resident;
    excluded = some why;
    match_conf = zero_f;
  }

  scored_candidate : String → String → Bool → Facts → Scored
  scored_candidate m k resident f = record {
    model = m;
    engine = k;
    total = f.score;
    swap_cost_s = f.swap_cost;
    resident = resident;
    excluded = none;
    match_conf = f.match_confidence;
  }

  check_cooldown : String → String → Bool → Facts → Bool → Scored
  unfolding ruled_out scored_candidate
  check_cooldown m k resident f true = ruled_out m k resident cooldown
  check_cooldown m k resident f false = scored_candidate m k resident f

  check_context : String → String → Bool → Facts → Option String → Scored
  unfolding ruled_out check_cooldown
  check_context m k resident f (some reason) = ruled_out m k resident (context reason)
  check_context m k resident f none = check_cooldown m k resident f f.cooling

  check_shape : String → String → Bool → Facts → Option String → Scored
  unfolding ruled_out check_context
  check_shape m k resident f (some reason) = ruled_out m k resident (shape reason)
  check_shape m k resident f none = check_context m k resident f f.context_reason

  unfoldable pub is_active : Option String → String → Bool
  is_active none k = false
  is_active (some a) k = a == k

  -- One round of the loop over the sorted candidates, which a model with smart_enabled false skips.
  unfoldable pub score_all : Option String → (String → Facts) → List (String × String) → List Scored
  unfolding check_shape is_active
  score_all active facts [] = []
  score_all active facts ((m, k) ∷ cs) =
      let rest = score_all active facts cs in
      if (facts m).smart_enabled
      then check_shape m k (is_active active k) (facts m) (facts m).shape_reason ∷ rest
      else rest

  abbrev pub is_viable : Scored → Bool
  is_viable c = elim c.excluded [ none ↦ true | some why ↦ false ]

  abbrev pub is_cooled : Scored → Bool
  is_cooled c = elim c.excluded [ some cooldown ↦ true | _ ↦ false ]

  -- The least-bad total of a candidate in cooldown.
  unfoldable pub let_through : Scored → Scored
  let_through c = record c {
    total = add (ratio 5 100) (if c.resident then ratio 5 100 else zero_f);
  }

  abbrev pub or_cooled : List Scored → List Scored → List Scored
  or_cooled [] cooled = map let_through cooled
  or_cooled (c ∷ cs) cooled = c ∷ cs

  -- The viable candidates, or, with none, those in cooldown.
  unfoldable pub viable_of : List Scored → List Scored
  viable_of scored = or_cooled (keep_if is_viable scored) (keep_if is_cooled scored)

  -- The key of `viable.sort`: (-total, model)
  unfoldable pub before : Scored → Scored → Bool
  before a b =
      if lt b.total a.total
      then true
      else if lt a.total b.total
      then false
      else elim (compare a.model b.model) [ Ordering.gt ↦ false | _ ↦ true ]

  unfoldable pub insert : Scored → List Scored → List Scored
  unfolding before
  insert c [] = c ∷ []
  insert c (d ∷ ds) = if before c d then c ∷ d ∷ ds else d ∷ insert c ds

  -- viable.sort
  unfoldable pub sort : List Scored → List Scored
  unfolding insert
  sort [] = []
  sort (c ∷ cs) = insert c (sort cs)

  -- next((c for c in viable if c.resident), None)
  unfoldable pub first_resident : List Scored → Option Scored
  first_resident [] = none
  first_resident (c ∷ cs) = if c.resident then some c else first_resident cs

  -- `a is b`: a model stands once in the list, with one engine
  unfoldable pub is_same : Scored → Scored → Bool
  is_same a b = a.model == b.model && a.engine == b.engine

  -- next((c for c in viable if c is not best), None)
  unfoldable pub runner_up : Scored → List Scored → Option Scored
  runner_up best [] = none
  runner_up best (c ∷ cs) = if is_same c best then runner_up best cs else some c

  -- SmartConfig, as far as the choice reads it; `max_fallbacks` is already at least 0
  pub record Settings : Type 0 where
    pub swap_margin : F
    pub min_confidence : F
    pub max_fallbacks : ℕ

  -- The swap-worth-it rule.
  unfoldable pub keep_resident : Settings → Scored → Option Scored → Scored
  keep_resident s best none = best
  keep_resident s best (some res) =
      if not (is_same best res) && not best.resident
      then (if lt (sub best.total res.total) s.swap_margin then res else best)
      else best

  unfoldable pub clamp01 : F → F
  clamp01 x =
      let y : F = if lt x (ratio 1 1) then x else ratio 1 1 in if lt zero_f y then y else zero_f

  gap_of : Scored → Option Scored → F
  gap_of best none = ratio 3 10
  gap_of best (some c) = sub best.total c.total

  -- The separation from the runner-up, times the match quality.
  unfoldable pub confidence_of : List Scored → Scored → F
  unfolding clamp01 gap_of runner_up
  confidence_of viable best = clamp01 (
      mul
        (add (ratio 35 100)
          (mul (clamp01 (mul (gap_of best (runner_up best viable)) (ratio 4 1))) (ratio 65 100)))
        (add (ratio 45 100) (mul (ratio 55 100) best.match_conf)))

  -- The min_confidence rule.
  unfoldable pub keep_if_unsure : Settings → F → Scored → Option Scored → Scored
  keep_if_unsure s confidence best none = best
  keep_if_unsure s confidence best (some res) =
      if lt confidence s.min_confidence && not (is_same best res) then res else best

  pub record Decision : Type 0 where
    pub pick : Scored
    pub confidence : F
    pub fallbacks : List String

  unfoldable pub models_of : List Scored → List String
  models_of [] = []
  models_of (c ∷ cs) = c.model ∷ models_of cs

  unfoldable pub fallbacks_of : Settings → List String → List Scored → Scored → List String
  unfolding models_of
  fallbacks_of s engines viable best =
      take s.max_fallbacks
        (models_of (keep_if (λ c. not (is_same c best) && elem c.engine engines) viable))

  unfoldable pub final_pick : Settings → List Scored → Scored → Scored
  unfolding keep_resident keep_if_unsure confidence_of first_resident
  final_pick s viable first =
      let best : Scored = keep_resident s first (first_resident viable) in
      keep_if_unsure s (confidence_of viable best) best (first_resident viable)

  -- From the sorted viable candidates on.
  unfoldable pub choose : Settings → List String → List Scored → Option Decision
  unfolding final_pick keep_resident keep_if_unsure confidence_of first_resident fallbacks_of
  choose s engines [] = none
  choose s engines (first ∷ rest) =
      let viable : List Scored = first ∷ rest in
      let best : Scored = keep_resident s first (first_resident viable) in
      let pick : Scored = final_pick s viable first in
      some (record {
        pick = pick;
        confidence = confidence_of viable best;
        fallbacks = fallbacks_of s engines viable pick;
      })

  -- `_decide` from its loop on; `candidates` are sorted by model, `engines` the keys of the table
  unfoldable pub decide :
      Settings
      → List String
      → Option String
      → (String → Facts)
      → List (String × String)
      → Option Decision
  unfolding choose sort viable_of score_all
  decide s engines active facts candidates =
      choose s engines (sort (viable_of (score_all active facts candidates)))
