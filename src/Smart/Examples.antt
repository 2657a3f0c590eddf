-- ===== src/Smart/Examples.antt =====
-- Three candidates in hundredths, two of them on the active engine, run through router/smart.py,
-- `_decide`, and the health of a model after three failures.
use local_engine_router.Common.{
  ◌≡◌, ◌≤◌, ◌+◌, ◌-◌, ◌*◌, ◌/◌, refl, arith, ℕ, String, none, some, true, false, List, [], ◌∷◌,
  ◌==◌, All, ltb, length, if◌then◌else◌,
}
use local_engine_router.Smart.Candidates.{Claim, Sources, enumerate_candidates}
use local_engine_router.Smart.Checks.{Timeouts}
use local_engine_router.Smart.Floats.{Floats}
use local_engine_router.Smart.Health.{
  RetryConfig, Outcome, succeeds, fails, after, unseen, streak, cooldown_end, in_cooldown,
  health_of, in_cooldown-after,
}
use local_engine_router.Smart.Pick.{
  Scored, Facts, Settings, Decision, score_all, viable_of, sort, first_resident, decide, is_same,
}
use local_engine_router.Smart.Pick.Fits.{LetIn}
use local_engine_router.Smart.Pick.Swap.{IsWorthSwap, decide-IsWorthSwap}
use local_engine_router.Smart.Pick.Fallbacks.{IsFallback, decide-fallbacks}

pub ltb_asym : (a b : ℕ) → ltb a b ≡ true → ltb b a ≡ false
ltb_asym a b e = ground arith

pub ltb_le_trans : (a b c : ℕ) → ltb b a ≡ false → ltb c b ≡ false → ltb c a ≡ false
ltb_le_trans a b c e f = ground arith

-- Hundredths of whole numbers.
abbrev pub hundredths : Floats
hundredths = record {
  F = ℕ;
  lt = ltb;
  add = λ a b. a + b;
  sub = λ a b. a - b;
  mul = λ a b. (a * b) / 100;
  div = λ a b. (100 * a) / b;
  log10 = λ a. a;
  ratio = λ a b. (100 * a) / b;
  lt_asym = ltb_asym;
  le_trans = ltb_le_trans;
}

abbrev facts : String → Facts hundredths
facts m = record {
  smart_enabled = true;
  shape_reason = none;
  context_reason = none;
  cooling = false;
  score = if "big" == m then 90 else if "small" == m then 40 else 30;
  swap_cost = 20;
  match_confidence = 80;
}

abbrev pub settings : Settings hundredths
settings = record { swap_margin = 10; min_confidence = 35; max_fallbacks = 2 }

abbrev candidates : List (String × String)
candidates = ("big", "vllm") ∷ ("other", "ollama") ∷ ("small", "ollama") ∷ []

abbrev small : Scored hundredths
small = record {
  model = "small";
  engine = "ollama";
  total = 40;
  swap_cost_s = 20;
  resident = true;
  excluded = none;
  match_conf = 80;
}

abbrev big : Scored hundredths
big = record {
  model = "big";
  engine = "vllm";
  total = 90;
  swap_cost_s = 20;
  resident = false;
  excluded = none;
  match_conf = 80;
}

abbrev picks_big : Decision hundredths
picks_big = record { pick = big; confidence = 89; fallbacks = "small" ∷ "other" ∷ [] }

decides :
    decide hundredths settings ("vllm" ∷ "ollama" ∷ []) (some "ollama") facts candidates
    ≡ some picks_big
unfolding decide is_same
decides = refl

decide-IsWorthSwap_example :
    IsWorthSwap hundredths settings
      (sort hundredths
        (viable_of hundredths (score_all hundredths (some "ollama") facts candidates)))
      small
      picks_big
unfolding score_all viable_of sort first_resident
decide-IsWorthSwap_example =
    decide-IsWorthSwap hundredths settings ("vllm" ∷ "ollama" ∷ []) (some "ollama") facts candidates
      small picks_big refl decides refl

fallbacks_example :
    (length picks_big.fallbacks ≤ 2)
    × All
        (IsFallback hundredths
          (LetIn hundredths (some "ollama") facts candidates)
          ("vllm" ∷ "ollama" ∷ [])
          big)
        picks_big.fallbacks
fallbacks_example =
    decide-fallbacks hundredths settings ("vllm" ∷ "ollama" ∷ []) (some "ollama") facts candidates
      picks_big decides

abbrev retry : RetryConfig
retry = record { failure_threshold = 2; cooldown = 60000 }

abbrev three_failures : List Outcome
three_failures = fails "c" 3000 3001 ∷ fails "b" 2000 2001 ∷ fails "a" 1000 1001 ∷ succeeds ∷ []

cooldown_example :
    (in_cooldown (after retry unseen "m" three_failures) "m" 5000
      ≡ ltb 5000 (cooldown_end retry three_failures))
    × ((health_of (after retry unseen "m" three_failures).health "m").consecutive_failures
        ≡ streak three_failures)
cooldown_example = in_cooldown-after retry "m" three_failures 5000

-- Two engines claim "qwen".
abbrev claims : List Claim
claims =
    record { key = "vllm"; discover_models = true; ids = "llama" ∷ "qwen" ∷ [] }
    ∷ record { key = "tgi"; discover_models = true; ids = "qwen" ∷ [] }
    ∷ []

-- "fast" is an alias that an engine also serves live.
abbrev pub sources : Sources
sources = record {
  engines = "vllm" ∷ "ollama" ∷ [];
  tags = record { key = "ollama"; discover_models = true; ids = "fast" ∷ "qwen" ∷ [] } ∷ [];
  discovered = [];
  listings = record { id = "fast"; engine = "vllm"; is_alias = true } ∷ [];
  models = record { id = "llama"; engine = "vllm" } ∷ [];
  aliases = "fast" ∷ [];
  smart_aliases = "auto" ∷ [];
  known = λ m. "llama" == m;
}

enumerated : enumerate_candidates sources ≡ ("qwen", "ollama") ∷ ("llama", "vllm") ∷ []
unfolding enumerate_candidates
enumerated = refl

abbrev pub timeouts : String → Timeouts
timeouts k = record { start_timeout_s = 240; load_timeout_s = 0 }
