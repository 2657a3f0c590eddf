-- ===== src/Benchmarks/Cache/Examples.antt =====
-- Two spellings of one model, looked up in router/benchmarks.py.
use local_engine_router.Common.{
  List, ◌≡◌, refl, String, none, some, false, [], ◌∷◌, if◌then◌else◌, ◌==◌,
}
use local_engine_router.Benchmarks.{
  Benchmark, BenchmarkStore, Named, Provider, records_for, priors_for, fetch_all, best_priors,
}
use local_engine_router.Benchmarks.Cache.{Lookup, after_lookups, records_for-once}

abbrev named : String → Named
named m =
    if m == "repacked"
    then record { raw = m; canonical = "qwen3-8b"; penalty = 400 }
    else record { raw = m; canonical = m; penalty = 0 }

abbrev sure : Benchmark
sure = record { source = "table"; capability = "coding"; score = 8000; confidence = 9000 }

abbrev guess : Benchmark
guess = record { source = "guess"; capability = "coding"; score = 9900; confidence = 3000 }

abbrev table : Provider
table = record { requires_network = false; fetch = λ i. some (guess ∷ sure ∷ []) }

abbrev failing : Provider
failing = record { requires_network = false; fetch = λ i. none }

abbrev empty_store : BenchmarkStore
empty_store = record { allow_network = false; cache_ttl_s = 0; cache = []; dirty = false }

penalised :
    (priors_for (failing ∷ table ∷ []) named empty_store 5 "repacked").1
    ≡ ("coding", (7600, 9000)) ∷ []
unfolding priors_for records_for fetch_all best_priors
penalised = refl

-- A lookup of another model, which fails, comes in between.
abbrev lookups : List Lookup
lookups = record { asked = failing ∷ []; at = 50; model = "other" } ∷ []

records_for-once_example :
    (records_for
      (failing ∷ [])
      named
      (after_lookups named (records_for (table ∷ []) named empty_store 5 "repacked").0 lookups)
      90
      "qwen3-8b").1
    ≡ (records_for (table ∷ []) named empty_store 5 "repacked").1
records_for-once_example =
    records_for-once (table ∷ []) (failing ∷ []) named empty_store lookups 5 90 "repacked"
      "qwen3-8b" refl refl
