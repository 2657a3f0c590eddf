-- ===== src/Benchmarks.antt =====
-- router/benchmarks.py, `BenchmarkStore`: the cache of records by canonical id. `identity_of` is
-- `identify` with the canonical id, the id as it is given and its quantisation; scores and confidences
-- are in ten-thousandths; the providers that may be asked are given by what they answer, with none where
-- one raises.
pub mod Cache
use local_engine_router.Common.{
  ℕ, ◌+◌, ◌-◌, ◌≡◌, String, Option, none, some, Bool, true, false, List, [], ◌∷◌, ◌++◌, map, Dict,
  get, put, pop, elem, length, ltb, if◌then◌else◌, ◌&&◌, ◌||◌, not, ◌==◌,
}
use local_engine_router.Json.{is_text}

-- BenchmarkRecord, as far as the store reads it
pub record Benchmark : Type 0 where
  pub source : String
  pub capability : String
  pub score : ℕ
  pub confidence : ℕ

-- _CacheEntry
pub record CacheEntry : Type 0 where
  pub records : List Benchmark
  pub fetched_at : ℕ
  pub raw_ids : List String

pub record BenchmarkStore : Type 0 where
  pub allow_network : Bool
  pub cache_ttl_s : ℕ
  pub cache : Dict CacheEntry
  pub dirty : Bool

-- What the store reads of a ModelIdentity, with the penalty of its quantisation.
pub record Named : Type 0 where
  pub raw : String
  pub canonical : String
  pub penalty : ℕ

pub record Provider : Type 0 where
  pub requires_network : Bool
  pub fetch : Named → Option (List Benchmark)

-- _expired
unfoldable pub is_expired : BenchmarkStore → ℕ → CacheEntry → Bool
is_expired s now e = ltb 0 s.cache_ttl_s && ltb s.cache_ttl_s (now - e.fetched_at)

abbrev or_no_records : Option (List Benchmark) → List Benchmark
or_no_records none = []
or_no_records (some rs) = rs

-- The records of every provider that may be asked, in their order.
unfoldable pub fetch_all : Bool → List Provider → Named → List Benchmark
fetch_all allow [] i = []
fetch_all allow (p ∷ ps) i =
    let rest = fetch_all allow ps i in
    if p.requires_network && not allow then rest else or_no_records (p.fetch i) ++ rest

module _ (providers : List Provider) (identity_of : String → Named) where
  -- _fetch_and_cache
  unfoldable pub fetch_and_cache : BenchmarkStore → ℕ → Named → BenchmarkStore × List Benchmark
  unfolding fetch_all
  fetch_and_cache s now i =
      let records : List Benchmark = fetch_all s.allow_network providers i in
      (
        record s {
          cache = put s.cache i.canonical (record {
            records = records;
            fetched_at = now;
            raw_ids = if is_text i.raw then i.raw ∷ [] else [];
          });
          dirty = true;
        },
        records,
      )

  -- The entry with this spelling among those seen, in the store.
  note_spelling : BenchmarkStore → Named → CacheEntry → BenchmarkStore
  note_spelling s i e = if elem i.raw e.raw_ids then s else record s {
    cache = put s.cache i.canonical (record e { raw_ids = e.raw_ids ++ i.raw ∷ [] });
    dirty = true;
  }

  lookup_entry : BenchmarkStore → ℕ → Named → Option CacheEntry → BenchmarkStore × List Benchmark
  unfolding fetch_and_cache note_spelling is_expired
  lookup_entry s now i none = fetch_and_cache s now i
  lookup_entry s now i (some e) =
      if is_expired s now e then fetch_and_cache s now i else (note_spelling s i e, e.records)

  -- records_for
  unfoldable pub records_for : BenchmarkStore → ℕ → String → BenchmarkStore × List Benchmark
  unfolding lookup_entry
  records_for s now m = lookup_entry s now (identity_of m) (get s.cache (identity_of m).canonical)

  -- out[capability], where the record is the first or more confident than the best so far
  keep_best : ℕ → Dict (ℕ × ℕ) → Benchmark → Dict (ℕ × ℕ)
  keep_best penalty out r = elim (get out r.capability) [
    | none ↦ put out r.capability (r.score - penalty, r.confidence)
    | some (score, confidence) ↦
        if ltb confidence r.confidence
        then put out r.capability (r.score - penalty, r.confidence)
        else out
  ]

  unfoldable pub best_priors : ℕ → Dict (ℕ × ℕ) → List Benchmark → Dict (ℕ × ℕ)
  unfolding keep_best
  best_priors penalty out [] = out
  best_priors penalty out (r ∷ rs) = best_priors penalty (keep_best penalty out r) rs

  -- priors_for
  unfoldable pub priors_for : BenchmarkStore → ℕ → String → BenchmarkStore × Dict (ℕ × ℕ)
  unfolding records_for best_priors
  priors_for s now m =
      let (s', records) = records_for s now m in
      (s', best_priors (identity_of m).penalty [] records)

  max_confidence : List Benchmark → ℕ → ℕ
  max_confidence [] c = c
  max_confidence (r ∷ rs) c = max_confidence rs (if ltb c r.confidence then r.confidence else c)

  -- match_confidence
  unfoldable pub match_confidence : BenchmarkStore → ℕ → String → BenchmarkStore × ℕ
  unfolding records_for max_confidence
  match_confidence s now m =
      let (s', records) = records_for s now m in (s', max_confidence records 0)

  refresh_one : BenchmarkStore → ℕ → Named → BenchmarkStore
  unfolding fetch_and_cache
  refresh_one s now i = (fetch_and_cache (record s { cache = pop s.cache i.canonical }) now i).0

  refresh_all : BenchmarkStore → ℕ → List Named → BenchmarkStore
  unfolding refresh_one
  refresh_all s now [] = s
  refresh_all s now (i ∷ is) = refresh_all (refresh_one s now i) now is

  abbrev cached_ids : Dict CacheEntry → List String
  cached_ids d = map (λ e. e.0) d

  abbrev or_cached : BenchmarkStore → Option (List String) → List String
  or_cached s none = cached_ids s.cache
  or_cached s (some ms) = ms

  -- refresh, of the given ids or of every id that is cached; the answer has their canonical ids
  unfoldable pub refresh : BenchmarkStore → ℕ → Option (List String) → BenchmarkStore × List String
  unfolding refresh_all
  refresh s now ms =
      let identities : List Named = map identity_of (or_cached s ms) in
      (refresh_all s now identities, map (λ (i : Named). i.canonical) identities)

  -- clear, of one id or of all; the answer is the number of entries dropped
  unfoldable pub clear : BenchmarkStore → Option String → BenchmarkStore × ℕ
  clear s none =
      (record s { cache = []; dirty = ltb 0 (length s.cache) || s.dirty }, length s.cache)
  clear s (some m) = elim (get s.cache (identity_of m).canonical) [
    | none ↦ (s, 0)
    | some e ↦ (record s { cache = pop s.cache (identity_of m).canonical; dirty = true }, 1)
  ]
