-- ===== src/Benchmarks/Cache.antt =====
-- router/benchmarks.py: how often the providers are asked for the records of a model.
mod Examples
use local_engine_router.Common.{
  ℕ, ◌-◌, ◌≡◌, ◌∙◌, refl, sym, ap, arith, eq_iff, eq_refl, subst, String, Option, none, some, Bool,
  true, false, List, [], ◌∷◌, ◌++◌, Dict, get, put, get-put, elem, ltb, Bool-cases, Option-cases,
  inl, inr, if◌then◌else◌, ◌&&◌, ◌==◌,
}
use local_engine_router.Json.{is_text}
use local_engine_router.Benchmarks.{
  Benchmark, CacheEntry, BenchmarkStore, Named, Provider, is_expired, fetch_and_cache,
  note_spelling, lookup_entry, records_for, keep_best, best_priors,
}

-- The entry under the id has these records, and entries do not expire.
abbrev Holds : BenchmarkStore → String → List Benchmark → Type 0
Holds s id records =
    (e : CacheEntry) × (get s.cache id ≡ some e) × (e.records ≡ records) × (s.cache_ttl_s ≡ 0)

module _ (providers : List Provider) (identity_of : String → Named) where
  fetched-Holds :
      (s : BenchmarkStore) (now : ℕ) (i : Named)
      → s.cache_ttl_s ≡ 0
      → Holds
          (fetch_and_cache providers identity_of s now i).0
          i.canonical
          (fetch_and_cache providers identity_of s now i).1
  unfolding fetch_and_cache
  fetched-Holds s now i z = (_, get_self s.cache i.canonical _, refl, z)
    where
      get_self : (d : Dict CacheEntry) (k : String) (e : CacheEntry) → get (put d k e) k ≡ some e
      get_self d k e = ground (arith, get-put d k k e, eq_refl k)

  noted-Holds :
      (s : BenchmarkStore) (i : Named) (e : CacheEntry)
      → s.cache_ttl_s ≡ 0
      → get s.cache i.canonical ≡ some e
      → Holds (note_spelling providers identity_of s i e) i.canonical e.records
  unfolding note_spelling
  noted-Holds s i e z h = elim (Bool-cases (elem i.raw e.raw_ids)) [
    | inl y ↦ rw y (e, h, refl, z)
    | inr n ↦ rw n (
      record e { raw_ids = e.raw_ids ++ i.raw ∷ [] },
      ground (
        arith,
        eq_refl i.canonical,
        get-put s.cache i.canonical i.canonical (record e { raw_ids = e.raw_ids ++ i.raw ∷ [] }),
      ),
      refl,
      z,
    )
  ]

  looked-Holds :
      (s : BenchmarkStore) (now : ℕ) (i : Named) (o : Option CacheEntry)
      → s.cache_ttl_s ≡ 0
      → get s.cache i.canonical ≡ o
      → Holds
          (lookup_entry providers identity_of s now i o).0
          i.canonical
          (lookup_entry providers identity_of s now i o).1
  unfolding lookup_entry
  looked-Holds s now i none z h = fetched-Holds s now i z
  looked-Holds s now i (some e) z h = elim (Bool-cases (is_expired s now e)) [
    | inl y ↦ rw y (fetched-Holds s now i z)
    | inr n ↦ rw n (noted-Holds s i e z h)
  ]

put-Holds :
    (s : BenchmarkStore) (id j : String) (records : List Benchmark) (e : CacheEntry)
    → (j == id) ≡ false
    → Holds s id records
    → Holds (record s { cache = put s.cache j e; dirty = true }) id records
put-Holds s id j records e other (f, h, same, z) =
    (f, ground (arith, h, other, get-put s.cache j id e), same, z)

lasting :
    (s : BenchmarkStore) (now : ℕ) (e : CacheEntry) → s.cache_ttl_s ≡ 0 → is_expired s now e ≡ false
unfolding is_expired
lasting s now e z = rw z refl

-- A lookup: what the providers would say, the time and the id that is looked up.
pub record Lookup : Type 0 where
  pub asked : List Provider
  pub at : ℕ
  pub model : String

module _ (identity_of : String → Named) where
  -- The store after lookups in turn.
  unfoldable pub after_lookups : BenchmarkStore → List Lookup → BenchmarkStore
  after_lookups s [] = s
  after_lookups s (l ∷ ls) = after_lookups (records_for l.asked identity_of s l.at l.model).0 ls

  noted_other-Holds :
      (ps : List Provider) (s : BenchmarkStore) (i : Named) (e : CacheEntry) (id : String)
      (records : List Benchmark)
      → (i.canonical == id) ≡ false
      → Holds s id records
      → Holds (note_spelling ps identity_of s i e) id records
  unfolding note_spelling
  noted_other-Holds ps s i e id records other h = elim (Bool-cases (elem i.raw e.raw_ids)) [
    | inl y ↦ rw y h
    | inr n ↦ rw n (put-Holds s id i.canonical records _ other h)
  ]

  other-Holds :
      (ps : List Provider) (s : BenchmarkStore) (now : ℕ) (i : Named) (o : Option CacheEntry)
      (id : String) (records : List Benchmark)
      → (i.canonical == id) ≡ false
      → Holds s id records
      → Holds (lookup_entry ps identity_of s now i o).0 id records
  unfolding lookup_entry fetch_and_cache
  other-Holds ps s now i none id records other h = put-Holds s id i.canonical records _ other h
  other-Holds ps s now i (some e) id records other h = elim (Bool-cases (is_expired s now e)) [
    | inl y ↦ rw y (put-Holds s id i.canonical records _ other h)
    | inr n ↦ rw n (noted_other-Holds ps s i e id records other h)
  ]

  own-Holds :
      (ps : List Provider) (s : BenchmarkStore) (now : ℕ) (i : Named) (records : List Benchmark)
      → Holds s i.canonical records
      → Holds (lookup_entry ps identity_of s now i (get s.cache i.canonical)).0 i.canonical records
  unfolding lookup_entry
  own-Holds ps s now i records (e, h, same, z) =
      rw (h, lasting s now e z)
        (subst (λ x. Holds (note_spelling ps identity_of s i e) i.canonical x) same
          (noted-Holds ps identity_of s i e z h))

  records_for-Holds :
      (ps : List Provider) (s : BenchmarkStore) (now : ℕ) (m id : String) (records : List Benchmark)
      → Holds s id records
      → Holds (records_for ps identity_of s now m).0 id records
  unfolding records_for
  records_for-Holds ps s now m id records h = elim (Bool-cases ((identity_of m).canonical == id)) [
    | inl same ↦
        let e : (identity_of m).canonical ≡ id = (eq_iff _ id).0 same in
        subst (λ x. Holds (records_for ps identity_of s now m).0 x records) e
          (own-Holds ps s now (identity_of m) records (subst (λ x. Holds s x records) (sym e) h))
    | inr other ↦ other-Holds ps s now (identity_of m) _ id records other h
  ]

  after_lookups-Holds :
      (s : BenchmarkStore) (ls : List Lookup) (id : String) (records : List Benchmark)
      → Holds s id records
      → Holds (after_lookups s ls) id records
  unfolding after_lookups
  after_lookups-Holds s [] id records h = h
  after_lookups-Holds s (l ∷ ls) id records h =
      after_lookups-Holds (records_for l.asked identity_of s l.at l.model).0 ls id records
        (records_for-Holds l.asked s l.at l.model id records h)

held_records :
    (providers : List Provider) (identity_of : String → Named) (s : BenchmarkStore) (now : ℕ)
    (i : Named) (records : List Benchmark)
    → Holds s i.canonical records
    → (lookup_entry providers identity_of s now i (get s.cache i.canonical)).1 ≡ records
unfolding lookup_entry is_expired
held_records providers identity_of s now i records (e, h, same, z) = rw (h, z) same

-- Where entries do not expire, the records of a model are settled by its first lookup: whatever lookups
-- of this and of other models come in between, and whatever the providers would say by then, every
-- spelling of the same canonical id is answered what `records_for` has answered for the first one.
pub records_for-once :
    (providers others : List Provider) (identity_of : String → Named) (s : BenchmarkStore)
    (between : List Lookup) (now later : ℕ) (m n : String)
    → s.cache_ttl_s ≡ 0
    → (identity_of m).canonical ≡ (identity_of n).canonical
    → (records_for others identity_of
        (after_lookups identity_of (records_for providers identity_of s now m).0 between)
        later
        n).1
      ≡ (records_for providers identity_of s now m).1
unfolding records_for
records_for-once providers others identity_of s between now later m n z e =
    held_records others identity_of _ later (identity_of n) _ (
      after_lookups-Holds identity_of _ between _ _ (
        rw (← e) (
          looked-Holds providers identity_of s now (identity_of m)
            (get s.cache (identity_of m).canonical) z refl)))
