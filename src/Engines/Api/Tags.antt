-- ===== src/Engines/Api/Tags.antt =====
-- The cached lists of model ids: `available_tags` of `APISwapEngine` and `OllamaEngine`, and
-- `available_models` of `GenericProcessEngine`, called one after the other. The clock is in milliseconds.
-- That `load_model` drops the cache, and calls that overlap at the await, are left out.
use local_engine_router.Common.{
  ℕ, ◌+◌, ◌≤◌, ◌≡◌, refl, arith, Bool, true, false, List, [], ◌∷◌, String, Option, none, some,
  if◌then◌else◌, ltb, eqb, get, ◌⊎◌, inl, inr, Bool-cases,
}
use local_engine_router.Json.{Json, str, obj, null, fields, is_text}
use local_engine_router.Engines.StartCmd.{set_add}
use local_engine_router.Engines.Listing.{iterated}

-- When the ids were read, and the ids
abbrev pub Cache : Type 0
Cache = Option (ℕ × List String)

-- What a call answers, the cache after it, and whether it asked the engine
pub record Told : Type 0 where
  pub ids : List String
  pub cache : Cache
  pub asked : Bool

-- now - self._tags_cache[0] < ttl
abbrev pub fresh_ids : ℕ → ℕ → Cache → Option (List String)
fresh_ids ttl now none = none
fresh_ids ttl now (some (t, ids)) = if ltb now (t + ttl) then some ids else none

from_cache : Cache → Told → Option (List String) → Told
from_cache c told none = told
from_cache c told (some ids) = record { ids = ids; cache = c; asked = false }

stored : ℕ → List String → Told
stored now ids = record { ids = ids; cache = some (now, ids); asked = true }

-- APISwapEngine.available_tags
unfoldable pub available_tags : ℕ → ℕ → Cache → List String → Told
unfolding from_cache stored
available_tags ttl now c names = from_cache c (stored now names) (fresh_ids ttl now c)

-- if isinstance(model_id, str) and model_id: ids.add(model_id)
abbrev pub add_id : List String → Option Json → List String
add_id ids (some (str s)) = if is_text s then set_add ids s else ids
add_id ids v = ids

abbrev pub add_entries : List String → List Json → List String
add_entries ids [] = ids
add_entries ids (obj fs ∷ es) = add_entries (add_id ids (get (fields fs) "id")) es
add_entries ids (e ∷ es) = add_entries ids es

-- for entry in data.get("data", []) or []; a TypeError or an AttributeError leaves no ids
abbrev pub entries_or_none : Option (List Json) → List String
entries_or_none none = []
entries_or_none (some es) = add_entries [] es

abbrev pub or_null : Option Json → Json
or_null none = null
or_null (some v) = v

abbrev pub ids_in : Json → List String
ids_in (obj fs) = entries_or_none (iterated (or_null (get (fields fs) "data")))
ids_in v = []

-- The answer of /v1/models: its status, and its body where that is JSON; none is a failed request
abbrev pub Answer : Type 0
Answer = Option (ℕ × Option Json)

listed_ids : Bool → Answer → List String
listed_ids ready none = []
listed_ids ready (some (code, none)) = []
listed_ids ready (some (code, some v)) =
    if ready then (if eqb code 200 then ids_in v else []) else []

-- GenericProcessEngine.available_models
unfoldable pub available_models : ℕ → ℕ → Cache → (ready : Bool) → Answer → Told
unfolding from_cache stored listed_ids
available_models ttl now c ready a =
    from_cache c (stored now (listed_ids ready a)) (fresh_ids ttl now c)

-- return self._tags_cache[1] if self._tags_cache else set()
abbrev pub stale_ids : Cache → List String
stale_ids none = []
stale_ids (some (t, ids)) = ids

ollama_told : ℕ → Cache → Option (List String) → Told
unfolding stored
ollama_told now c none = record { ids = stale_ids c; cache = c; asked = true }
ollama_told now c (some tags) = stored now tags

-- OllamaEngine.available_tags; none is a failed request
unfoldable pub ollama_tags : ℕ → ℕ → Cache → Option (List String) → Told
unfolding from_cache ollama_told
ollama_tags ttl now c a = from_cache c (ollama_told now c a) (fresh_ids ttl now c)

-- The times at which a sequence of calls asks the engine
abbrev pub asks : {A : Type 0} → (ℕ → Cache → A → Told) → Cache → List (ℕ × A) → List ℕ
asks call c [] = []
asks call c ((now, a) ∷ rest) =
    let later = asks call (call now c a).cache rest in
    if (call now c a).asked then now ∷ later else later

-- None before the first bound, and each a ttl after the one before
abbrev pub IsSpaced : ℕ → ℕ → List ℕ → Type 0
IsSpaced ttl since [] = Unit
IsSpaced ttl since (t ∷ ts) = (since ≤ t) × IsSpaced ttl (t + ttl) ts

abbrev since : ℕ → Cache → ℕ
since ttl none = 0
since ttl (some (t, ids)) = t + ttl

-- What a call does to a cache: it keeps a fresh_ids one, or asks when it is old and stamps the answer.
Renews : {A : Type 0} → ℕ → (ℕ → Cache → A → Told) → Type 0
Renews {A} ttl call =
    (now : ℕ) (c : Cache) (a : A)
    → (((call now c a).asked ≡ false) × ((call now c a).cache ≡ c))
      ⊎ (((call now c a).asked ≡ true)
          × (since ttl c ≤ now)
          × ((ids : List String) × ((call now c a).cache ≡ some (now, ids))))

asks-Spaced_of :
    {A : Type 0} (ttl : ℕ) (call : ℕ → Cache → A → Told) (c : Cache) (calls : List (ℕ × A))
    → Renews ttl call
    → IsSpaced ttl (since ttl c) (asks call c calls)
unfolding Renews
asks-Spaced_of ttl call c [] r = tt
asks-Spaced_of ttl call c ((now, a) ∷ rest) r = elim (r now c a) [
  | inl (quiet, kept) ↦ rw quiet (rw kept (asks-Spaced_of ttl call c rest r))
  | inr (loud, old, (ids, e)) ↦
      rw loud (rw e (old, asks-Spaced_of ttl call (some (now, ids)) rest r))
]

cached_or_stored :
    (ttl now : ℕ) (c : Cache) (ids : List String)
    → let r = from_cache c (stored now ids) (fresh_ids ttl now c) in
      ((r.asked ≡ false) × (r.cache ≡ c))
      ⊎ ((r.asked ≡ true)
          × (since ttl c ≤ now)
          × ((kept : List String) × (r.cache ≡ some (now, kept))))
unfolding from_cache stored
cached_or_stored ttl now none ids = inr (refl, omega arith, (ids, refl))
cached_or_stored ttl now (some (t, old)) ids = elim (Bool-cases (ltb now (t + ttl))) [
  | inl young ↦ rw young (inl (refl, refl))
  | inr late ↦ rw late (inr (refl, ground arith, (ids, refl)))
]

-- Called one after the other, with no `load_model` between that drops the cache,
-- APISwapEngine.available_tags and GenericProcessEngine.available_models ask the engine no more than
-- once in each time to live, and not before their cache has expired, whatever the engine answers.
pub asks-IsSpaced :
    (ttl : ℕ) (c : Cache) (named : List (ℕ × List String)) (answered : List (ℕ × (Bool × Answer)))
    → IsSpaced ttl (since ttl c) (asks (available_tags ttl) c named)
      × IsSpaced ttl (since ttl c) (asks (λ now d a. available_models ttl now d a.0 a.1) c answered)
unfolding Renews available_tags available_models
asks-IsSpaced ttl c named answered = (
  asks-Spaced_of ttl (available_tags ttl) c named (λ now d names. cached_or_stored ttl now d names),
  asks-Spaced_of ttl (λ now d a. available_models ttl now d a.0 a.1) c answered
      (λ now d a. cached_or_stored ttl now d (listed_ids a.0 a.1)),
)
