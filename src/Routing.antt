-- ===== src/Routing.antt =====
-- router/engines.py, `resolve_model_id`, `engine_for` and `explain_model` of `EngineManager`;
-- router/config.py, `build_model_index` and `_validate_aliases`.
pub mod Aliases
pub mod Owners
pub mod Explain
pub mod Examples
use local_engine_router.Common.{
  ℕ, String, Option, none, some, Bool, true, false, List, [], ◌∷◌, length, elem, Dict, get, put,
  eqb, any_of, if◌then◌else◌, ◌==◌, ◌&&◌,
}

-- ModelSpec, as far as routing reads it.
pub record ModelSpec : Type 0 where
  pub id : String
  pub engine : String

-- The classes of router/engines.py; `api_swap` stands for OllamaEngine too, its subclass.
pub data Kind : Type 0 where
  ds4 generic_process api_swap : Kind

-- What routing reads: the configuration, the engine table, the catalog's owners, the discovered index
-- and the tags that each API-swap engine answers.
pub record Table : Type 0 where
  pub models : List ModelSpec
  pub aliases : Dict String
  pub discover_enabled : Bool
  pub engines : Dict Kind
  pub owners : Dict String
  pub discovered : Dict String
  pub tags : String → List String

pub data RouteError : Type 0 where
  missing_model : RouteError
  disabled : String → RouteError
  no_engine : String → RouteError

pub data Route : Type 0 where
  ok : String → Route
  err : RouteError → Route

unfoldable pub add_specs : Dict ModelSpec → List ModelSpec → Dict ModelSpec
add_specs index [] = index
add_specs index (spec ∷ specs) = add_specs (put index spec.id spec) specs

-- build_model_index: a later spec of the same id wins.
unfoldable pub build_model_index : List ModelSpec → Dict ModelSpec
unfolding add_specs
build_model_index models = add_specs [] models

-- resolve_model_id, for an id that is not empty: one hop
unfoldable pub resolve_model_id : Dict String → String → String
resolve_model_id aliases m = elim (get aliases m) [ none ↦ m | some real ↦ real ]

-- The first API-swap engine whose tags hold the model.
unfoldable pub live_owner : Dict Kind → (String → List String) → String → Option String
live_owner [] tags m = none
live_owner ((k, api_swap) ∷ es) tags m = if elem m (tags k) then some k else live_owner es tags m
live_owner ((k, kind) ∷ es) tags m = live_owner es tags m

-- The first process engine that a static model of this id names.
unfoldable pub fixed_owner : Dict Kind → List ModelSpec → String → Option String
fixed_owner [] models m = none
fixed_owner ((k, api_swap) ∷ es) models m = fixed_owner es models m
fixed_owner ((k, kind) ∷ es) models m =
    if any_of (λ s. s.engine == k && s.id == m) models then some k else fixed_owner es models m

unfoldable pub first_api_swap : Dict Kind → Option String
first_api_swap [] = none
first_api_swap ((k, api_swap) ∷ es) = some k
first_api_swap ((k, kind) ∷ es) = first_api_swap es

-- The last resort: the only engine, or else the first API-swap engine.
unfoldable pub fallback : Dict Kind → Option String
unfolding first_api_swap
fallback ((k, kind) ∷ []) = some k
fallback es = first_api_swap es

or_fail : Option String → String → Route
or_fail none m = err (no_engine m)
or_fail (some k) m = ok k

or_else : Option String → Option String → Option String
or_else (some k) next = some k
or_else none next = next

-- `engines.get(key)`, kept only where the key is in the engine table
unfoldable pub known_engine : Dict Kind → Option String → Option String
known_engine es none = none
known_engine es (some k) = elim (get es k) [ none ↦ none | some kind ↦ some k ]

catalog_owner : Table → String → Option String
unfolding known_engine
catalog_owner t m = if t.discover_enabled then known_engine t.engines (get t.owners m) else none

-- What `engine_for` tries for an id that the static registry does not hold, in its order.
unfoldable pub unlisted_owner : Table → String → Option String
unfolding or_else catalog_owner known_engine live_owner fixed_owner fallback
unlisted_owner t m = or_else (catalog_owner t m) (
    or_else (live_owner t.engines t.tags m) (
      or_else (known_engine t.engines (get t.discovered m))
        (or_else (fixed_owner t.engines t.models m) (fallback t.engines))))

static_owner : Table → ModelSpec → Route
static_owner t spec = elim (get t.engines spec.engine) [
  | none ↦ err (disabled spec.engine)
  | some kind ↦ ok spec.engine
]

route_real : Table → String → Option ModelSpec → Route
unfolding static_owner or_fail unlisted_owner
route_real t m (some spec) = static_owner t spec
route_real t m none = or_fail (unlisted_owner t m) m

-- engine_for
unfoldable pub engine_for : Table → Option String → Route
unfolding route_real build_model_index resolve_model_id
engine_for t none = err missing_model
engine_for t (some m) =
    if m == ""
    then err missing_model
    else (let real = resolve_model_id t.aliases m in
        route_real t real (get (build_model_index t.models) real))

-- explain_model: the engine that it names, none where the last entry names none. The catalog is asked
-- for the requested id first, then for the real one.
unfoldable pub explain_model : Table → Option String → Option (Option String)
unfolding build_model_index resolve_model_id or_else live_owner fallback
explain_model t none = none
explain_model t (some m) =
    if m == ""
    then none
    else (let real = resolve_model_id t.aliases m in
        elim (get (build_model_index t.models) real) [
          | some spec ↦ some (some spec.engine)
          | none ↦ some (
              or_else (or_else (get t.owners m) (get t.owners real))
                (or_else (live_owner t.engines t.tags real) (fallback t.engines)))
        ])
