-- ===== src/Routing/Explain.antt =====
-- `explain_model` against `engine_for` (router/engines.py), and the branch of `engine_for` that never
-- decides.
use local_engine_router.Common.{
  ◌≡◌, ◌≢◌, refl, String, Option, none, some, true, false, List, [], ◌∷◌, Dict, get, put, get-put,
  any_of, ◌==◌, ◌&&◌, arith, Option-cases, inl, inr, ◌⊎◌,
}
use local_engine_router.Routing.{
  ModelSpec, Table, Kind, api_swap, Route, ok, err, build_model_index, add_specs, resolve_model_id,
  fixed_owner, unlisted_owner, engine_for, explain_model,
}

add_specs-none :
    (specs : List ModelSpec) (index : Dict ModelSpec) (m : String)
    → get (add_specs index specs) m ≡ none
    → (get index m ≡ none) × (any_of (λ s. s.id == m) specs ≡ false)
unfolding add_specs
add_specs-none [] index m e = (e, refl)
add_specs-none (spec ∷ specs) index m e =
    let (a, b) = add_specs-none specs (put index spec.id spec) m e in
    ground (arith, a, b, get-put index spec.id m spec)

any_of-weaken :
    (k m : String) (specs : List ModelSpec)
    → any_of (λ s. s.id == m) specs ≡ false
    → any_of (λ s. s.engine == k && s.id == m) specs ≡ false
any_of-weaken k m [] e = refl
any_of-weaken k m (spec ∷ specs) e = ground (arith, any_of-weaken k m specs)

fixed_owner-none :
    (es : Dict Kind) (specs : List ModelSpec) (m : String)
    → any_of (λ s. s.id == m) specs ≡ false
    → fixed_owner es specs m ≡ none
unfolding fixed_owner
fixed_owner-none [] specs m e = refl
fixed_owner-none ((k, api_swap) ∷ es) specs m e = fixed_owner-none es specs m e
fixed_owner-none ((k, kind) ∷ es) specs m e =
    ground (arith, fixed_owner-none es specs m e, any_of-weaken k m specs e)

-- An id that the static registry does not hold is never routed by the loop over the process engines'
-- fixed ids: that branch of `engine_for` cannot decide.
pub fixed_owner-unlisted :
    (t : Table) (m : String)
    → get (build_model_index t.models) m ≡ none
    → fixed_owner t.engines t.models m ≡ none
unfolding build_model_index
fixed_owner-unlisted t m e =
    fixed_owner-none t.engines t.models m (add_specs-none t.models [] m e).1

-- What `ModelCatalog.rebuild` and the configuration give for the id `m`, with discovery on.
pub record IsCoherent (t : Table) (m : String) : Type 0 where
  -- every owner in the catalog is an engine
  pub owners_known : (x k : String) → get t.owners x ≡ some k → get t.engines k ≢ none
  -- the entry of an alias has its target's engine
  pub alias_owner :
      (get t.owners m ≡ none) ⊎ (get t.owners m ≡ get t.owners (resolve_model_id t.aliases m))
  -- what is discovered is in the catalog
  pub discovered_owned :
      get t.owners (resolve_model_id t.aliases m) ≡ none
      → get t.discovered (resolve_model_id t.aliases m) ≡ none
  -- no static model is at a disabled engine
  pub static_known :
      (spec : ModelSpec)
      → get (build_model_index t.models) (resolve_model_id t.aliases m) ≡ some spec
      → get t.engines spec.engine ≢ none

abbrev pub engine_of : Route → Option String
engine_of (ok k) = some k
engine_of (err e) = none

explain-unlisted :
    (t : Table) (m : String)
    → t.discover_enabled ≡ true
    → (m == "") ≡ false
    → IsCoherent t m
    → get (build_model_index t.models) (resolve_model_id t.aliases m) ≡ none
    → explain_model t (some m) ≡ some (engine_of (engine_for t (some m)))
unfolding explain_model engine_for unlisted_owner
explain-unlisted t m on n c e = elim (Option-cases (get t.owners (resolve_model_id t.aliases m))) [
  | inl free ↦ ground (
    arith,
    fixed_owner-unlisted t (resolve_model_id t.aliases m) e,
    c.alias_owner,
    c.discovered_owned free,
  )
  | inr (k, owned) ↦
      ground (arith, c.alias_owner, c.owners_known (resolve_model_id t.aliases m) k owned)
]

explain-listed :
    (t : Table) (m : String) (spec : ModelSpec)
    → (m == "") ≡ false
    → IsCoherent t m
    → get (build_model_index t.models) (resolve_model_id t.aliases m) ≡ some spec
    → explain_model t (some m) ≡ some (engine_of (engine_for t (some m)))
unfolding explain_model engine_for
explain-listed t m spec n c e = ground (arith, c.static_known spec e)

-- With discovery on and a coherent catalog, `explain_model` names for a model id that is not empty
-- exactly the engine that `engine_for` routes it to, and none where `engine_for` fails.
pub explain-engine_for :
    (t : Table) (m : String)
    → t.discover_enabled ≡ true
    → (m == "") ≡ false
    → IsCoherent t m
    → explain_model t (some m) ≡ some (engine_of (engine_for t (some m)))
explain-engine_for t m on n c =
    elim (Option-cases (get (build_model_index t.models) (resolve_model_id t.aliases m))) [
      | inl e ↦ explain-unlisted t m on n c e
      | inr (spec, e) ↦ explain-listed t m spec n c e
    ]
