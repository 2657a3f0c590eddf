-- ===== src/Routing/Owners.antt =====
-- What `engine_for` of router/engines.py answers, and how `explain_model` relates to it.
use local_engine_router.Common.{
  ◌≡◌, ◌≢◌, String, Option, none, some, List, [], ◌∷◌, Dict, get, eq_iff, arith,
}
use local_engine_router.Routing.{
  ModelSpec, Table, Kind, api_swap, ok, resolve_model_id, live_owner, fixed_owner, first_api_swap,
  fallback, known_engine, unlisted_owner, engine_for,
}

-- The key is in the engine table.
abbrev pub IsKnown : Table → String → Type 0
IsKnown t k = get t.engines k ≢ none

live_owner-known :
    (es : Dict Kind) (tags : String → List String) (m k : String)
    → live_owner es tags m ≡ some k
    → get es k ≢ none
unfolding live_owner
live_owner-known [] tags m k e = absurd (ground arith)
live_owner-known ((j, api_swap) ∷ es) tags m k e =
    ground (arith, live_owner-known es tags m k, eq_iff j k)
live_owner-known ((j, kind) ∷ es) tags m k e =
    ground (arith, live_owner-known es tags m k, eq_iff j k)

first_api_swap-known : (es : Dict Kind) (k : String) → first_api_swap es ≡ some k → get es k ≢ none
unfolding first_api_swap
first_api_swap-known [] k e = absurd (ground arith)
first_api_swap-known ((j, api_swap) ∷ es) k e = ground (arith, eq_iff j k)
first_api_swap-known ((j, kind) ∷ es) k e = ground (arith, first_api_swap-known es k, eq_iff j k)

fallback-known : (es : Dict Kind) (k : String) → fallback es ≡ some k → get es k ≢ none
unfolding fallback
fallback-known [] k e = first_api_swap-known [] k e
fallback-known ((j, kind) ∷ []) k e = ground (arith, eq_iff j k)
fallback-known ((j, kind) ∷ e1 ∷ es) k e = first_api_swap-known ((j, kind) ∷ e1 ∷ es) k e

known_engine-known :
    (es : Dict Kind) (o : Option String) (k : String) → known_engine es o ≡ some k → get es k ≢ none
unfolding known_engine
known_engine-known es none k e = absurd (ground arith)
known_engine-known es (some j) k e = ground arith

fixed_owner-known :
    (es : Dict Kind) (models : List ModelSpec) (m k : String)
    → fixed_owner es models m ≡ some k
    → get es k ≢ none
unfolding fixed_owner
fixed_owner-known [] models m k e = absurd (ground arith)
fixed_owner-known ((j, api_swap) ∷ es) models m k e =
    ground (arith, fixed_owner-known es models m k, eq_iff j k)
fixed_owner-known ((j, kind) ∷ es) models m k e =
    ground (arith, fixed_owner-known es models m k, eq_iff j k)

-- `engine_for` answers only engines of the engine table.
pub engine_for-IsKnown :
    (t : Table) (m : Option String) (k : String) → engine_for t m ≡ ok k → IsKnown t k
unfolding engine_for unlisted_owner
engine_for-IsKnown t none k e = absurd (ground arith)
engine_for-IsKnown t (some m) k e =
    let real : String = resolve_model_id t.aliases m in
    ground (
      arith,
      known_engine-known t.engines (get t.owners real) k,
      known_engine-known t.engines (get t.discovered real) k,
      live_owner-known t.engines t.tags real k,
      fixed_owner-known t.engines t.models real k,
      fallback-known t.engines k,
    )
