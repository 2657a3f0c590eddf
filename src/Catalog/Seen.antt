-- ===== src/Catalog/Seen.antt =====
-- router/catalog.py, `set_seen_models`, `seen_models`, `owner_for` and `resolve`; router/engines.py,
-- `_snapshot_seen_models`, which calls the first of them after a swap.
pub mod Kept
use mathlib.Core.Option.{some-injective}
use local_engine_router.Common.{
  ℕ, ◌≡◌, sym, ap, subst, ◌∙◌, String, Option, none, some, Bool, true, false, not, List, [], ◌∷◌,
  ◌++◌, map, elem, Dict, get, put, get-put, ◌==◌, ◌&&◌, eq_iff, arith, Bool-cases, Option-cases,
  inl, inr, All, if◌then◌else◌,
}
use local_engine_router.Routing.{resolve_model_id}
use local_engine_router.Catalog.{
  Entry, Note, Source, alias, live, persisted, Catalog, priority, candidates, static_entry,
  hint_entries, live_entries, persisted_clones, merge_all, alias_entry, add_alias, add_aliases,
  rebuild,
}
use local_engine_router.Catalog.Merge.{IsUsable, Holds, merge_all-worth}

first_seen_or : Option Entry → ℕ → ℕ
first_seen_or none now = now
first_seen_or (some old) now = old.first_seen

notes_of : Option Entry → List Note
notes_of none = []
notes_of (some old) = old.collisions

seen_entry : Option Entry → String → String → ℕ → Entry
unfolding first_seen_or notes_of
seen_entry old id engine now = record {
  id = id;
  engine = engine;
  source = persisted;
  first_seen = first_seen_or old now;
  last_seen = now;
  last_live_status = "live";
  resolved_model = none;
  stale = false;
  collisions = notes_of old;
}

-- The loop of `set_seen_models`
unfoldable pub add_seen : String → ℕ → Dict Entry → List String → Dict Entry
unfolding seen_entry
add_seen engine now d [] = d
add_seen engine now d (id ∷ ids) =
    add_seen engine now (put d id (seen_entry (get d id) id engine now)) ids

unfoldable pub set_seen_models : Catalog → String → List String → ℕ → Catalog
unfolding add_seen
set_seen_models c engine ids now =
    rebuild (record c { persisted_entries = add_seen engine now c.persisted_entries ids }) [] now

-- The catalog after `_snapshot_seen_models`; `none` is a query that failed
unfoldable pub snapshot_seen_models : Catalog → String → Option (List String) → ℕ → Catalog
unfolding set_seen_models
snapshot_seen_models c engine none now = c
snapshot_seen_models c engine (some []) now = c
snapshot_seen_models c engine (some (id ∷ ids)) now = set_seen_models c engine (id ∷ ids) now

is_seen_source : Source → Bool
is_seen_source live = true
is_seen_source persisted = true
is_seen_source s = false

persisted_ids : String → Dict Entry → List String
persisted_ids engine [] = []
persisted_ids engine ((k, e) ∷ d) =
    if e.engine == engine then e.id ∷ persisted_ids engine d else persisted_ids engine d

seen_ids : String → Dict Entry → List String
unfolding is_seen_source
seen_ids engine [] = []
seen_ids engine ((k, e) ∷ d) =
    if e.engine == engine && is_seen_source e.source
    then e.id ∷ seen_ids engine d
    else seen_ids engine d

-- seen_models, at one engine of the table
unfoldable pub seen_models : Catalog → String → List String
unfolding persisted_ids seen_ids
seen_models c engine = persisted_ids engine c.persisted_entries ++ seen_ids engine c.entries

pub record ResolveResult : Type 0 where
  pub requested_model : String
  pub resolved_model : String
  pub engine : Option String
  pub source : Option Source
  pub would_swap : Bool
  pub collisions : List Note

is_at : Option String → String → Bool
is_at none k = false
is_at (some j) k = j == k

-- `if entry.source == "alias" and entry.resolved_model: real = entry.resolved_model`
alias_target : Source → Option String → String → String
alias_target alias (some target) real = if target == "" then real else target
alias_target s o real = real

result_of : String → String → Option String → Option Entry → ResolveResult
unfolding is_at alias_target
result_of requested real active none = record {
  requested_model = requested;
  resolved_model = real;
  engine = none;
  source = none;
  would_swap = false;
  collisions = [];
}
result_of requested real active (some e) = record {
  requested_model = requested;
  resolved_model = alias_target e.source e.resolved_model real;
  engine = some e.engine;
  source = some e.source;
  would_swap = not (is_at active e.engine);
  collisions = e.collisions;
}

entry_or : Option Entry → Option Entry → Option Entry
entry_or none b = b
entry_or (some e) b = some e

-- resolve; the reasons are left out
unfoldable pub resolve : Catalog → String → Option String → ResolveResult
unfolding result_of entry_or
resolve c model active =
    let real = resolve_model_id c.aliases model in
    result_of model real active (entry_or (get c.entries model) (get c.entries real))
