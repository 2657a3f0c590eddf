-- ===== src/Catalog.antt =====
-- router/catalog.py, `ModelCatalog`: the merge of static, hinted, live and persisted entries. The ids
-- that a launch command serves are an argument; a set of ids is a list in the order of its iteration, a
-- note on a collision is kept as its parts, and the clock is an argument.
pub mod Merge
pub mod Coherence
pub mod Routed
pub mod Seen
pub mod Examples
use local_engine_router.Common.{
  ℕ, suc, ◌+◌, String, Option, none, some, Bool, true, false, List, [], ◌∷◌, ◌++◌, map, elem, Dict,
  get, put, ltb, leb, eqb, not, any_of, if◌then◌else◌, ◌==◌, ◌&&◌, ◌||◌,
}
use local_engine_router.Routing.{ModelSpec}

pub data Source : Type 0 where
  static alias served_models live start_cmd persisted : Source

-- SOURCE_PRIORITY
unfoldable pub priority : Source → ℕ
priority static = 100
priority alias = 90
priority served_models = 80
priority live = 70
priority start_cmd = 60
priority persisted = 10

-- A collision: who else claimed the id, by which source, and who won.
pub record Note : Type 0 where
  pub claimed_by : String
  pub via : Source
  pub winner : String

pub record Entry : Type 0 where
  pub id : String
  pub engine : String
  pub source : Source
  pub first_seen : ℕ
  pub last_seen : ℕ
  pub last_live_status : String
  pub resolved_model : Option String
  pub stale : Bool
  pub collisions : List Note

-- The hints that discovery reads from one engine's configuration.
pub record Hints : Type 0 where
  pub key : String
  pub discover_models : Bool
  pub served : List String
  pub start_ids : List String

pub record Catalog : Type 0 where
  pub models : List ModelSpec
  pub aliases : Dict String
  pub discover_enabled : Bool
  -- the keys of `self.engines`
  pub engines : List String
  -- the hints in `_engine_order()`
  pub hints : List Hints
  pub entries : Dict Entry
  pub persisted_entries : Dict Entry

abbrev is_persisted : Source → Bool
is_persisted persisted = true
is_persisted s = false

first_seen_of : Option Entry → String → ℕ → ℕ
first_seen_of none engine now = now
first_seen_of (some old) engine now = if old.engine == engine then old.first_seen else now

-- _candidate
unfoldable pub candidate : Dict Entry → String → String → Source → ℕ → String → Entry
unfolding first_seen_of
candidate old id engine source now status = record {
  id = id;
  engine = engine;
  source = source;
  first_seen = first_seen_of (get old id) engine now;
  last_seen = now;
  last_live_status = status;
  resolved_model = none;
  stale = is_persisted source;
  collisions = [];
}

unfoldable pub static_entry : ℕ → ModelSpec → Entry
static_entry now spec = record {
  id = spec.id;
  engine = spec.engine;
  source = static;
  first_seen = now;
  last_seen = now;
  last_live_status = "configured";
  resolved_model = none;
  stale = false;
  collisions = [];
}

hint_entries : Dict Entry → ℕ → List Hints → List Entry
hint_entries old now [] = []
hint_entries old now (h ∷ hs) =
    let rest = hint_entries old now hs in
    if h.discover_models
    then map (λ m. candidate old m h.key served_models now "configured") h.served
      ++ (map (λ m. candidate old m h.key start_cmd now "configured") h.start_ids ++ rest)
    else rest

live_entries : Dict Entry → ℕ → Dict (List String) → List Entry
live_entries old now [] = []
live_entries old now ((key, ids) ∷ rest) =
    map (λ m. candidate old m key live now "live") ids ++ live_entries old now rest

-- The clones of the persisted entries.
persisted_clones : List String → Dict Entry → List Entry
persisted_clones engines [] = []
persisted_clones engines ((k, e) ∷ rest) =
    if elem e.engine engines
    then record e {
      source = persisted;
      stale = true;
      last_live_status = if e.last_live_status == "live" then "stale" else e.last_live_status;
    }
      ∷ persisted_clones engines rest
    else persisted_clones engines rest

-- The first half of `rebuild`
unfoldable pub candidates : Catalog → Dict (List String) → ℕ → List Entry
unfolding hint_entries live_entries persisted_clones
candidates c live_by_engine now =
    map (static_entry now) c.models
    ++ (if c.discover_enabled
        then hint_entries c.persisted_entries now c.hints
          ++ (live_entries c.persisted_entries now live_by_engine
              ++ persisted_clones c.engines c.persisted_entries)
        else [])

-- The place of an engine in `_engine_order()`, or 10000.
position_from : ℕ → String → List Hints → ℕ
position_from n k [] = 10000
position_from n k (h ∷ hs) = if h.key == k then n else position_from (suc n) k hs

-- _winner: true for `a`
unfoldable pub wins : List Hints → Entry → Entry → Bool
unfolding priority position_from
wins order a b =
    if eqb (priority a.source) (priority b.source)
    then leb (position_from 0 a.engine order) (position_from 0 b.engine order)
    else ltb (priority b.source) (priority a.source)

same_note : Note → Note → Bool
unfolding priority
same_note a b =
    a.claimed_by == b.claimed_by && (eqb (priority a.via) (priority b.via) && a.winner == b.winner)

-- if note not in winner.collisions: winner.collisions.append(note)
note_collision : Entry → Entry → Entry
unfolding same_note
note_collision winner loser =
    let n : Note = record {
      claimed_by = loser.engine;
      via = loser.source;
      winner = winner.engine;
    } in
    if any_of (same_note n) winner.collisions
    then winner
    else record winner { collisions = winner.collisions ++ (n ∷ []) }

resolve_collision : List Hints → Entry → Entry → Entry
unfolding wins note_collision
resolve_collision order current cand =
    if wins order current cand then note_collision current cand else note_collision cand current

merge_into : List Hints → Dict Entry → Entry → Option Entry → Dict Entry
unfolding resolve_collision
merge_into order merged cand none = put merged cand.id cand
merge_into order merged cand (some current) =
    put merged cand.id (resolve_collision order current cand)

-- if not cand.id or cand.engine not in self.engines: continue
unfoldable pub is_skipped : List String → Entry → Bool
is_skipped engines cand = cand.id == "" || not (elem cand.engine engines)

-- One round of the merge loop of `rebuild`
unfoldable pub merge_one : List String → List Hints → Dict Entry → Entry → Dict Entry
unfolding merge_into is_skipped
merge_one engines order merged cand =
    if is_skipped engines cand then merged else merge_into order merged cand (get merged cand.id)

unfoldable pub merge_all : List String → List Hints → Dict Entry → List Entry → Dict Entry
merge_all engines order merged [] = merged
merge_all engines order merged (e ∷ es) =
    merge_all engines order (merge_one engines order merged e) es

shadowed : Option Entry → String → List Note
shadowed none target = []
shadowed (some loser) target =
    record { claimed_by = loser.engine; via = loser.source; winner = target } ∷ []

alias_entry : Dict Entry → ℕ → String → String → Entry → Entry
unfolding shadowed
alias_entry merged now name target e = record {
  id = name;
  engine = e.engine;
  source = alias;
  first_seen = now;
  last_seen = now;
  last_live_status = e.last_live_status;
  resolved_model = some target;
  stale = e.stale;
  collisions = shadowed (get merged name) target;
}

-- One round of the alias loop of `rebuild`
add_alias : Dict Entry → ℕ → String → String → Option Entry → Dict Entry
unfolding alias_entry
add_alias merged now name target none = merged
add_alias merged now name target (some e) = put merged name (alias_entry merged now name target e)

unfoldable pub add_aliases : Dict Entry → ℕ → Dict String → Dict Entry
unfolding add_alias
add_aliases merged now [] = merged
add_aliases merged now ((name, target) ∷ rest) =
    add_aliases (add_alias merged now name target (get merged target)) now rest

-- rebuild
unfoldable pub rebuild : Catalog → Dict (List String) → ℕ → Catalog
unfolding candidates merge_all merge_one add_aliases
rebuild c live_by_engine now = record c {
  entries =
      add_aliases (merge_all c.engines c.hints [] (candidates c live_by_engine now)) now c.aliases;
}
