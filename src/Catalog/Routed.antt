-- ===== src/Catalog/Routed.antt =====
-- How a model that discovery has found is routed: the catalog (router/catalog.py) under `engine_for` and
-- `explain_model` (router/engines.py).
use local_engine_router.Common.{
  ◌≡◌, ℕ, String, none, some, true, false, List, [], ◌∷◌, map, elem, Dict, get, ◌==◌, arith,
  Bool-cases, inl, inr,
}
use local_engine_router.Routing.{
  Kind, Table, ok, build_model_index, resolve_model_id, known_engine, unlisted_owner, engine_for,
  explain_model,
}
use local_engine_router.Routing.Aliases.{keys_of}
use local_engine_router.Catalog.{Entry, Catalog, rebuild}
use local_engine_router.Catalog.Coherence.{rebuild-AtEngines}

-- What the manager reads of the catalog: the engine of each entry.
abbrev pub owners_of : Dict Entry → Dict String
owners_of d = map (λ e. (e.0, e.1.engine)) d

get-owners_of :
    (d : Dict Entry) (m : String) (e : Entry)
    → get d m ≡ some e
    → get (owners_of d) m ≡ some e.engine
get-owners_of [] m e h = absurd (ground arith)
get-owners_of ((k, f) ∷ d) m e h = elim (Bool-cases (k == m)) [
  | inl y ↦ rw y (ground (arith, rw y at h))
  | inr n ↦ rw n (get-owners_of d m e (rw n at h))
]

known_engine-elem :
    (es : Dict Kind) (k : String) → elem k (keys_of es) ≡ true → known_engine es (some k) ≡ some k
unfolding known_engine
known_engine-elem [] k h = absurd (ground arith)
known_engine-elem ((j, kind) ∷ es) k h = ground (arith, known_engine-elem es k)

-- With discovery on, in a table whose owners and engine keys are those of a rebuilt catalog, an id that is
-- not empty, that the configuration does not list, that is no alias and that has an entry in the
-- catalog is routed to the engine of this entry, whatever the live tags and the discovered index say,
-- and `explain_model` names the same engine.
pub engine_for-rebuild :
    (t : Table) (c : Catalog) (live : Dict (List String)) (now : ℕ) (m : String) (e : Entry)
    → t.discover_enabled ≡ true
    → t.owners ≡ owners_of (rebuild c live now).entries
    → keys_of t.engines ≡ c.engines
    → (m == "") ≡ false
    → get t.aliases m ≡ none
    → get (build_model_index t.models) m ≡ none
    → get (rebuild c live now).entries m ≡ some e
    → (engine_for t (some m) ≡ ok e.engine) × (explain_model t (some m) ≡ some (some e.engine))
unfolding engine_for explain_model unlisted_owner resolve_model_id
engine_for-rebuild t c live now m e on read same named plain unlisted found =
    let owned : get t.owners m ≡ some e.engine =
      rw read (get-owners_of (rebuild c live now).entries m e found) in
    let at : elem e.engine (keys_of t.engines) ≡ true =
      rw same (rebuild-AtEngines c live now m e found) in
    let known : known_engine t.engines (some e.engine) ≡ some e.engine =
      known_engine-elem t.engines e.engine at in
    (ground (arith, owned, known), ground (arith, owned))
