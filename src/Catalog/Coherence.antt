-- ===== src/Catalog/Coherence.antt =====
-- What every rebuilt catalog (router/catalog.py, `ModelCatalog.rebuild`) has.
use local_engine_router.Common.{
  ℕ, ◌≤◌, ◌≡◌, refl, ◌∙◌, String, Option, none, some, true, false, List, [], ◌∷◌, ◌++◌, map, elem,
  Dict, get, put, get-put, ◌==◌, arith, Bool-cases, inl, inr, All,
}
use local_engine_router.Routing.{ModelSpec}
use local_engine_router.Routing.Aliases.{keys_of}
use local_engine_router.Catalog.{
  Source, static, Entry, Hints, Catalog, priority, resolve_collision, merge_into, is_skipped,
  merge_one, merge_all, static_entry, candidates, add_aliases, add_alias, alias_entry, rebuild,
}
use local_engine_router.Catalog.Merge.{IsUsable, Holds, merge_all-worth}

-- Every entry is at an engine of the table.
abbrev pub AtEngines : List String → Dict Entry → Type 0
AtEngines engines d = (k : String) (e : Entry) → get d k ≡ some e → elem e.engine engines ≡ true

module _ (engines : List String) where
  put-AtEngines :
      (d : Dict Entry) (k : String) (e : Entry)
      → elem e.engine engines ≡ true
      → AtEngines engines d
      → AtEngines engines (put d k e)
  put-AtEngines d k e at h j w g = ground (arith, get-put d k j e, h j w)

  resolve-engine :
      (order : List Hints) (a b : Entry)
      → elem a.engine engines ≡ true
      → elem b.engine engines ≡ true
      → elem (resolve_collision order a b).engine engines ≡ true
  unfolding resolve_collision
  resolve-engine order a b p q = ground arith

  merge_into-AtEngines :
      (order : List Hints) (d : Dict Entry) (e : Entry) (o : Option Entry)
      → get d e.id ≡ o
      → elem e.engine engines ≡ true
      → AtEngines engines d
      → AtEngines engines (merge_into order d e o)
  unfolding merge_into
  merge_into-AtEngines order d e none g at h = put-AtEngines d e.id e at h
  merge_into-AtEngines order d e (some current) g at h =
      put-AtEngines d e.id (resolve_collision order current e)
        (resolve-engine order current e (h e.id current g) at) h

  merge_one-AtEngines :
      (order : List Hints) (d : Dict Entry) (e : Entry)
      → AtEngines engines d
      → AtEngines engines (merge_one engines order d e)
  unfolding merge_one
  merge_one-AtEngines order d e h = elim (Bool-cases (is_skipped engines e)) [
    | inl skip ↦ rw skip h
    | inr usable ↦
        rw usable
          (merge_into-AtEngines order d e (get d e.id) refl (unfold is_skipped in ground arith) h)
  ]

  merge_all-AtEngines :
      (order : List Hints) (es : List Entry) (d : Dict Entry)
      → AtEngines engines d
      → AtEngines engines (merge_all engines order d es)
  unfolding merge_all
  merge_all-AtEngines order [] d h = h
  merge_all-AtEngines order (e ∷ es) d h =
      merge_all-AtEngines order es (merge_one engines order d e) (merge_one-AtEngines order d e h)

  add_aliases-AtEngines :
      (now : ℕ) (aliases : Dict String) (d : Dict Entry)
      → AtEngines engines d
      → AtEngines engines (add_aliases d now aliases)
  unfolding add_aliases
  add_aliases-AtEngines now [] d h = h
  add_aliases-AtEngines now ((name, target) ∷ rest) d h =
      add_aliases-AtEngines now rest (add_alias d now name target (get d target))
        (step (get d target) refl)
    where
      step :
          (o : Option Entry) → get d target ≡ o → AtEngines engines (add_alias d now name target o)
      step none g = h
      step (some e) g = put-AtEngines d name (alias_entry d now name target e) (h target e g) h

-- Every entry of a rebuilt catalog, an alias's too, is at an engine of the engine table.
pub rebuild-AtEngines :
    (c : Catalog) (live : Dict (List String)) (now : ℕ)
    → AtEngines c.engines (rebuild c live now).entries
unfolding rebuild
rebuild-AtEngines c live now =
    add_aliases-AtEngines c.engines now c.aliases _
      (merge_all-AtEngines c.engines c.hints (candidates c live now) [] (λ k e g. cc))

get-add_alias :
    (now : ℕ) (d : Dict Entry) (name target k : String) (o : Option Entry)
    → (name == k) ≡ false
    → get (add_alias d now name target o) k ≡ get d k
unfolding add_alias
get-add_alias now d name target k none n = refl
get-add_alias now d name target k (some e) n =
    ground (arith, n, get-put d name k (alias_entry d now name target e))

-- An id that is no alias keeps its entry through the alias loop.
get-add_aliases :
    (now : ℕ) (aliases : Dict String) (d : Dict Entry) (k : String)
    → elem k (keys_of aliases) ≡ false
    → get (add_aliases d now aliases) k ≡ get d k
unfolding add_aliases
get-add_aliases now [] d k n = refl
get-add_aliases now ((name, target) ∷ rest) d k n =
    get-add_aliases now rest (add_alias d now name target (get d target)) k (ground arith)
    ∙ get-add_alias now d name target k (get d target) (ground arith)

-- The catalog's entry of the id is a static one.
pub record IsStatic (d : Dict Entry) (k : String) : Type 0 where
  pub entry : Entry
  pub found : get d k ≡ some entry
  pub from_config : entry.source ≡ static

top_priority : (s : Source) → 100 ≤ priority s → s ≡ static
unfolding priority
top_priority s h = ground arith

Holds-IsStatic : {d : Dict Entry} {k : String} → Holds d k 100 → IsStatic d k
Holds-IsStatic h = record {
  entry = h.entry;
  found = h.found;
  from_config = top_priority h.entry.source h.worth;
}

All-append_left {ℓ κ} : {A : Type ℓ} (P : A → Type κ) (xs ys : List A) → All P (xs ++ ys) → All P xs
All-append_left P [] ys h = tt
All-append_left P (x ∷ xs) ys h = (h.0, All-append_left P xs ys h.1)

-- A static model that the catalog can hold and no alias shadows.
abbrev pub IsPlain : Catalog → ModelSpec → Type 0
IsPlain c spec =
    ((spec.id == "") ≡ false)
    × (elem spec.engine c.engines ≡ true)
    × (elem spec.id (keys_of c.aliases) ≡ false)

IsStatic-specs :
    (c : Catalog) (now : ℕ) (merged : Dict Entry) (specs : List ModelSpec)
    → All
        (λ e. IsUsable c.engines e → Holds merged e.id (priority e.source))
        (map (static_entry now) specs)
    → All (λ spec. IsPlain c spec → IsStatic (add_aliases merged now c.aliases) spec.id) specs
unfolding static_entry priority
IsStatic-specs c now merged [] h = tt
IsStatic-specs c now merged (spec ∷ specs) h = (
  λ p.
      let v = Holds-IsStatic (h.0 (p.0, p.1)) in
      record {
        entry = v.entry;
        found = get-add_aliases now c.aliases merged spec.id p.2 ∙ v.found;
        from_config = v.from_config;
      },
  IsStatic-specs c now merged specs h.1,
)

-- Whatever discovery finds, a static model with an id, at a known engine, that is no alias name has a
-- static entry in every rebuilt catalog.
pub rebuild-IsStatic :
    (c : Catalog) (live : Dict (List String)) (now : ℕ)
    → All (λ spec. IsPlain c spec → IsStatic (rebuild c live now).entries spec.id) c.models
unfolding rebuild candidates
rebuild-IsStatic c live now = IsStatic-specs c now _ c.models (
    All-append_left _ (map (static_entry now) c.models) _
      (merge_all-worth c.engines c.hints (candidates c live now) []))
