-- ===== src/Catalog/Merge.antt =====
-- What the merge loop of router/catalog.py, `ModelCatalog.rebuild`, keeps of the candidates.
use local_engine_router.Common.{
  ℕ, ◌≤◌, ◌≡◌, refl, String, Option, none, some, true, false, List, [], ◌∷◌, elem, Dict, get,
  get-put, ◌==◌, eq_iff, eq_refl, arith, Bool-cases, inl, inr, All,
}
use local_engine_router.Catalog.{
  Entry, Hints, priority, wins, resolve_collision, merge_into, is_skipped, merge_one, merge_all,
}

-- The candidate has an id and its engine is in the table.
abbrev pub IsUsable : List String → Entry → Type 0
IsUsable engines e = ((e.id == "") ≡ false) × (elem e.engine engines ≡ true)

-- The dictionary has an entry under `k` with a source worth at least `p`.
pub record Holds (d : Dict Entry) (k : String) (p : ℕ) : Type 0 where
  pub entry : Entry
  pub found : get d k ≡ some entry
  pub worth : p ≤ priority entry.source

resolve-worth :
    (order : List Hints) (a b : Entry)
    → (priority a.source ≤ priority (resolve_collision order a b).source)
      × (priority b.source ≤ priority (resolve_collision order a b).source)
unfolding resolve_collision wins
resolve-worth order a b = ground arith

module _ (order : List Hints) (d : Dict Entry) (e : Entry) where
  merge_into-keeps :
      (k : String) (p : ℕ) (o : Option Entry)
      → get d e.id ≡ o
      → Holds d k p
      → Holds (merge_into order d e o) k p
  unfolding merge_into
  merge_into-keeps k p none free h = record {
    entry = h.entry;
    found = ground (arith, h.found, free, get-put d e.id k e, eq_iff e.id k);
    worth = h.worth;
  }
  merge_into-keeps k p (some current) there h = elim (Bool-cases (e.id == k)) [
    | inl same ↦ record {
      entry = resolve_collision order current e;
      found = ground (arith, same, get-put d e.id k (resolve_collision order current e));
      worth =
          ground
            (arith, resolve-worth order current e, h.found, h.worth, there, same, eq_iff e.id k);
    }
    | inr other ↦ record {
      entry = h.entry;
      found = ground (arith, h.found, other, get-put d e.id k (resolve_collision order current e));
      worth = h.worth;
    }
  ]

  merge_into-adds : (o : Option Entry) → Holds (merge_into order d e o) e.id (priority e.source)
  unfolding merge_into
  merge_into-adds none = record {
    entry = e;
    found = ground (arith, get-put d e.id e.id e, eq_refl e.id);
    worth = omega arith;
  }
  merge_into-adds (some current) = record {
    entry = resolve_collision order current e;
    found = ground (arith, get-put d e.id e.id (resolve_collision order current e), eq_refl e.id);
    worth = (resolve-worth order current e).1;
  }

module _ (engines : List String) (order : List Hints) where
  merge_one-keeps :
      (d : Dict Entry) (e : Entry) (k : String) (p : ℕ)
      → Holds d k p
      → Holds (merge_one engines order d e) k p
  unfolding merge_one
  merge_one-keeps d e k p h = elim (Bool-cases (is_skipped engines e)) [
    | inl skip ↦ rw skip h
    | inr usable ↦ rw usable (merge_into-keeps order d e k p (get d e.id) refl h)
  ]

  merge_one-adds :
      (d : Dict Entry) (e : Entry)
      → IsUsable engines e
      → Holds (merge_one engines order d e) e.id (priority e.source)
  unfolding merge_one
  merge_one-adds d e u =
      let usable : is_skipped engines e ≡ false = unfold is_skipped in ground (arith, u) in
      rw usable (merge_into-adds order d e (get d e.id))

  merge_all-keeps :
      (es : List Entry) (d : Dict Entry) (k : String) (p : ℕ)
      → Holds d k p
      → Holds (merge_all engines order d es) k p
  unfolding merge_all
  merge_all-keeps [] d k p h = h
  merge_all-keeps (e ∷ es) d k p h =
      merge_all-keeps es (merge_one engines order d e) k p (merge_one-keeps d e k p h)

  -- No usable candidate is lost to one of less priority: the merge has an entry under the id of each,
  -- and its source is worth at least as much.
  pub merge_all-worth :
      (es : List Entry) (d : Dict Entry)
      → All
          (λ e. IsUsable engines e → Holds (merge_all engines order d es) e.id (priority e.source))
          es
  unfolding merge_all
  merge_all-worth [] d = tt
  merge_all-worth (e ∷ es) d = (
    λ u.
        merge_all-keeps es (merge_one engines order d e) e.id (priority e.source)
          (merge_one-adds d e u),
    merge_all-worth es (merge_one engines order d e),
  )
