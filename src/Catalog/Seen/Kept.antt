-- ===== src/Catalog/Seen/Kept.antt =====
-- What `set_seen_models` and `rebuild` of router/catalog.py keep of the models that were seen before.
use mathlib.Core.Option.{some-injective}
use local_engine_router.Common.{
  ℕ, ◌≡◌, sym, ap, subst, ◌∙◌, String, some, true, false, List, [], ◌∷◌, ◌++◌, map, elem, Dict, get,
  put, get-put, ◌==◌, eq_iff, arith, Bool-cases, Option-cases, inl, inr, All,
}
use local_engine_router.Catalog.{
  Entry, Catalog, priority, candidates, static_entry, hint_entries, live_entries, persisted_clones,
  merge_all, alias_entry, add_alias, add_aliases, rebuild,
}
use local_engine_router.Catalog.Merge.{IsUsable, Holds, merge_all-worth}
use local_engine_router.Catalog.Seen.{seen_entry, add_seen, set_seen_models}

-- The dictionary has an entry of the model, at an engine of the table.
pub record IsKept (engines : List String) (d : Dict Entry) (m : String) : Type 0 where
  pub entry : Entry
  pub found : get d m ≡ some entry
  pub own : entry.id ≡ m
  pub at_engine : elem entry.engine engines ≡ true

add_seen-IsKept :
    (engines : List String) (engine : String) (now : ℕ) (d : Dict Entry) (ids : List String)
    (m : String)
    → elem engine engines ≡ true
    → IsKept engines d m
    → IsKept engines (add_seen engine now d ids) m
unfolding add_seen
add_seen-IsKept engines engine now d [] m known h = h
add_seen-IsKept engines engine now d (id ∷ ids) m known h =
    add_seen-IsKept engines engine now (put d id (seen_entry (get d id) id engine now)) ids m known
      (elim (Bool-cases (id == m)) [
        | inl same ↦ record {
          entry = seen_entry (get d id) id engine now;
          found = ground (arith, same, get-put d id m (seen_entry (get d id) id engine now));
          own = ground (arith, same, eq_iff id m);
          at_engine = known;
        }
        | inr other ↦ record {
          entry = h.entry;
          found =
              ground (arith, other, h.found, get-put d id m (seen_entry (get d id) id engine now));
          own = h.own;
          at_engine = h.at_engine;
        }
      ])

All-append_right {ℓ κ} :
    {A : Type ℓ} (P : A → Type κ) (xs ys : List A) → All P (xs ++ ys) → All P ys
All-append_right P [] ys h = h
All-append_right P (x ∷ xs) ys h = All-append_right P xs ys h.1

-- A persisted entry is among the clones, under its id and at its engine.
clone-All :
    (engines : List String) (d : Dict Entry) (m : String) (P : String → Type 0)
    → All (λ e. IsUsable engines e → P e.id) (persisted_clones engines d)
    → IsKept engines d m
    → (m == "") ≡ false
    → P m
unfolding persisted_clones
clone-All engines [] m P a h named = absurd (ground (arith, h.found))
clone-All engines ((k, e) ∷ d) m P a h named = elim (Bool-cases (k == m)) [
  | inl same ↦
      let here : e ≡ h.entry = first_is k m e d h.entry same h.found in
      let known : elem e.engine engines ≡ true =
        subst (λ x. elem x.engine engines ≡ true) (sym here) h.at_engine in
      let own : e.id ≡ m = ap (λ x. x.id) here ∙ h.own in
      subst P own ((rw known at a).0 (subst (λ x. (x == "") ≡ false) (sym own) named, known))
  | inr other ↦
      clone-All engines d m P (later_all k e d a)
        (record {
          entry = h.entry;
          found = later_found k m e d h.entry other h.found;
          own = h.own;
          at_engine = h.at_engine;
        })
        named
]
  where
    first_is :
        (k m : String) (e : Entry) (d : Dict Entry) (f : Entry)
        → (k == m) ≡ true
        → get ((k, e) ∷ d) m ≡ some f
        → e ≡ f
    first_is k m e d f same g = some-injective _ _ (rw same at g)

    later_found :
        (k m : String) (e : Entry) (d : Dict Entry) (f : Entry)
        → (k == m) ≡ false
        → get ((k, e) ∷ d) m ≡ some f
        → get d m ≡ some f
    later_found k m e d f other g = rw other at g

    later_all :
        (k : String) (e : Entry) (d : Dict Entry)
        → All (λ e. IsUsable engines e → P e.id) (persisted_clones engines ((k, e) ∷ d))
        → All (λ e. IsUsable engines e → P e.id) (persisted_clones engines d)
    later_all k e d b = elim (Bool-cases (elem e.engine engines)) [
      | inl y ↦ (rw y at b).1
      | inr y ↦ rw y at b
    ]

-- The catalog has an entry under the id.
pub record IsListed (d : Dict Entry) (m : String) : Type 0 where
  pub entry : Entry
  pub found : get d m ≡ some entry

add_aliases-IsListed :
    (now : ℕ) (aliases : Dict String) (d : Dict Entry) (m : String)
    → IsListed d m
    → IsListed (add_aliases d now aliases) m
unfolding add_aliases add_alias
add_aliases-IsListed now [] d m h = h
add_aliases-IsListed now ((name, target) ∷ rest) d m h =
    add_aliases-IsListed now rest (add_alias d now name target (get d target)) m
      (elim (Option-cases (get d target)) [
        | inl gone ↦ rw gone h
        | inr (e, there) ↦ rw there (elim (Bool-cases (name == m)) [
          | inl same ↦ record {
            entry = alias_entry d now name target e;
            found = ground (arith, same, get-put d name m (alias_entry d now name target e));
          }
          | inr other ↦ record {
            entry = h.entry;
            found =
                ground (arith, other, h.found, get-put d name m (alias_entry d now name target e));
          }
        ])
      ])

All-weaken {ℓ κ μ} :
    {A : Type ℓ} (P : A → Type κ) (Q : A → Type μ) (xs : List A)
    → ((a : A) → P a → Q a)
    → All P xs
    → All Q xs
All-weaken P Q [] f h = tt
All-weaken P Q (x ∷ xs) f h = (f x h.0, All-weaken P Q xs f h.1)

clones-IsListed :
    (c : Catalog) (now : ℕ) (merged : Dict Entry)
    → c.discover_enabled ≡ true
    → All (λ e. IsUsable c.engines e → Holds merged e.id (priority e.source)) (candidates c [] now)
    → All
        (λ e. IsUsable c.engines e → IsListed merged e.id)
        (persisted_clones c.engines c.persisted_entries)
unfolding candidates
clones-IsListed c now merged on h =
    let first = All-append_right _ (map (static_entry now) c.models) _ h in
    let found = rw on at first in
    let after_hints = All-append_right _ (hint_entries c.persisted_entries now c.hints) _ found in
    let after_live = All-append_right _ (live_entries c.persisted_entries now []) _ after_hints in
    All-weaken _ _ (persisted_clones c.engines c.persisted_entries)
      (λ e f u. record { entry = (f u).entry; found = (f u).found }) after_live

rebuild-IsListed :
    (c : Catalog) (now : ℕ) (m : String)
    → c.discover_enabled ≡ true
    → (m == "") ≡ false
    → IsKept c.engines c.persisted_entries m
    → IsListed (rebuild c [] now).entries m
unfolding rebuild
rebuild-IsListed c now m on named h =
    let merged : Dict Entry = merge_all c.engines c.hints [] (candidates c [] now) in
    add_aliases-IsListed now c.aliases merged m (
      clone-All c.engines c.persisted_entries m (IsListed merged)
        (clones-IsListed c now merged on
          (merge_all-worth c.engines c.hints (candidates c [] now) []))
        h named)

-- A model with an entry in the persisted table, under its own id and at an engine of the table, keeps an
-- entry in the catalog whatever models an engine of the table is then seen to have, also where that
-- engine is its own and has it no more, if discovery is on.
pub set_seen_models-IsListed :
    (c : Catalog) (engine : String) (ids : List String) (now : ℕ) (m : String)
    → c.discover_enabled ≡ true
    → elem engine c.engines ≡ true
    → (m == "") ≡ false
    → IsKept c.engines c.persisted_entries m
    → IsListed (set_seen_models c engine ids now).entries m
unfolding set_seen_models
set_seen_models-IsListed c engine ids now m on known named h =
    rebuild-IsListed (record c { persisted_entries = add_seen engine now c.persisted_entries ids })
      now m on named (add_seen-IsKept c.engines engine now c.persisted_entries ids m known h)
