-- ===== src/Serve/Listed/Owners.antt =====
-- Which engine router/app.py, `list_models`, names as the owner of an id.
use mathlib.Core.Option.{map as map_option}
use local_engine_router.Common.{
  ◌≡◌, refl, ap, ◌∙◌, arith, eq_iff, String, Option, none, some, List, [], ◌∷◌, ◌++◌, map, Dict,
  get, elem, find_by, sort_by, find-sort_by, first_some, Option-cases, Bool-cases, inl, inr,
  if◌then◌else◌, ◌==◌,
}
use local_engine_router.Catalog.{Entry}
use local_engine_router.Serve.Listed.{
  Shown, Item, Inventory, static_item, plain_item, index_shown, catalog_item, openai_models, id_of,
  is_listed, add_unseen, tag_items, list_models,
}

find-append :
    (m : String) (xs ys : List Item)
    → find_by id_of m (xs ++ ys) ≡ first_some (find_by id_of m xs) (find_by id_of m ys)
find-append m [] ys = refl
find-append m (x ∷ xs) ys = ground (arith, find-append m xs ys)

find-add_unseen :
    (m : String) (listed is : List Item)
    → find_by id_of m (add_unseen listed is)
      ≡ first_some (find_by id_of m listed) (find_by id_of m is)
unfolding add_unseen
find-add_unseen m listed [] = ground arith
find-add_unseen m listed (i ∷ is) = elim (Option-cases (find_by id_of i.id listed)) [
  | inl e ↦
      rw (e, is_listed)
        (ground (
          arith,
          find-add_unseen m (listed ++ i ∷ []) is,
          find-append m listed (i ∷ []),
          eq_iff i.id m,
        ))
  | inr s ↦ rw (s.1, is_listed) (ground (arith, find-add_unseen m listed is, eq_iff i.id m, s.1))
]

-- The engine that the list names for an id.
abbrev pub owner : String → List Item → Option String
owner m is = map_option (λ (i : Item). i.owned_by) (find_by id_of m is)

owner-add_unseen :
    (m : String) (listed is : List Item)
    → owner m (add_unseen listed is) ≡ first_some (owner m listed) (owner m is)
owner-add_unseen m listed is =
    ap (map_option (λ (i : Item). i.owned_by)) (find-add_unseen m listed is)
    ∙ first_owner (find_by id_of m listed)
  where
    first_owner :
        (o : Option Item)
        → map_option (λ (i : Item). i.owned_by) (first_some o (find_by id_of m is))
          ≡ first_some (map_option (λ (i : Item). i.owned_by) o) (owner m is)
    first_owner none = refl
    first_owner (some i) = refl

owner-map {ℓ} :
    {A : Type ℓ} (key : A → String) (own : A → String) (f : A → Item)
    → ((x : A) → (f x).id ≡ key x)
    → ((x : A) → (f x).owned_by ≡ own x)
    → (m : String) (xs : List A) → owner m (map f xs) ≡ map_option own (find_by key m xs)
owner-map key own f g h m [] = refl
owner-map key own f g h m (x ∷ xs) = elim (Bool-cases (key x == m)) [
  | inl y ↦ rw (g x, y) (ap some (h x))
  | inr n ↦ rw (g x, n) (owner-map key own f g h m xs)
]

catalog_item_id : (index : Dict Shown) (e : Entry) → (catalog_item index e).id ≡ e.id
unfolding catalog_item
catalog_item_id index e = elim (Option-cases (get index e.id)) [
  | inl n ↦ rw n refl
  | inr s ↦ rw s.1 refl
]

catalog_item_owned : (index : Dict Shown) (e : Entry) → (catalog_item index e).owned_by ≡ e.engine
unfolding catalog_item
catalog_item_owned index e = elim (Option-cases (get index e.id)) [
  | inl n ↦ rw n refl
  | inr s ↦ rw s.1 refl
]

owner-openai_models :
    (m : String) (specs : List Shown) (entries : List Entry)
    → owner m (openai_models specs entries)
      ≡ map_option (λ (e : Entry). e.engine) (find_by (λ (e : Entry). e.id) m entries)
unfolding openai_models
owner-openai_models m specs entries =
    owner-map (λ e. e.id) (λ e. e.engine) (catalog_item (index_shown [] specs))
      (catalog_item_id (index_shown [] specs)) (catalog_item_owned (index_shown [] specs)) m
      (sort_by (λ e. e.id) entries)
    ∙ ap (map_option (λ (e : Entry). e.engine)) (find-sort_by (λ e. e.id) m entries)

owner-static :
    (m : String) (specs : List Shown)
    → owner m (map static_item specs)
      ≡ map_option (λ (s : Shown). s.engine) (find_by (λ (s : Shown). s.id) m specs)
unfolding static_item
owner-static m specs =
    owner-map (λ s. s.id) (λ s. s.engine) static_item (λ s. refl) (λ s. refl) m specs

owner-plain : (m : String) (d : Dict String) → owner m (map plain_item d) ≡ get d m
unfolding plain_item
owner-plain m [] = refl
owner-plain m ((j, k) ∷ d) = ground (arith, owner-plain m d)

-- The owner of an id by the tags of one engine.
abbrev pub tag_owner : Option (String × List String) → String → Option String
tag_owner none m = none
tag_owner (some (k, tags)) m = if elem m tags then some k else none

find-elem :
    (k m : String) (tags : List String)
    → map_option (λ (x : String). k) (find_by (λ x. x) m tags)
      ≡ (if elem m tags then some k else none)
find-elem k m [] = refl
find-elem k m (t ∷ tags) = ground (arith, find-elem k m tags)

owner-tag_items :
    (m : String) (o : Option (String × List String)) → owner m (tag_items o) ≡ tag_owner o m
unfolding tag_items plain_item
owner-tag_items m none = refl
owner-tag_items m (some (k, tags)) =
    owner-map (λ x. x) (λ x. k) (λ x. plain_item (x, k)) (λ x. refl) (λ x. refl) m
      (sort_by (λ x. x) tags)
    ∙ (ap (map_option (λ (x : String). k)) (find-sort_by (λ x. x) m tags) ∙ find-elem k m tags)

first_some_assoc :
    (a b c : Option String) → first_some (first_some a b) c ≡ first_some a (first_some b c)
first_some_assoc none b c = refl
first_some_assoc (some x) b c = refl

-- The model list names for an id the engine of its first static model; or else, with discovery on, that
-- of its catalog entry or the engine that discovery expects it at, and with discovery off, the Ollama
-- engine if that has a tag of this name. It names none where none of these knows the id.
pub list_models-owner :
    (v : Inventory) (m : String)
    → owner m (list_models v)
      ≡ first_some
          (map_option (λ (s : Shown). s.engine) (find_by (λ (s : Shown). s.id) m v.specs))
          (if v.discover_enabled
            then first_some
                (map_option (λ (e : Entry). e.engine) (find_by (λ (e : Entry). e.id) m v.entries))
                (get v.discovered m)
            else tag_owner v.live_tags m)
unfolding list_models
list_models-owner v m = elim (Bool-cases v.discover_enabled) [
  | inl y ↦ rw y (
      cc (
        owner-add_unseen m (add_unseen (map static_item v.specs) (openai_models v.specs v.entries))
            (map plain_item v.discovered),
        owner-add_unseen m (map static_item v.specs) (openai_models v.specs v.entries),
        owner-static m v.specs,
        owner-openai_models m v.specs v.entries,
        owner-plain m v.discovered,
        first_some_assoc (owner m (map static_item v.specs))
            (owner m (openai_models v.specs v.entries)) (owner m (map plain_item v.discovered)),
      ))
  | inr n ↦ rw n (
      cc (
        owner-add_unseen m (map static_item v.specs) (tag_items v.live_tags),
        owner-static m v.specs,
        owner-tag_items m v.live_tags,
      ))
]
