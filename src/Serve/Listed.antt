-- ===== src/Serve/Listed.antt =====
-- router/app.py, `list_models`; router/catalog.py, `openai_models`. The kind and the time of creation,
-- which are the same for every item, are left out.
pub mod Owners
use local_engine_router.Common.{
  ℕ, String, Option, none, some, Bool, true, false, List, [], ◌∷◌, ◌++◌, map, Dict, get, put,
  find_by, sort_by, if◌then◌else◌, ◌==◌,
}
use local_engine_router.Catalog.{Entry}

-- ModelSpec, as far as the list shows it
pub record Shown : Type 0 where
  pub id : String
  pub engine : String
  pub display_name : String
  pub context_length : ℕ

-- One item of the list.
pub record Item : Type 0 where
  pub id : String
  pub owned_by : String
  pub name : String
  pub context_length : Option ℕ
  pub resolved_model : Option String

unfoldable pub static_item : Shown → Item
static_item s = record {
  id = s.id;
  owned_by = s.engine;
  name = s.display_name;
  context_length = some s.context_length;
  resolved_model = none;
}

-- An item with nothing but its id and its engine.
unfoldable pub plain_item : String × String → Item
plain_item (m, k) = record {
  id = m;
  owned_by = k;
  name = m;
  context_length = none;
  resolved_model = none;
}

-- build_model_index: a later spec of the same id wins
index_shown : Dict Shown → List Shown → Dict Shown
index_shown index [] = index
index_shown index (s ∷ ss) = index_shown (put index s.id s) ss

named_item : Item → Option Shown → Item
named_item i none = i
named_item i (some s) = record i { name = s.display_name; context_length = some s.context_length }

-- if entry.resolved_model
abbrev unless_empty : Option String → Option String
unless_empty none = none
unless_empty (some m) = if m == "" then none else some m

unfoldable pub catalog_item : Dict Shown → Entry → Item
unfolding named_item plain_item
catalog_item index e =
    named_item
      (record (plain_item (e.id, e.engine)) { resolved_model = unless_empty e.resolved_model })
      (get index e.id)

-- openai_models, of the values of `entries`
unfoldable pub openai_models : List Shown → List Entry → List Item
unfolding catalog_item index_shown
openai_models specs entries =
    map (catalog_item (index_shown [] specs)) (sort_by (λ e. e.id) entries)

abbrev pub id_of : Item → String
id_of i = i.id

abbrev is_listed : String → List Item → Bool
is_listed m is = elim (find_by id_of m is) [ none ↦ false | some i ↦ true ]

-- The items whose id is not in the list yet; `seen` holds the ids of `data`.
unfoldable pub add_unseen : List Item → List Item → List Item
add_unseen listed [] = listed
add_unseen listed (i ∷ is) =
    add_unseen (if is_listed i.id listed then listed else listed ++ i ∷ []) is

-- What the handler asks, as it is after `refresh_catalog`; `live_tags` are the tags of the first
-- OllamaEngine with its key, none where there is no such engine or its tags cannot be read.
pub record Inventory : Type 0 where
  pub specs : List Shown
  pub discover_enabled : Bool
  pub entries : List Entry
  pub discovered : Dict String
  pub live_tags : Option (String × List String)

tag_items : Option (String × List String) → List Item
unfolding plain_item
tag_items none = []
tag_items (some (k, tags)) = map (λ m. plain_item (m, k)) (sort_by (λ m. m) tags)

-- list_models
unfoldable pub list_models : Inventory → List Item
unfolding static_item openai_models add_unseen tag_items plain_item
list_models v =
    let static : List Item = map static_item v.specs in
    if v.discover_enabled
    then add_unseen (add_unseen static (openai_models v.specs v.entries))
        (map plain_item v.discovered)
    else add_unseen static (tag_items v.live_tags)
