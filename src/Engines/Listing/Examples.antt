-- ===== src/Engines/Listing/Examples.antt =====
-- Answers of model servers.
use local_engine_router.Common.{◌≡◌, refl, true, false, ◌&&◌, [], ◌∷◌, String, some}
use local_engine_router.Json.{Json, str, num, obj, arr, item, nil, field, end, is_text, strip}
use local_engine_router.Engines.Listing.{Keys, extract_loaded_names, ready_check_passes}
use local_engine_router.Engines.Listing.Mentions.{mentions, ready_check_passes-mentions}

abbrev shown : Json → String
shown v = "?"

abbrev keys : Keys
keys = record { models_key = "data"; name_key = "name"; id_key = "id"; filter = "state == loaded" }

-- {"data": [{"id": "i", "name": "a", "state": "loaded"}, {"id": "b", "state": "off"}]}
abbrev answer : Json
answer = obj (
    field "data"
      (arr (
        item
          (obj (field "id" (str "i") (field "name" (str "a") (field "state" (str "loaded") end))))
          (item (obj (field "id" (str "b") (field "state" (str "off") end))) nil)))
      end)

by_id : extract_loaded_names shown keys true answer ≡ some (str "i" ∷ [])
unfolding extract_loaded_names
by_id = refl

by_name : extract_loaded_names shown keys false answer ≡ some (str "a" ∷ [])
unfolding extract_loaded_names
by_name = refl

has_pair : ready_check_passes shown "n==1" (some (obj (field "n" (num false "1") end))) ≡ true
unfolding ready_check_passes
has_pair = refl

ready_check_passes-mentions_example :
    ready_check_passes shown " model: b " (some answer)
    ≡ (is_text (strip " b") && mentions (strip " b") answer)
ready_check_passes-mentions_example =
    ready_check_passes-mentions shown " model: b " " b" answer refl
