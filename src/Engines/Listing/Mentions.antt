-- ===== src/Engines/Listing/Mentions.antt =====
-- Which model ids the readiness check finds in an answer.
use local_engine_router.Common.{
  ◌≡◌, refl, ap, ◌∙◌, arith, eq_iff, Bool, true, false, ◌&&◌, ◌||◌, ◌==◌, List, [], ◌∷◌, ◌++◌,
  String, Option, none, some, get, elem, any_of,
}
use local_engine_router.Json.{
  Json, null, bool, num, str, arr, obj, items, fields, is_text, strip, after_prefix,
}
use local_engine_router.Engines.StartCmd.{set_add}
use local_engine_router.Engines.Listing.{
  add_text, from_entry, from_entries, from_seq, collect_string_values, parse_check,
  ready_check_passes,
}

-- An entry that is the id, or has it under "id", "model" or "name"
abbrev pub is_the : String → Option Json → Bool
is_the w (some (str s)) = s == w
is_the w v = false

abbrev pub names : String → Json → Bool
names w (str s) = s == w
names w (obj fs) =
    is_the w (get (fields fs) "id")
    || is_the w (get (fields fs) "model")
    || is_the w (get (fields fs) "name")
names w v = false

abbrev pub any_names : String → Option Json → Bool
any_names w (some (arr vs)) = any_of (names w) (items vs)
any_names w v = false

-- A list with such an entry, or an object that is one or has such a list under "data" or "models"
abbrev pub mentions : String → Json → Bool
mentions w (arr vs) = any_of (names w) (items vs)
mentions w (obj fs) =
    names w (obj fs)
    || any_names w (get (fields fs) "data")
    || any_names w (get (fields fs) "models")
mentions w v = false

elem-append : (w s : String) (xs : List String) → elem w (xs ++ (s ∷ [])) ≡ (elem w xs || s == w)
elem-append w s [] = ground arith
elem-append w s (x ∷ xs) = ground (arith, elem-append w s xs)

elem-set_add : (w s : String) (xs : List String) → elem w (set_add xs s) ≡ (elem w xs || s == w)
elem-set_add w s xs = ground (arith, elem-append w s xs, eq_iff s w)

elem-add_text :
    (w : String) (xs : List String) (v : Option Json)
    → elem w (add_text xs v) ≡ (elem w xs || is_the w v)
elem-add_text w xs (some (str s)) = elem-set_add w s xs
elem-add_text w xs none = ground arith
elem-add_text w xs (some null) = ground arith
elem-add_text w xs (some (bool b)) = ground arith
elem-add_text w xs (some (num z s)) = ground arith
elem-add_text w xs (some (arr vs)) = ground arith
elem-add_text w xs (some (obj fs)) = ground arith

elem-from_entry :
    (w : String) (xs : List String) (v : Json) → elem w (from_entry xs v) ≡ (elem w xs || names w v)
elem-from_entry w xs (str s) = elem-set_add w s xs
elem-from_entry w xs (obj fs) =
    let a = get (fields fs) "id" in
    let b = get (fields fs) "model" in
    let c = get (fields fs) "name" in
    elem-add_text w (add_text (add_text xs a) b) c
    ∙ ap (λ x. x || is_the w c) (elem-add_text w (add_text xs a) b)
    ∙ ap (λ x. (x || is_the w b) || is_the w c) (elem-add_text w xs a)
    ∙ ground arith
elem-from_entry w xs null = ground arith
elem-from_entry w xs (bool b) = ground arith
elem-from_entry w xs (num z s) = ground arith
elem-from_entry w xs (arr vs) = ground arith

elem-from_entries :
    (w : String) (xs : List String) (vs : List Json)
    → elem w (from_entries xs vs) ≡ (elem w xs || any_of (names w) vs)
elem-from_entries w xs [] = ground arith
elem-from_entries w xs (v ∷ vs) =
    elem-from_entries w (from_entry xs v) vs
    ∙ ap (λ x. x || any_of (names w) vs) (elem-from_entry w xs v)
    ∙ ground arith

elem-from_seq :
    (w : String) (xs : List String) (v : Option Json)
    → elem w (from_seq xs v) ≡ (elem w xs || any_names w v)
elem-from_seq w xs (some (arr vs)) = elem-from_entries w xs (items vs)
elem-from_seq w xs none = ground arith
elem-from_seq w xs (some null) = ground arith
elem-from_seq w xs (some (bool b)) = ground arith
elem-from_seq w xs (some (num z s)) = ground arith
elem-from_seq w xs (some (str s)) = ground arith
elem-from_seq w xs (some (obj fs)) = ground arith

pub elem-collect_string_values :
    (w : String) (v : Json) → elem w (collect_string_values v) ≡ mentions w v
unfolding collect_string_values
elem-collect_string_values w (arr vs) = elem-from_entries w [] (items vs)
elem-collect_string_values w (obj fs) =
    let d = get (fields fs) "data" in
    let m = get (fields fs) "models" in
    elem-from_seq w (from_seq (from_entry [] (obj fs)) d) m
    ∙ ap (λ x. x || any_names w m) (elem-from_seq w (from_entry [] (obj fs)) d)
    ∙ ap (λ x. (x || any_names w d) || any_names w m) (elem-from_entry w [] (obj fs))
    ∙ ground arith
elem-collect_string_values w null = refl
elem-collect_string_values w (bool b) = refl
elem-collect_string_values w (num z s) = refl
elem-collect_string_values w (str s) = refl

asked_text : (s id : String) → after_prefix "model:" s ≡ some id → is_text s ≡ true
asked_text String.[] id e = ground arith
asked_text (String.◌∷◌ c s) id e = refl

-- A readiness check "model:<id>" of a body that is JSON passes just when the id, stripped, is not empty
-- and the body mentions it: as an entry, or as the "id", "model" or "name" of an entry, in a list, in the
-- list under "data" or "models" of an object, or in that object itself.
pub ready_check_passes-mentions :
    (shown : Json → String) (ready_check id : String) (v : Json)
    → after_prefix "model:" (strip ready_check) ≡ some id
    → ready_check_passes shown ready_check (some v) ≡ (is_text (strip id) && mentions (strip id) v)
unfolding ready_check_passes
ready_check_passes-mentions shown ready_check id v e = rw (asked_text (strip ready_check) id e) (
    rw (e, parse_check)
      (ap (λ x. is_text (strip id) && x) (elem-collect_string_values (strip id) v)))
