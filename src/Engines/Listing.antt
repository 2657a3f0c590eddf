-- ===== src/Engines/Listing.antt =====
-- router/engines.py, what it reads from an engine's answers: the loaded models of `APISwapEngine`, the
-- ids of a model list, the readiness check, and the bodies of load and unload requests.
pub mod Mentions
mod Examples
use Prim.Native.Char.{Char, code}
use mathlib.Core.Option.{map as map_option}
use local_engine_router.Common.{
  Bool, true, false, not, ◌&&◌, ◌||◌, ◌==◌, List, [], ◌∷◌, ◌++◌, map, String, Option, none, some,
  Dict, get, if◌then◌else◌, elem, any_of,
}
use local_engine_router.Json.{
  Json, null, bool, num, str, arr, obj, nil, item, end, field, items, fields, is_text, truthy,
  py_str, strip, after_prefix, partition_eq,
}
use local_engine_router.Engines.StartCmd.{set_add}

-- The configured keys of `loaded_path`
pub record Keys : Type 0 where
  pub models_key : String
  pub name_key : String
  pub id_key : String
  pub filter : String

-- fkey, fval
abbrev pub filter_parts : String → String × String
filter_parts spec = elim (partition_eq spec) [
  | some p ↦ (strip p.0, strip p.1)
  | none ↦ (String.[], String.[])
]

-- m.get(a) or b
abbrev pub or_get : Option Json → Option Json → Option Json
or_get none b = b
or_get (some v) b = if truthy v then some v else b

-- if val: names.append(val)
abbrev pub kept : Option Json → List Json
kept none = []
kept (some v) = if truthy v then v ∷ [] else []

abbrev pub chars : String → List Json
chars String.[] = []
chars (String.◌∷◌ c s) = str (String.◌∷◌ c String.[]) ∷ chars s

-- `for m in entries or []`: none where a number or True is iterated, which raises TypeError
abbrev pub iterated : Json → Option (List Json)
iterated null = some []
iterated (bool b) = if b then none else some []
iterated (num is_zero s) = if is_zero then some [] else none
iterated (str s) = some (chars s)
iterated (arr vs) = some (items vs)
iterated (obj fs) = some (map (λ f. str f.0) (fields fs))

-- The list of entries: a list, a wrapper with the list under a key, or one lone object
listed : Json → Option Json → Option (List Json)
listed answer (some (arr vs)) = some (items vs)
listed answer v = some (answer ∷ [])

unfoldable pub entries_of : String → Json → Option (List Json)
unfolding listed
entries_of key (obj fs) = listed (obj fs) (get (fields fs) key)
entries_of key answer = iterated answer

module _ (shown : Json → String) (k : Keys) (by_id : Bool) where
  -- if fkey and str(m.get(fkey)) != fval: continue
  abbrev pub is_loaded : Dict Json → Bool
  is_loaded m =
      let (fkey, fval) = filter_parts (k.filter) in
      not (is_text fkey) || (py_str shown (get m fkey) == fval)

  abbrev pub name_of : Dict Json → Option Json
  name_of m =
      if by_id && is_text (k.id_key)
      then get m (k.id_key)
      else or_get (get m (k.name_key)) (or_get (get m "model") (get m "id"))

  abbrev pub names_of : Json → List Json
  names_of (str s) = str s ∷ []
  names_of (obj fs) = if is_loaded (fields fs) then kept (name_of (fields fs)) else []
  names_of v = []

  abbrev pub all_names : List Json → List Json
  all_names [] = []
  all_names (m ∷ ms) = names_of m ++ all_names ms

  -- _extract_loaded_names
  unfoldable pub extract_loaded_names : Json → Option (List Json)
  unfolding entries_of
  extract_loaded_names answer = map_option all_names (entries_of (k.models_key) answer)

-- if isinstance(v, str): found.add(v)
abbrev pub add_text : List String → Option Json → List String
add_text found (some (str s)) = set_add found s
add_text found v = found

abbrev pub from_entry : List String → Json → List String
from_entry found (str s) = set_add found s
from_entry found (obj fs) =
    add_text (add_text (add_text found (get (fields fs) "id")) (get (fields fs) "model"))
      (get (fields fs) "name")
from_entry found v = found

abbrev pub from_entries : List String → List Json → List String
from_entries found [] = found
from_entries found (e ∷ es) = from_entries (from_entry found e) es

abbrev pub from_seq : List String → Option Json → List String
from_seq found (some (arr vs)) = from_entries found (items vs)
from_seq found v = found

-- _collect_string_values
unfoldable pub collect_string_values : Json → List String
collect_string_values (arr vs) = from_entries [] (items vs)
collect_string_values (obj fs) =
    from_seq (from_seq (from_entry [] (obj fs)) (get (fields fs) "data")) (get (fields fs) "models")
collect_string_values v = []

-- _iter_objects
abbrev pub objects_in : List Json → List (Dict Json)
objects_in [] = []
objects_in (obj fs ∷ vs) = fields fs ∷ objects_in vs
objects_in (v ∷ vs) = objects_in vs

unfoldable pub iter_objects : Json → List (Dict Json)
iter_objects (obj fs) = fields fs ∷ []
iter_objects (arr vs) = objects_in (items vs)
iter_objects v = []

-- The three forms of a readiness check
pub data Check : Type 0 where
  always : Check
  model : String → Check
  equals : String → String → Check

unfoldable pub parse_check : String → Check
parse_check ready_check =
    let spec = strip ready_check in
    elim (after_prefix "model:" spec) [
      | some id ↦ model (strip id)
      | none ↦ elim (partition_eq spec) [ some p ↦ equals (strip p.0) (strip p.1) | none ↦ always ]
    ]

has_value : (Json → String) → String → String → Dict Json → Bool
has_value shown key value o = elim (get o key) [
  | none ↦ false
  | some v ↦ py_str shown (some v) == value
]

-- the check of a body, none where it is not JSON
check_body : (Json → String) → Check → Option Json → Bool
unfolding collect_string_values iter_objects has_value
check_body shown (model wanted) (some answer) =
    is_text wanted && elem wanted (collect_string_values answer)
check_body shown (equals key value) (some answer) =
    any_of (has_value shown key value) (iter_objects answer)
check_body shown always (some answer) = true
check_body shown c none = false

-- _ready_check_passes
unfoldable pub ready_check_passes : (Json → String) → String → Option Json → Bool
unfolding check_body parse_check
ready_check_passes shown ready_check body =
    if is_text (strip ready_check) then check_body shown (parse_check ready_check) body else true
