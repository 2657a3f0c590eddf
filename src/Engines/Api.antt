-- ===== src/Engines/Api.antt =====
-- router/engines.py, `APISwapEngine` and `OllamaEngine`: starting, unloading, loading a model, the
-- bodies of these requests, and the cached list of tags.
pub mod Unload
pub mod Tags
mod Examples
use Prim.Native.Char.{Char, code}
use local_engine_router.Common.{
  ℕ, zero, suc, ◌+◌, Bool, true, false, not, ◌&&◌, List, [], ◌∷◌, map, String, Option, none, some,
  Dict, if◌then◌else◌, leb,
}
use local_engine_router.Json.{Json, str, is_text, after_prefix}

-- s + t
abbrev pub joined : String → String → String
joined String.[] v = v
joined (String.◌∷◌ c s) v = String.◌∷◌ c (joined s v)

abbrev pub has_mark : String → Bool
has_mark s = elim (after_prefix "{model}" s) [ none ↦ false | some rest ↦ true ]

-- s.replace("{model}", name); the first argument is how much of a mark is still to be skipped
unfoldable pub replace_mark : String → ℕ → String → String
replace_mark name n String.[] = String.[]
replace_mark name (suc n) (String.◌∷◌ c s) = replace_mark name n s
replace_mark name zero (String.◌∷◌ c s) =
    let plain = String.◌∷◌ c (replace_mark name zero s) in
    let filled = joined name (replace_mark name 6 s) in
    if has_mark (String.◌∷◌ c s) then filled else plain

unfoldable pub fill : String → Json → Json
unfolding replace_mark
fill name (str s) = str (replace_mark name zero s)
fill name v = v

-- _render_body, with none for an absent template or name
abbrev pub or_empty : Option (Dict Json) → Dict Json
or_empty none = []
or_empty (some tmpl) = tmpl

unfoldable pub render_body : Option (Dict Json) → Option String → Dict Json
unfolding fill
render_body tmpl none = or_empty tmpl
render_body tmpl (some name) =
    if is_text name then map (λ f. (f.0, fill name f.1)) (or_empty tmpl) else or_empty tmpl

-- No mark anywhere in a text
abbrev pub is_plain : String → Bool
is_plain String.[] = true
is_plain (String.◌∷◌ c s) = not (has_mark (String.◌∷◌ c s)) && is_plain s

-- What a request brings back: its status, or no answer (httpx.HTTPError, OSError).
pub data Reply : Type 0 where
  status : ℕ → Reply
  unreachable : Reply

-- How load_model ends: without a load_path, with an EngineError, or loaded and the tags forgotten
pub data Loading : Type 0 where
  not_needed load_failed loaded_now : Loading

unfoldable pub load_model : (load_path : String) → Reply → Loading
load_model load_path unreachable = if is_text load_path then load_failed else not_needed
load_model load_path (status code) =
    if is_text load_path then (if leb 400 code then load_failed else loaded_now) else not_needed
