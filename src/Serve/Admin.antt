-- ===== src/Serve/Admin.antt =====
-- router/app.py, the admin endpoints: what each makes of its body, and the call that it ends in. The
-- answers of those calls, which are sent back as JSON, are left out.
pub mod DryRuns
mod Examples
use local_engine_router.Common.{
  ℕ, ◌≡◌, refl, arith, String, Option, none, some, Bool, true, false, List, [], ◌∷◌, Dict, get, put,
  pop, get-put, get-pop, elem, if◌then◌else◌, ◌&&◌, ◌||◌, ◌==◌, not, Bool-cases, Option-cases, inl,
  inr, ◌⊎◌,
}
use local_engine_router.Json.{
  Json, null, bool, num, str, arr, obj, fields, is_text, strip, truthy, py_str,
}
use local_engine_router.Serve.Bodies.{Raw, no_bytes, not_json, json_value}

-- A response with this status, or the call that the endpoint makes.
pub data Admin {ℓ} (C : Type ℓ) : Type ℓ where
  rejects : (status : ℕ) → Admin C
  calls : C → Admin C

-- _read_json_object; an empty body is no JSON
unfoldable pub read_json_object : Raw → Option (Dict Json)
read_json_object (json_value (obj fs)) = some (fields fs)
read_json_object raw = none

-- isinstance(value, str) and value.strip()
unfoldable pub is_nonblank : Option Json → Bool
is_nonblank (some (str s)) = is_text (strip s)
is_nonblank v = false

-- The text of a value that passed the check.
abbrev text_in : Option Json → Option String
text_in (some (str s)) = some s
text_in v = none

-- value is not None and (not isinstance(value, str) or not value.strip())
abbrev is_absent : Option Json → Bool
is_absent none = true
is_absent (some null) = true
is_absent (some v) = false

unfoldable pub is_malformed : Option Json → Bool
unfolding is_nonblank
is_malformed v = not (is_absent v) && not (is_nonblank v)

-- manager.force_swap(model_id, engine_key)
pub record ForceSwap : Type 0 where
  pub model_id : Option String
  pub engine_key : Option String

swap_checked : Dict Json → Admin ForceSwap
unfolding is_malformed
swap_checked body =
    let model : Option Json = get body "model" in
    let engine : Option Json = get body "engine" in
    if is_malformed model || is_malformed engine
    then rejects 400
    else if is_absent model && is_absent engine
    then rejects 400
    else calls (record { model_id = text_in model; engine_key = text_in engine })

-- A response of 400 where there is no object.
abbrev on_object {ℓ} : {C : Type ℓ} → (Dict Json → Admin C) → Option (Dict Json) → Admin C
on_object f none = rejects 400
on_object f (some body) = f body

-- admin_swap
unfoldable pub admin_swap : Raw → Admin ForceSwap
unfolding swap_checked read_json_object
admin_swap raw = on_object swap_checked (read_json_object raw)

named_model_of : Dict Json → Admin String
unfolding is_nonblank
named_model_of body = elim (text_in (get body "model")) [
  | none ↦ rejects 400
  | some m ↦ if is_text (strip m) then calls m else rejects 400
]

-- admin_resolve, which calls manager.explain_model
unfoldable pub admin_resolve : Raw → Admin String
unfolding named_model_of read_json_object
admin_resolve raw = on_object named_model_of (read_json_object raw)

-- admin_smart_calibrate, which calls run_calibration
unfoldable pub admin_smart_calibrate : (enabled : Bool) → Raw → Admin String
unfolding named_model_of read_json_object
admin_smart_calibrate enabled raw =
    if enabled then on_object named_model_of (read_json_object raw) else rejects 403

-- ROUTING_MODES
abbrev pub routing_modes : List String
routing_modes = "smart" ∷ "manual" ∷ []

-- admin_smart_mode on the mode that is in force: the answer, and the mode after it. A list or a dict as
-- the mode raises as it is looked up, and leaves the mode too; that response has status 500.
abbrev is_hashable : Option Json → Bool
is_hashable (some (arr vs)) = false
is_hashable (some (obj fs)) = false
is_hashable v = true

mode_after : String → Admin String → String
mode_after mode (calls m) = m
mode_after mode (rejects status) = mode

set_mode : Dict Json → Admin String
set_mode body = elim (get body "mode") [
  | some (str mode) ↦ if elem mode routing_modes then calls mode else rejects 400
  | v ↦ if is_hashable v then rejects 400 else rejects 500
]

unfoldable pub admin_smart_mode : String → Raw → Admin String × String
unfolding set_mode read_json_object mode_after
admin_smart_mode mode raw =
    let answer : Admin String = on_object set_mode (read_json_object raw) in
    (answer, mode_after mode answer)

-- The call of admin_smart_resolve: maybe_pick(model, endpoint, synthetic, dry_run=True)
pub record DryRun : Type 0 where
  pub model : String
  pub endpoint : String
  pub synthetic : Dict Json

-- v or default, as a text; `shown` is what `str` makes of lists and dicts
abbrev text_or : (Json → String) → Option Json → String → String
text_or shown none default = default
text_or shown (some v) default = if truthy v then py_str shown (some v) else default

-- (aliases or ["smart"])[0]
abbrev first_alias : List String → String
first_alias [] = "smart"
first_alias (a ∷ as_) = a

-- synthetic.setdefault(key, value)
abbrev set_absent : Dict Json → String → Json → Dict Json
set_absent d k v = elim (get d k) [ none ↦ put d k v | some w ↦ d ]

-- admin_smart_resolve
unfoldable pub dry_run_of : (Json → String) → List String → Dict Json → DryRun
dry_run_of shown aliases body =
    let model : String = text_or shown (get body "model") (first_alias aliases) in
    record {
      model = model;
      endpoint = text_or shown (get body "endpoint") "/v1/chat/completions";
      synthetic = set_absent (pop body "endpoint") "model" (str model);
    }

unfoldable pub admin_smart_resolve : (Json → String) → List String → Raw → Admin DryRun
admin_smart_resolve shown aliases raw =
    on_object (λ body. calls (dry_run_of shown aliases body)) (read_json_object raw)

-- The benchmark calls: of one model, or of all.
abbrev model_or_all : (Json → String) → Dict Json → Option String
model_or_all shown body = elim (get body "model") [
  | none ↦ none
  | some v ↦ if truthy v then some (py_str shown (some v)) else none
]

-- admin_benchmarks_refresh and admin_benchmarks_clear
unfoldable pub admin_benchmarks : (Json → String) → Raw → Admin (Option String)
unfolding read_json_object
admin_benchmarks shown raw =
    on_object (λ body. calls (model_or_all shown body)) (read_json_object raw)
