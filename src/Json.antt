-- ===== src/Json.antt =====
-- What Python's `json` reads, and the tests that the router makes of it. The keys of an object are
-- distinct, as `json` leaves them.
use Prim.Native.Char.{code}
use mathlib.Core.Option.{map as map_option}
use local_engine_router.Common.{
  ℕ, Bool, true, false, not, ◌&&◌, ◌||◌, List, [], ◌∷◌, String, Option, none, some, Dict, eqb, leb,
  if◌then◌else◌, ◌==◌, ◌≡◌, refl, ap,
}

mutual
  -- A number is kept as whether it is zero and what `str` makes of it.
  pub data Json : Type 0 where
    null : Json
    bool : Bool → Json
    num : Bool → String → Json
    str : String → Json
    arr : Items → Json
    obj : Fields → Json

  pub data Items : Type 0 where
    nil : Items
    item : Json → Items → Items

  pub data Fields : Type 0 where
    end : Fields
    field : String → Json → Fields → Fields

abbrev pub items : Items → List Json
items nil = []
items (item v vs) = v ∷ items vs

abbrev pub fields : Fields → Dict Json
fields end = []
fields (field k v fs) = (k, v) ∷ fields fs

-- The object of a dict.
abbrev pub to_fields : Dict Json → Fields
to_fields [] = end
to_fields ((k, v) ∷ d) = field k v (to_fields d)

pub fields-to_fields : (d : Dict Json) → fields (to_fields d) ≡ d
fields-to_fields [] = refl
fields-to_fields ((k, v) ∷ d) = ap (λ e. (k, v) ∷ e) (fields-to_fields d)

-- bool(s)
abbrev pub is_text : String → Bool
is_text String.[] = false
is_text (String.◌∷◌ c s) = true

-- bool(v)
abbrev pub truthy : Json → Bool
truthy null = false
truthy (bool b) = b
truthy (num is_zero s) = not is_zero
truthy (str s) = is_text s
truthy (arr nil) = false
truthy (arr (item v vs)) = true
truthy (obj end) = false
truthy (obj (field k v fs)) = true

-- str(v), of None where a key is missing; `shown` is what it makes of lists and objects
abbrev pub py_str : (Json → String) → Option Json → String
py_str shown none = "None"
py_str shown (some null) = "None"
py_str shown (some (bool true)) = "True"
py_str shown (some (bool false)) = "False"
py_str shown (some (num is_zero s)) = s
py_str shown (some (str s)) = s
py_str shown (some v) = shown v

-- c.isspace()
abbrev pub is_space : ℕ → Bool
is_space c =
    (leb 9 c && leb c 13)
    || (leb 28 c && leb c 32)
    || eqb c 133
    || eqb c 160
    || eqb c 5760
    || (leb 8192 c && leb c 8202)
    || eqb c 8232
    || eqb c 8233
    || eqb c 8239
    || eqb c 8287
    || eqb c 12288

abbrev pub lstrip : String → String
lstrip String.[] = String.[]
lstrip (String.◌∷◌ c s) = let rest = lstrip s in if is_space (code c) then rest else String.◌∷◌ c s

abbrev pub rstrip : String → String
rstrip String.[] = String.[]
rstrip (String.◌∷◌ c s) =
    let rest = rstrip s in
    if is_space (code c) && not (is_text rest) then String.[] else String.◌∷◌ c rest

abbrev pub strip : String → String
strip s = rstrip (lstrip s)

-- s.removeprefix(prefix), and none where s.startswith(prefix) is false
abbrev pub after_prefix : String → String → Option String
after_prefix String.[] s = some s
after_prefix (String.◌∷◌ p ps) String.[] = none
after_prefix (String.◌∷◌ p ps) (String.◌∷◌ c s) =
    let rest = after_prefix ps s in if eqb (code p) (code c) then rest else none

-- s.partition("=="), and none where it is not in s
abbrev pub partition_eq : String → Option (String × String)
partition_eq String.[] = none
partition_eq (String.◌∷◌ c s) =
    let later = partition_eq s in
    elim (after_prefix "==" (String.◌∷◌ c s)) [
      | some value ↦ some (String.[], value)
      | none ↦ map_option (λ r. (String.◌∷◌ c r.0, r.1)) later
    ]

-- s.rstrip("/")
abbrev pub strip_slashes : String → String
strip_slashes String.[] = String.[]
strip_slashes (String.◌∷◌ c s) =
    let rest = strip_slashes s in
    if eqb (code c) b'/' && not (is_text rest) then String.[] else String.◌∷◌ c rest

-- s.endswith(suffix)
abbrev pub ends_with : String → String → Bool
ends_with suffix String.[] = String.[] == suffix
ends_with suffix (String.◌∷◌ c s) = String.◌∷◌ c s == suffix || ends_with suffix s
