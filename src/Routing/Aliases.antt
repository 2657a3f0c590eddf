-- ===== src/Routing/Aliases.antt =====
-- router/config.py, `_validate_aliases`, and what a valid alias table gives `resolve_model_id` and
-- `acquire` of router/engines.py, which resolve an id twice.
use local_engine_router.Common.{
  ◌≡◌, refl, inl, inr, String, Option, none, some, false, List, [], ◌∷◌, elem, Dict, get,
  if◌then◌else◌, ◌==◌, eq_iff, arith, map, Option-cases,
}
use local_engine_router.Routing.{ModelSpec, Table, resolve_model_id, engine_for}

pub data AliasError : Type 0 where
  empty_alias : AliasError
  empty_target : String → AliasError
  points_at_itself : String → AliasError
  shadows_model : String → AliasError
  is_chain : String → String → AliasError

-- The loop over `aliases.items()`; `keys` are all alias names, `ids` the ids of the static models.
unfoldable pub check_aliases : List String → List String → Dict String → Option AliasError
check_aliases keys ids [] = none
check_aliases keys ids ((alias, target) ∷ rest) =
    if alias == ""
    then some empty_alias
    else if target == ""
    then some (empty_target alias)
    else if target == alias
    then some (points_at_itself alias)
    else if elem alias ids
    then some (shadows_model alias)
    else if elem target keys
    then some (is_chain alias target)
    else check_aliases keys ids rest

abbrev pub keys_of {ℓ} : {V : Type ℓ} → Dict V → List String
keys_of [] = []
keys_of ((k, v) ∷ d) = k ∷ keys_of d

-- _validate_aliases: the error that it raises, if any (its warnings are left out).
unfoldable pub validate_aliases : List ModelSpec → Dict String → Option AliasError
unfolding check_aliases
validate_aliases models aliases = check_aliases (keys_of aliases) (map (λ s. s.id) models) aliases

get-keys : (d : Dict String) (k : String) → elem k (keys_of d) ≡ false → get d k ≡ none
get-keys [] k e = refl
get-keys ((j, v) ∷ d) k e = ground (arith, get-keys d k)

target_real :
    (keys ids : List String) (d : Dict String) (m real : String)
    → check_aliases keys ids d ≡ none
    → get d m ≡ some real
    → (elem real keys ≡ false) × (elem m ids ≡ false) × ((real == "") ≡ false) × ((m == "") ≡ false)
unfolding check_aliases
target_real keys ids [] m real v e = absurd (ground arith)
target_real keys ids ((alias, target) ∷ d) m real v e =
    ground (arith, target_real keys ids d m real, eq_iff alias m)

-- With a valid alias table, resolving an id once more changes nothing.
pub resolve_model_id_idem :
    (models : List ModelSpec) (aliases : Dict String) (m : String)
    → validate_aliases models aliases ≡ none
    → resolve_model_id aliases (resolve_model_id aliases m) ≡ resolve_model_id aliases m
unfolding validate_aliases resolve_model_id
resolve_model_id_idem models aliases m v = elim (Option-cases (get aliases m)) [
  | inl e ↦ ground arith
  | inr (real, e) ↦ ground (
    arith,
    get-keys aliases real
        (target_real (keys_of aliases) (map (λ s. s.id) models) aliases m real v e).0,
  )
]

resolve_model_id-empty :
    (models : List ModelSpec) (aliases : Dict String) (m : String)
    → validate_aliases models aliases ≡ none
    → (resolve_model_id aliases m == "") ≡ (m == "")
unfolding validate_aliases resolve_model_id
resolve_model_id-empty models aliases m v = elim (Option-cases (get aliases m)) [
  | inl e ↦ ground arith
  | inr (real, e) ↦
      ground (arith, target_real (keys_of aliases) (map (λ s. s.id) models) aliases m real v e)
]

-- `acquire` resolves the requested id and hands the result to `engine_for`, which resolves it again:
-- with a valid alias table the engine is the one that `engine_for` gives for the requested id.
pub engine_for-resolve_model_id :
    (t : Table) (m : String)
    → validate_aliases t.models t.aliases ≡ none
    → engine_for t (some (resolve_model_id t.aliases m)) ≡ engine_for t (some m)
unfolding engine_for
engine_for-resolve_model_id t m v =
    rw (resolve_model_id_idem t.models t.aliases m v, resolve_model_id-empty t.models t.aliases m v)
