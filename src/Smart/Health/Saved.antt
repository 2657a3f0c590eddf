-- ===== src/Smart/Health/Saved.antt =====
-- router/smart.py, `state_payload` and `load_state`: what a restart keeps of the health, the calibration
-- and the swap times. What int() and float() make of a value, in milliseconds, and the numbers that
-- json.dump writes are arguments; negative numbers in the file are outside.
use Prim.Native.String.{count}
use mathlib.Core.Option.{map as map_option}
use local_engine_router.Common.{
  ℕ, ◌-◌, ◌≡◌, refl, String, Option, none, some, [], ◌∷◌, map, Dict, get, put, get-put, first_some,
  sort_by, get-sort_by, IsDict, sort_by-IsDict, ◌==◌, eq_iff, Bool-cases, inl, inr, subst, ap,
}
use local_engine_router.Json.{Json, str, obj, fields, to_fields, fields-to_fields, py_str}
use local_engine_router.Config.{Checked, good, refused, ◌>>=◌}
use local_engine_router.Smart.Gather.{drop_text}
use local_engine_router.Smart.Health.{ModelHealth, fresh}

-- The numbers of the state file: what is read of a value, none where int() or float() raises, what is
-- written, and round(t, 1).
pub record Numbers : Type 0 where
  pub int_of : Json → Option ℕ
  pub float_of : Json → Option ℕ
  pub of_int : ℕ → Json
  pub of_float : ℕ → Json
  pub tenths : ℕ → ℕ
  pub shown : Json → String

-- A number that is written is read back.
pub record IsRead (n : Numbers) : Type 0 where
  pub ints : (k : ℕ) → n.int_of (n.of_int k) ≡ some k
  pub floats : (t : ℕ) → n.float_of (n.of_float t) ≡ some t

-- What SmartRouter keeps over a restart
pub record Learned : Type 0 where
  pub health : Dict ModelHealth
  pub calibration : Dict (Dict Json)
  pub swap_seconds : Dict ℕ

-- last_error[-300:]
abbrev pub last_300 : String → String
last_300 s = drop_text (count s - 300) s

abbrev checked : Option ℕ → Checked ℕ
checked none = refused
checked (some n) = good n

-- number(data.get(key, 0))
abbrev number_in : (Json → Option ℕ) → Dict Json → String → Checked ℕ
number_in read d key = elim (get d key) [ none ↦ good 0 | some v ↦ checked (read v) ]

-- str(data.get(key, ""))
abbrev text_at : (Json → String) → Dict Json → String → String
text_at shown d key = elim (get d key) [ none ↦ "" | some v ↦ py_str shown (some v) ]

abbrev or_fresh : Checked ModelHealth → ModelHealth
or_fresh (good h) = h
or_fresh refused = fresh

-- sorted(d.items()), as an object
abbrev object_of {ℓ} : {V : Type ℓ} → (V → Json) → Dict V → Json
object_of write d = obj (to_fields (map (λ e. (e.0, write e.1)) (sort_by (λ e. e.0) d)))

-- The entries that are read, put into a dict; one that raises is left out.
unfoldable pub put_read {ℓ} : {V : Type ℓ} → (Json → Option V) → Dict V → Dict Json → Dict V
put_read read d [] = d
put_read read d ((k, v) ∷ es) = elim (read v) [
  | none ↦ put_read read d es
  | some x ↦ put_read read (put d k x) es
]

-- The entries of a section that is an object.
abbrev section_of : Dict Json → String → Dict Json
section_of d key = elim (get d key) [ some (obj fs) ↦ fields fs | _ ↦ [] ]

abbrev object_in : Json → Option (Dict Json)
object_in (obj fs) = some (fields fs)
object_in v = none

abbrev pub of_dict : Dict Json → Json
of_dict d = obj (to_fields d)

module _ (n : Numbers) where
  -- ModelHealth.to_dict
  unfoldable pub to_dict : ModelHealth → Json
  to_dict h = obj (
      to_fields (
        ("consecutive_failures", n.of_int h.consecutive_failures)
        ∷ ("total_failures", n.of_int h.total_failures)
        ∷ ("total_successes", n.of_int h.total_successes)
        ∷ ("cooldown_until", n.of_float (n.tenths h.cooldown_until))
        ∷ ("last_error", str (last_300 h.last_error))
        ∷ ("last_failure_at", n.of_float (n.tenths h.last_failure_at))
        ∷ []))

  -- The fields of a dict, where no number raises.
  fields_of : Dict Json → Checked ModelHealth
  fields_of d = do
    consecutive ← number_in n.int_of d "consecutive_failures"
    failures ← number_in n.int_of d "total_failures"
    successes ← number_in n.int_of d "total_successes"
    until ← number_in n.float_of d "cooldown_until"
    at ← number_in n.float_of d "last_failure_at"
    good (record {
      consecutive_failures = consecutive;
      total_failures = failures;
      total_successes = successes;
      cooldown_until = until;
      last_error = text_at n.shown d "last_error";
      last_failure_at = at;
    })

  -- ModelHealth.from_dict
  unfoldable pub from_dict : Json → ModelHealth
  unfolding fields_of
  from_dict (obj fs) = or_fresh (fields_of (fields fs))
  from_dict v = fresh

  -- state_payload
  unfoldable pub state_payload : Learned → Json
  unfolding to_dict
  state_payload s = obj (
      to_fields (
        ("health", object_of to_dict s.health)
        ∷ ("calibration", object_of of_dict s.calibration)
        ∷ ("swap_seconds", object_of (λ t. n.of_float (n.tenths t)) s.swap_seconds)
        ∷ []))

  -- load_state
  unfoldable pub load_state : Learned → Json → Learned
  unfolding from_dict put_read
  load_state s (obj fs) = record {
    health = put_read (λ v. some (from_dict v)) s.health (section_of (fields fs) "health");
    calibration = put_read object_in s.calibration (section_of (fields fs) "calibration");
    swap_seconds = put_read n.float_of s.swap_seconds (section_of (fields fs) "swap_seconds");
  }
  load_state s v = s

-- What a restart keeps of the health of a model
unfoldable pub restored : Numbers → ModelHealth → ModelHealth
restored n h = record h {
  cooldown_until = n.tenths h.cooldown_until;
  last_error = last_300 h.last_error;
  last_failure_at = n.tenths h.last_failure_at;
}

from_dict-to_dict :
    (n : Numbers) → IsRead n → (h : ModelHealth) → from_dict n (to_dict n h) ≡ restored n h
unfolding from_dict to_dict restored
from_dict-to_dict n r h =
    rw
      (
        r.ints h.consecutive_failures,
        r.ints h.total_failures,
        r.ints h.total_successes,
        r.floats (n.tenths h.cooldown_until),
        r.floats (n.tenths h.last_failure_at),
      )
      refl

module _ {ℓ} {V : Type ℓ} (read : Json → Option V) (write : V → Json) (keep : V → V)
    (is_kept : (v : V) → read (write v) ≡ some (keep v)) where
  get-put_read :
      (d es : Dict V) (k : String)
      → IsDict es
      → get (put_read read d (map (λ e. (e.0, write e.1)) es)) k
        ≡ first_some (map_option keep (get es k)) (get d k)
  unfolding put_read
  get-put_read d [] k i = refl
  get-put_read d ((j, v) ∷ es) k (f, i) =
      rw (is_kept, get-put_read (put d j (keep v)) es k i, get-put d j k (keep v))
        (elim (Bool-cases (j == k)) [
          | inl y ↦ rw (y, subst (λ x. get es x ≡ none) ((eq_iff j k).0 y) f) refl
          | inr x ↦ rw x refl
        ])

  -- A section that is written is read back, where nothing was there before.
  get-section :
      (d : Dict V) (k : String)
      → IsDict d
      → get (put_read read [] (map (λ e. (e.0, write e.1)) (sort_by (λ e. e.0) d))) k
        ≡ map_option keep (get d k)
  get-section d k i =
      rw (get-put_read [] (sort_by (λ e. e.0) d) k (sort_by-IsDict d i), get-sort_by d k)
        (or_none (get d k))
    where
      or_none : (o : Option V) → first_some (map_option keep o) none ≡ map_option keep o
      or_none none = refl
      or_none (some v) = refl

abbrev pub unlearned : Learned
unlearned = record { health = []; calibration = []; swap_seconds = [] }

-- A router that is started again from its saved state has the health, the calibration and the swap time
-- of each model and engine that it had: the numbers as before, the times rounded to tenths of a second,
-- and the last 300 characters of an error; and it has those of no other.
pub load_state-state_payload :
    (n : Numbers) (s : Learned) (k : String)
    → IsRead n
    → IsDict s.health
    → IsDict s.calibration
    → IsDict s.swap_seconds
    → (get (load_state n unlearned (state_payload n s)).health k
        ≡ map_option (restored n) (get s.health k))
      × ((get (load_state n unlearned (state_payload n s)).calibration k ≡ get s.calibration k)
          × (get (load_state n unlearned (state_payload n s)).swap_seconds k
              ≡ map_option n.tenths (get s.swap_seconds k)))
unfolding load_state state_payload
load_state-state_payload n s k r h c w = (
  rw fields-to_fields (
      get-section (λ v. some (from_dict n v)) (to_dict n) (restored n)
        (λ v. ap some (from_dict-to_dict n r v)) s.health k h),
  (
    rw fields-to_fields (
        same _ (get s.calibration k) (
          get-section object_in of_dict (λ d. d) (λ d. ap some (fields-to_fields d)) s.calibration k
            c)),
    rw fields-to_fields (
        get-section n.float_of (λ t. n.of_float (n.tenths t)) n.tenths (λ t. r.floats (n.tenths t))
          s.swap_seconds k w),
  ),
)
  where
    same : (o p : Option (Dict Json)) → o ≡ map_option (λ d. d) p → o ≡ p
    same o none e = e
    same o (some d) e = e
