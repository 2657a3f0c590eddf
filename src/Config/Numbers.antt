-- ===== src/Config/Numbers.antt =====
-- router/config.py, the numbers: `_parse_nonnegative_float`, `_parse_fraction`, `_parse_weight_table`.
-- Python's floats are an argument.
use local_engine_router.Common.{
  ◌≡◌, subst, ℕ, ◌≤◌, ◌<◌, arith, Bool, true, false, not, ◌||◌, List, [], ◌∷◌, String, Option, none,
  some, elem, All, Dict,
}
use local_engine_router.Config.{
  Checked, Integer, good, refused, ◌>>=◌, ◌>>◌, guard, >>=-eq-good, >>-eq-good, good-injective,
  Yaml, bool, mapping, Fields, end, field, name, other_key,
}

pub record Numbers : Type 1 where
  pub F : Type 0
  -- float(v), refused where it raises
  pub to_float : Yaml → Checked F
  -- int(v), refused where it raises
  pub to_int : Yaml → Checked Integer
  pub is_finite : F → Bool
  -- a <= b, false with NaN
  pub le : F → F → Bool
  pub lt : F → F → Bool
  -- the literal a / 100
  pub hundredths : ℕ → F
  -- literals are finite, not negative, and at most 1 where they are written so
  pub hundredths_finite : (a : ℕ) → a < 1000000000000 → is_finite (hundredths a) ≡ true
  pub hundredths_nonneg : (a : ℕ) → lt (hundredths a) (hundredths 0) ≡ false
  pub hundredths_fraction : (a : ℕ) → a ≤ 100 → lt (hundredths 100) (hundredths a) ≡ false

-- SMART_WEIGHT_KEYS
abbrev pub weight_keys : List String
weight_keys = "quality" ∷ "speed" ∷ "residency" ∷ "swap_cost" ∷ "reliability" ∷ "context" ∷ []

module _ (N : Numbers) where
  open N use {F, to_float, is_finite, lt, hundredths}

  -- _parse_nonnegative_float
  unfoldable pub parse_nonnegative_float : Yaml → Checked F
  parse_nonnegative_float (bool b) = refused
  parse_nonnegative_float v = do
    out ← to_float v
    guard (is_finite out)
    guard (not (lt out (hundredths 0)))
    good out

  -- _parse_fraction
  unfoldable pub parse_fraction : Yaml → Checked F
  unfolding parse_nonnegative_float
  parse_fraction v = do
    out ← parse_nonnegative_float v
    guard (not (lt (hundredths 100) out))
    good out

  -- raw.get(k, default)
  abbrev pub float_or : Option Yaml → ℕ → Checked F
  float_or none default = good (hundredths default)
  float_or (some v) default = parse_nonnegative_float v

  abbrev pub fraction_or : Option Yaml → ℕ → Checked F
  fraction_or none default = good (hundredths default)
  fraction_or (some v) default = parse_fraction v

  abbrev pub weights_of : Fields → Checked (Dict F)
  weights_of end = good []
  weights_of (field (name k) v fs) = do
    out ← parse_nonnegative_float v
    rest ← weights_of fs
    guard (elem k weight_keys)
    good ((k, out) ∷ rest)
  weights_of (field other_key v fs) = refused

  -- not out, or any(v > 0 for v in out.values())
  abbrev pub any_positive : Dict F → Bool
  any_positive [] = false
  any_positive ((k, v) ∷ d) = lt (hundredths 0) v || any_positive d

  abbrev pub has_weight : Dict F → Bool
  has_weight [] = true
  has_weight (p ∷ d) = any_positive (p ∷ d)

  -- _parse_weight_table
  unfoldable pub parse_weight_table : Yaml → Checked (Dict F)
  unfolding parse_nonnegative_float
  parse_weight_table (mapping fs) = do out ← weights_of fs; guard (has_weight out); good out
  parse_weight_table v = refused

  -- A finite float that is not negative, and one that is at most 1
  abbrev pub IsNonneg : F → Type 0
  IsNonneg x = (is_finite x ≡ true) × (lt x (hundredths 0) ≡ false)

  abbrev pub IsFraction : F → Type 0
  IsFraction x = IsNonneg x × (lt (hundredths 100) x ≡ false)

  abbrev pub IsWeight : String × F → Type 0
  IsWeight p = (elem p.0 weight_keys ≡ true) × IsNonneg p.1

  -- Known keys, each with such a weight, one of them positive if there are any
  abbrev pub IsTable : Dict F → Type 0
  IsTable d = All IsWeight d × (has_weight d ≡ true)

  checked-IsNonneg :
      (m : Checked F) (x : F)
      → (m >>= λ out. guard (is_finite out) >> (guard (not (lt out (hundredths 0))) >> good out))
        ≡ good x
      → IsNonneg x
  checked-IsNonneg (good y) x e = ground arith
  checked-IsNonneg refused x e = absurd (ground arith)

  pub parse_nonnegative_float-IsNonneg :
      (v : Yaml) (x : F) → parse_nonnegative_float v ≡ good x → IsNonneg x
  unfolding parse_nonnegative_float
  parse_nonnegative_float-IsNonneg (bool b) x e = absurd (ground arith)
  parse_nonnegative_float-IsNonneg v x e = checked-IsNonneg (to_float v) x e

  pub parse_fraction-IsFraction : (v : Yaml) (x : F) → parse_fraction v ≡ good x → IsFraction x
  unfolding parse_fraction
  parse_fraction-IsFraction v x e =
      let (y, parsed, rest) = >>=-eq-good (parse_nonnegative_float v) _ e in
      let (small, same) = >>-eq-good (not (lt (hundredths 100) y)) (good y) rest in
      subst IsFraction (good-injective same)
        (parse_nonnegative_float-IsNonneg v y parsed, ground arith)

  pub float_or-IsNonneg :
      (v : Option Yaml) (a : ℕ) (x : F) → a < 1000000000000 → float_or v a ≡ good x → IsNonneg x
  float_or-IsNonneg none a x small e =
      subst IsNonneg (good-injective e) (N.hundredths_finite a small, N.hundredths_nonneg a)
  float_or-IsNonneg (some v) a x small e = parse_nonnegative_float-IsNonneg v x e

  pub fraction_or-IsFraction :
      (v : Option Yaml) (a : ℕ) (x : F) → a ≤ 100 → fraction_or v a ≡ good x → IsFraction x
  fraction_or-IsFraction none a x small e =
      subst IsFraction (good-injective e) (
        (N.hundredths_finite a (omega arith), N.hundredths_nonneg a),
        N.hundredths_fraction a small,
      )
  fraction_or-IsFraction (some v) a x small e = parse_fraction-IsFraction v x e

  weights_of-IsWeight : (fs : Fields) (d : Dict F) → weights_of fs ≡ good d → All IsWeight d
  weights_of-IsWeight end d e = subst (All IsWeight) (good-injective e) tt
  weights_of-IsWeight (field (name k) v fs) d e =
      let (x, parsed, more) = >>=-eq-good (parse_nonnegative_float v) _ e in
      let (rest, later, last) = >>=-eq-good (weights_of fs) _ more in
      let (known, same) = >>-eq-good (elem k weight_keys) (good ((k, x) ∷ rest)) last in
      subst (All IsWeight) (good-injective same)
        ((known, parse_nonnegative_float-IsNonneg v x parsed), weights_of-IsWeight fs rest later)
  weights_of-IsWeight (field other_key v fs) d e = absurd (ground arith)

  pub parse_weight_table-IsTable :
      (v : Yaml) (d : Dict F) → parse_weight_table v ≡ good d → IsTable d
  unfolding parse_weight_table
  parse_weight_table-IsTable (mapping fs) d e =
      let (out, parsed, rest) = >>=-eq-good (weights_of fs) _ e in
      let (some_weight, same) = >>-eq-good (has_weight out) (good out) rest in
      subst IsTable (good-injective same) (weights_of-IsWeight fs out parsed, some_weight)
  parse_weight_table-IsTable v d e = absurd (ground arith)
