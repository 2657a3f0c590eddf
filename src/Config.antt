-- ===== src/Config.antt =====
-- router/config.py: what `load_config` makes of the mapping that the YAML file holds. A ConfigError, and
-- any other exception, is `refused`; texts of errors and warnings are left out.
pub mod Numbers
pub mod Smart
pub mod Models
pub mod Load
mod Examples
use local_engine_router.Common.{
  ◌≡◌, refl, ℕ, Bool, true, false, not, ◌&&◌, ◌||◌, ◌==◌, List, [], ◌∷◌, String, Option, none, some,
  elem, if◌then◌else◌, eqb, All, arith, ap,
}
use local_engine_router.Json.{is_text}

pub data Checked {ℓ} (A : Type ℓ) : Type ℓ where
  good : A → Checked A
  refused : Checked A

infixl 5 ◌>>=◌ ◌>>◌
abbrev pub ◌>>=◌ {ℓ κ} : {A : Type ℓ} {B : Type κ} → Checked A → (A → Checked B) → Checked B
good a >>= f = f a
refused >>= f = refused

abbrev pub ◌>>◌ {ℓ} : {B : Type ℓ} → Checked (Unit {0}) → Checked B → Checked B
m >> k = m >>= λ _. k

abbrev pub guard : Bool → Checked (Unit {0})
guard true = good tt
guard false = refused

abbrev or_other {ℓ} : {A : Type ℓ} → A → Checked A → A
or_other a (good b) = b
or_other a refused = a

pub good-injective {ℓ} : {A : Type ℓ} {a b : A} → good a ≡ good b → a ≡ b
good-injective {a = a} e = ap (or_other a) e

-- A parse that succeeds is one of its first step and of the rest.
pub >>=-eq-good {ℓ κ} :
    {A : Type ℓ} {B : Type κ} (m : Checked A) (f : A → Checked B) {b : B}
    → (m >>= f) ≡ good b
    → (a : A) × (m ≡ good a) × (f a ≡ good b)
>>=-eq-good (good a) f e = (a, refl, e)
>>=-eq-good refused f e = absurd (ground arith)

pub >>-eq-good {ℓ} :
    {B : Type ℓ} (c : Bool) (k : Checked B) {b : B}
    → (guard c >> k) ≡ good b
    → (c ≡ true) × (k ≡ good b)
>>-eq-good true k e = (refl, e)
>>-eq-good false k e = absurd (ground arith)

pub data Integer : Type 0 where
  nonneg negative : ℕ → Integer

-- The key of a mapping need not be a text.
pub data Key : Type 0 where
  name : String → Key
  other_key : Key

mutual
  -- What YAML reads; a float is kept as whether it is zero and as it is written.
  pub data Yaml : Type 0 where
    null : Yaml
    bool : Bool → Yaml
    int : Integer → Yaml
    real : Bool → String → Yaml
    text : String → Yaml
    list : Items → Yaml
    mapping : Fields → Yaml

  pub data Items : Type 0 where
    nil : Items
    item : Yaml → Items → Items

  pub data Fields : Type 0 where
    end : Fields
    field : Key → Yaml → Fields → Fields

-- bool(v)
abbrev pub truthy : Yaml → Bool
truthy null = false
truthy (bool b) = b
truthy (int (nonneg n)) = not (eqb n 0)
truthy (int (negative n)) = true
truthy (real is_zero s) = not is_zero
truthy (text s) = is_text s
truthy (list nil) = false
truthy (list (item v vs)) = true
truthy (mapping end) = false
truthy (mapping (field k v fs)) = true

abbrev pub is_named : Key → String → Bool
is_named (name j) k = j == k
is_named other_key k = false

-- raw.get(k)
abbrev pub lookup : Fields → String → Option Yaml
lookup end k = none
lookup (field j v fs) k = if is_named j k then some v else lookup fs k

-- raw.get(k, default), and raw.get(k, None)
abbrev pub get_or : Fields → String → Yaml → Yaml
get_or fs k default = elim (lookup fs k) [ none ↦ default | some v ↦ v ]

abbrev pub get_null : Fields → String → Yaml
get_null fs k = get_or fs k null

-- bool(raw.get(k, default))
abbrev pub flag : Fields → String → Bool → Bool
flag fs k default = truthy (get_or fs k (bool default))

-- set(raw) - KNOWN is empty
abbrev pub all_known : List String → Fields → Bool
all_known known end = true
all_known known (field (name k) v fs) = elem k known && all_known known fs
all_known known (field other_key v fs) = false

-- A mapping, where an absent or empty value stands for an empty one
abbrev pub mapping_or_empty : Yaml → Checked Fields
mapping_or_empty (mapping fs) = good fs
mapping_or_empty v = if truthy v then refused else good end

-- isinstance(v, list) and all(isinstance(a, str) and a for a in v)
abbrev pub named_items : Items → Checked (List String)
named_items nil = good []
named_items (item (text s) vs) = do rest ← named_items vs; guard (is_text s); good (s ∷ rest)
named_items (item v vs) = refused

abbrev pub names_in : Yaml → Checked (List String)
names_in (list vs) = named_items vs
names_in v = refused
