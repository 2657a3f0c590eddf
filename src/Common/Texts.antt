-- ===== src/Common/Texts.antt =====
-- Lists of texts, and Python's `dict` with text keys, as an association list in insertion order.
use Prim.Native.Nat.{ℕ, suc, Ordering}
use Prim.Native.String.{String, compare}
use mathlib.Core.Path.{◌≡◌, refl}
use mathlib.Core.Logic.{inl, inr}
use mathlib.Core.Bool.{Bool, true, false}
use mathlib.Core.Option.{Option, none, some}
use mathlib.Core.List.{List, [], ◌∷◌}
use native.Mathlib.Omega.{arith}
use text.Mathlib.Text.{◌==◌}
use text.Mathlib.TextEquality.{eq_iff}
use local_engine_router.Common.Tests.{if◌then◌else◌, Bool-cases}

-- x in xs
abbrev pub elem : String → List String → Bool
elem x [] = false
elem x (y ∷ ys) = if y == x then true else elem x ys

-- xs.count(x)
abbrev pub count : String → List String → ℕ
count x [] = 0
count x (y ∷ ys) = if y == x then suc (count x ys) else count x ys

-- The first occurrence of `x` is left out.
abbrev pub erase : String → List String → List String
erase x [] = []
erase x (y ∷ ys) = if y == x then ys else y ∷ erase x ys

pub count-erase :
    (k x : String) (ys : List String)
    → elem x ys ≡ true
    → count k ys ≡ (if x == k then suc (count k (erase x ys)) else count k (erase x ys))
count-erase k x [] h = cc
count-erase k x (y ∷ ys) h = ground (arith, count-erase k x ys, eq_iff y x, eq_iff y k, eq_iff x k)

-- d[k] for a total map, and d[k] = v
abbrev pub update {ℓ} : {V : Type ℓ} → (String → V) → String → V → String → V
update f k v j = if k == j then v else f j

abbrev pub Dict {ℓ} : Type ℓ → Type ℓ
Dict V = List (String × V)

module _ {ℓ} {V : Type ℓ} where
  -- d.get(k)
  abbrev pub get : Dict V → String → Option V
  get [] k = none
  get ((j, v) ∷ d) k = if j == k then some v else get d k

  -- d[k] = v: a known key keeps its place, a new one goes to the end
  abbrev pub put : Dict V → String → V → Dict V
  put [] k v = (k, v) ∷ []
  put ((j, w) ∷ d) k v = if j == k then (j, v) ∷ d else (j, w) ∷ put d k v

  -- d.pop(k, None)
  abbrev pub pop : Dict V → String → Dict V
  pop [] k = []
  pop ((j, w) ∷ d) k = if j == k then pop d k else (j, w) ∷ pop d k

  pub get-put :
      (d : Dict V) (k j : String) (v : V) → get (put d k v) j ≡ (if k == j then some v else get d j)
  get-put [] k j v = refl
  get-put ((i, w) ∷ d) k j v = ground (arith, eq_iff k j, eq_iff i k, eq_iff i j, get-put d k j v)

  pub get-pop : (d : Dict V) (k j : String) → get (pop d k) j ≡ (if k == j then none else get d j)
  get-pop [] k j = ground arith
  get-pop ((i, w) ∷ d) k j = ground (arith, get-pop d k j, eq_iff i k, eq_iff i j, eq_iff k j)

-- a, or b where there is none
abbrev pub first_some {ℓ} : {A : Type ℓ} → Option A → Option A → Option A
first_some none b = b
first_some (some x) b = some x

-- m > n
abbrev pub is_after : String → String → Bool
is_after m n = elim (compare m n) [ Ordering.gt ↦ true | _ ↦ false ]

is_after-ne : (m n : String) → is_after m n ≡ true → (m == n) ≡ false
is_after-ne m n h = ground arith

module _ {ℓ} {A : Type ℓ} (key : A → String) where
  unfoldable pub insert_by : A → List A → List A
  insert_by c [] = c ∷ []
  insert_by c (d ∷ ds) =
      let later = insert_by c ds in if is_after (key c) (key d) then d ∷ later else c ∷ d ∷ ds

  -- sorted(xs, key=key)
  unfoldable pub sort_by : List A → List A
  unfolding insert_by
  sort_by [] = []
  sort_by (c ∷ cs) = insert_by c (sort_by cs)

  -- The first member with a key.
  abbrev pub find_by : String → List A → Option A
  find_by k [] = none
  find_by k (x ∷ xs) = if key x == k then some x else find_by k xs

  find-insert_by :
      (k : String) (c : A) (ds : List A)
      → find_by k (insert_by c ds) ≡ (if key c == k then some c else find_by k ds)
  unfolding insert_by
  find-insert_by k c [] = refl
  find-insert_by k c (d ∷ ds) = elim (Bool-cases (is_after (key c) (key d))) [
    | inl y ↦ rw y (
        ground (
          arith,
          is_after-ne (key c) (key d) y,
          eq_iff (key c) k,
          eq_iff (key d) k,
          eq_iff (key c) (key d),
          find-insert_by k c ds,
        ))
    | inr n ↦ rw n refl
  ]

  pub find-sort_by : (k : String) (xs : List A) → find_by k (sort_by xs) ≡ find_by k xs
  unfolding sort_by
  find-sort_by k [] = refl
  find-sort_by k (x ∷ xs) = ground (arith, find-insert_by k x (sort_by xs), find-sort_by k xs)

module _ {ℓ} {V : Type ℓ} where
  -- No key comes twice.
  abbrev pub IsDict : Dict V → Type ℓ
  IsDict [] = Unit {ℓ}
  IsDict ((k, v) ∷ d) = (get d k ≡ none) × IsDict d

  get-insert_by :
      (c : String × V) (d : Dict V) (k : String)
      → get (insert_by (λ e. e.0) c d) k ≡ (if c.0 == k then some c.1 else get d k)
  unfolding insert_by
  get-insert_by c [] k = refl
  get-insert_by c (e ∷ d) k = elim (Bool-cases (is_after c.0 e.0)) [
    | inl y ↦ rw y (
        ground (
          arith,
          is_after-ne c.0 e.0 y,
          eq_iff c.0 k,
          eq_iff e.0 k,
          eq_iff c.0 e.0,
          get-insert_by c d k,
        ))
    | inr n ↦ rw n refl
  ]

  -- dict(sorted(d.items())) has the items of `d`.
  pub get-sort_by : (d : Dict V) (k : String) → get (sort_by (λ e. e.0) d) k ≡ get d k
  unfolding sort_by
  get-sort_by [] k = refl
  get-sort_by (e ∷ d) k = ground (arith, get-insert_by e (sort_by (λ e. e.0) d) k, get-sort_by d k)

  insert_by-IsDict :
      (c : String × V) (d : Dict V)
      → get d c.0 ≡ none
      → IsDict d
      → IsDict (insert_by (λ e. e.0) c d)
  unfolding insert_by
  insert_by-IsDict c [] h i = (h, i)
  insert_by-IsDict c (e ∷ d) h (f, i) = elim (Bool-cases (is_after c.0 e.0)) [
    | inl y ↦ rw y (
      ground (arith, get-insert_by c d e.0, is_after-ne c.0 e.0 y, f),
      insert_by-IsDict c d
          (ground (arith, is_after-ne c.0 e.0 y, eq_iff c.0 e.0, eq_iff e.0 c.0, h)) i,
    )
    | inr n ↦ rw n (h, (f, i))
  ]

  pub sort_by-IsDict : (d : Dict V) → IsDict d → IsDict (sort_by (λ e. e.0) d)
  unfolding sort_by
  sort_by-IsDict [] i = i
  sort_by-IsDict ((k, v) ∷ d) (f, i) =
      insert_by-IsDict (k, v) (sort_by (λ e. e.0) d) (rw get-sort_by f) (sort_by-IsDict d i)
