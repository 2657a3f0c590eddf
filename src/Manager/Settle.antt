-- ===== src/Manager/Settle.antt =====
-- router/engines.py, `EngineManager._await_memory_settle`: the readings of available memory that its
-- loop takes before the deadline, in kB.
use local_engine_router.Common.{
  ℕ, ◌+◌, ◌≡◌, refl, sym, ◌∙◌, Option, none, some, Bool, false, List, [], ◌∷◌, if◌then◌else◌, ◌&&◌,
  ltb, leb, Bool-cases, inl, inr,
}

pub data Settled : Type 0 where
  -- memory cannot be read; it has settled; the deadline has passed
  unreadable timed_out : Settled
  settled : (avail : ℕ) → Settled

-- prev >= 0 and (avail - prev) < 1_000_000; `none` is the -1 before the first reading
unfoldable pub is_calm : Option ℕ → ℕ → Bool
is_calm none avail = false
is_calm (some prev) avail = ltb avail (prev + 1000000)

-- The loop.
unfoldable pub settle : Option ℕ → (stable : ℕ) → List (Option ℕ) → Settled
unfolding is_calm
settle prev stable [] = timed_out
settle prev stable (none ∷ rest) = unreadable
settle prev stable (some avail ∷ rest) =
    let calm = settle (some avail) (stable + 1) rest in
    let rising = settle (some avail) 0 rest in
    if is_calm prev avail then (if leb 2 (stable + 1) then settled avail else calm) else rising

-- The reference: the first reading that ends three in a row of which none rose by a GB over the last.
pub first_steady : List (Option ℕ) → Settled
first_steady [] = timed_out
first_steady (none ∷ rest) = unreadable
first_steady (some x ∷ []) = timed_out
first_steady (some x ∷ none ∷ rest) = unreadable
first_steady (some x ∷ some y ∷ []) = timed_out
first_steady (some x ∷ some y ∷ none ∷ rest) = unreadable
first_steady (some x ∷ some y ∷ some z ∷ rest) =
    let later = first_steady (some y ∷ some z ∷ rest) in
    if ltb y (x + 1000000) && ltb z (y + 1000000) then settled z else later

-- With `y` the last reading and `stable` as after `x` and `y`.
settle-next :
    (x y : ℕ) (rest : List (Option ℕ))
    → settle (some y) (if ltb y (x + 1000000) then 1 else 0) rest
      ≡ first_steady (some x ∷ some y ∷ rest)
unfolding settle first_steady
settle-next x y [] = refl
settle-next x y (none ∷ rest) = refl
settle-next x y (some z ∷ rest) = elim (Bool-cases (ltb y (x + 1000000))) [
  | inl e ↦ elim (Bool-cases (ltb z (y + 1000000))) [
    | inl f ↦ rw e (rw f refl)
    | inr f ↦ rw e (rw f (sym (rw f refl) ∙ settle-next y z rest))
  ]
  | inr e ↦ elim (Bool-cases (ltb z (y + 1000000))) [
    | inl f ↦ rw e (rw f (sym (rw f refl) ∙ settle-next y z rest))
    | inr f ↦ rw e (rw f (sym (rw f refl) ∙ settle-next y z rest))
  ]
]

settle-first :
    (x : ℕ) (rest : List (Option ℕ)) → settle (some x) 0 rest ≡ first_steady (some x ∷ rest)
unfolding settle first_steady
settle-first x [] = refl
settle-first x (none ∷ rest) = refl
settle-first x (some y ∷ rest) = elim (Bool-cases (ltb y (x + 1000000))) [
  | inl e ↦ rw e (sym (rw e refl) ∙ settle-next x y rest)
  | inr e ↦ rw e (sym (rw e refl) ∙ settle-next x y rest)
]

-- The settle loop ends as the first three readings in a row of which none rose by 1,000,000 kB or more
-- over the last say: with the third of them, or unreadable where a reading before that fails, or at
-- the deadline where neither comes.
pub settle-first_steady :
    (readings : List (Option ℕ)) → settle none 0 readings ≡ first_steady readings
unfolding settle first_steady
settle-first_steady [] = refl
settle-first_steady (none ∷ rest) = refl
settle-first_steady (some x ∷ rest) = settle-first x rest
