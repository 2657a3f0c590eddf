-- ===== src/Metrics/Buckets.antt =====
-- What the buckets of a histogram report (router/metrics.py, `_Histogram`).
use local_engine_router.Common.{
  ℕ, suc, ◌+◌, ◌≤◌, ◌≡◌, refl, sym, ap, ◌∙◌, List, [], ◌∷◌, map, arith, leb, if◌then◌else◌, length,
}
use local_engine_router.Metrics.{
  Histogram, new_histogram, tally, observe, cumulative_from, render_lines,
}

-- The observed values, newest first.
pub observe_all : Histogram → List ℕ → Histogram
observe_all h [] = h
observe_all h (v ∷ vs) = observe (observe_all h vs) v

-- How many of the values are at most `b`.
abbrev pub at_most : ℕ → List ℕ → ℕ
at_most b [] = 0
at_most b (v ∷ vs) = if leb v b then suc (at_most b vs) else at_most b vs

-- The bounds rise from `lo` on.
abbrev pub IsAscending : ℕ → List ℕ → Type 0
IsAscending lo [] = Unit {0}
IsAscending lo (b ∷ bs) = (lo ≤ b) × IsAscending b bs

-- The reference: each bound with the number of values that it covers.
abbrev pub exact_buckets : List ℕ → List ℕ → List (ℕ × ℕ)
exact_buckets vs bs = map (λ b. (b, at_most b vs)) bs

-- One more value `v`, in every bucket that covers it.
abbrev bump : ℕ → List (ℕ × ℕ) → List (ℕ × ℕ)
bump v [] = []
bump v ((b, n) ∷ bs) = (b, if leb v b then suc n else n) ∷ bump v bs

exact_buckets-cons :
    (v : ℕ) (vs bs : List ℕ) → exact_buckets (v ∷ vs) bs ≡ bump v (exact_buckets vs bs)
exact_buckets-cons v vs [] = refl
exact_buckets-cons v vs (b ∷ bs) =
    ap (λ r. (b, at_most b (v ∷ vs)) ∷ r) (exact_buckets-cons v vs bs)

cumulative_from-suc :
    (v t lo : ℕ) (bs cs : List ℕ)
    → v ≤ lo
    → IsAscending lo bs
    → cumulative_from (suc t) bs cs ≡ bump v (cumulative_from t bs cs)
unfolding cumulative_from
cumulative_from-suc v t lo [] cs h a = refl
cumulative_from-suc v t lo (b ∷ bs) [] h a = refl
cumulative_from-suc v t lo (b ∷ bs) (c ∷ cs) h a =
    ground (arith, cumulative_from-suc v (t + c) b bs cs)

cumulative_from-tally :
    (v t lo : ℕ) (bs cs : List ℕ)
    → IsAscending lo bs
    → cumulative_from t bs (tally v bs cs) ≡ bump v (cumulative_from t bs cs)
unfolding cumulative_from tally
cumulative_from-tally v t lo [] cs a = refl
cumulative_from-tally v t lo (b ∷ bs) [] a = refl
cumulative_from-tally v t lo (b ∷ bs) (c ∷ cs) a =
    ground (arith, cumulative_from-suc v (t + c) b bs cs, cumulative_from-tally v (t + c) b bs cs)

cumulative_from-new : (bs : List ℕ) → cumulative_from 0 bs (map (λ _. 0) bs) ≡ exact_buckets [] bs
unfolding cumulative_from
cumulative_from-new [] = refl
cumulative_from-new (b ∷ bs) = ap (λ r. (b, 0) ∷ r) (cumulative_from-new bs)

bounds-observe_all : (bs vs : List ℕ) → (observe_all (new_histogram bs) vs).bounds ≡ bs
unfolding observe_all new_histogram observe
bounds-observe_all bs [] = refl
bounds-observe_all bs (v ∷ vs) = bounds-observe_all bs vs

buckets-observe_all :
    (lo : ℕ) (bs vs : List ℕ)
    → IsAscending lo bs
    → cumulative_from 0 bs (observe_all (new_histogram bs) vs).counts ≡ exact_buckets vs bs
unfolding observe_all new_histogram observe
buckets-observe_all lo bs [] a = cumulative_from-new bs
buckets-observe_all lo bs (v ∷ vs) a = rw (bounds-observe_all bs vs) (
    cumulative_from-tally v 0 lo bs (observe_all (new_histogram bs) vs).counts a
    ∙ ap (bump v) (buckets-observe_all lo bs vs a)
    ∙ sym (exact_buckets-cons v vs bs))

abbrev pub total : List ℕ → ℕ
total [] = 0
total (v ∷ vs) = total vs + v

count-observe_all :
    (bs vs : List ℕ)
    → ((observe_all (new_histogram bs) vs).count ≡ length vs)
      × ((observe_all (new_histogram bs) vs).sum ≡ total vs)
unfolding observe_all new_histogram observe
count-observe_all bs [] = (refl, refl)
count-observe_all bs (v ∷ vs) = omega (arith, count-observe_all bs vs)

-- A histogram whose bounds ascend, made empty and given any values, renders for each bound the
-- number of values at most that bound, then the number of all values, their sum, and their number
-- again.
pub render_lines-observe_all :
    (lo : ℕ) (bs vs : List ℕ)
    → IsAscending lo bs
    → render_lines (observe_all (new_histogram bs) vs)
      ≡ (exact_buckets vs bs, length vs, total vs, length vs)
unfolding render_lines
render_lines-observe_all lo bs vs a =
    rw (bounds-observe_all bs vs) (
      cc (buckets-observe_all lo bs vs a, (count-observe_all bs vs).0, (count-observe_all bs vs).1))
