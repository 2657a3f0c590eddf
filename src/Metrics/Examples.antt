-- ===== src/Metrics/Examples.antt =====
-- A histogram of three buckets with values below, at and above its bounds.
use local_engine_router.Common.{◌≡◌, refl, arith, ℕ, List, [], ◌∷◌, length}
use local_engine_router.Metrics.{new_histogram, render_lines}
use local_engine_router.Metrics.Buckets.{
  observe_all, exact_buckets, total, IsAscending, render_lines-observe_all,
}

abbrev bounds : List ℕ
bounds = 1000 ∷ 5000 ∷ 10000 ∷ []

abbrev values : List ℕ
values = 12000 ∷ 5000 ∷ 700 ∷ []

bounds-IsAscending : IsAscending 0 bounds
bounds-IsAscending = (omega arith, (omega arith, (omega arith, tt)))

render_lines_example :
    render_lines (observe_all (new_histogram bounds) values)
    ≡ (exact_buckets values bounds, length values, total values, length values)
render_lines_example = render_lines-observe_all 0 bounds values bounds-IsAscending

three_buckets : exact_buckets values bounds ≡ (1000, 1) ∷ (5000, 2) ∷ (10000, 2) ∷ []
three_buckets = refl
