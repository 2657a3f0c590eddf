-- ===== src/Metrics.antt =====
-- router/metrics.py: histograms and counters. Seconds are whole milliseconds, so that an observed
-- value and a bucket's bound are numbers; bounds are listed as the source lists them.
pub mod Buckets
pub mod Examples
use local_engine_router.Common.{
  ℕ, suc, ◌+◌, String, Option, none, some, Bool, List, [], ◌∷◌, map, Dict, get, put, leb,
  if◌then◌else◌, ◌==◌,
}

pub record Histogram : Type 0 where
  pub bounds : List ℕ
  pub counts : List ℕ
  pub sum : ℕ
  pub count : ℕ

-- _Histogram.__init__
unfoldable pub new_histogram : List ℕ → Histogram
new_histogram bounds = record { bounds = bounds; counts = map (λ _. 0) bounds; sum = 0; count = 0 }

-- The loop of `observe`: the first bucket whose bound is at least the value, then `break`.
unfoldable pub tally : ℕ → List ℕ → List ℕ → List ℕ
tally value [] cs = cs
tally value (ub ∷ ubs) [] = []
tally value (ub ∷ ubs) (c ∷ cs) = if leb value ub then suc c ∷ cs else c ∷ tally value ubs cs

-- _Histogram.observe
unfoldable pub observe : Histogram → ℕ → Histogram
unfolding tally
observe h value = record h {
  counts = tally value h.bounds h.counts;
  sum = h.sum + value;
  count = h.count + 1;
}

-- The bucket values of `render_lines`: a running total over the counts.
unfoldable pub cumulative_from : ℕ → List ℕ → List ℕ → List (ℕ × ℕ)
cumulative_from total [] cs = []
cumulative_from total (ub ∷ ubs) [] = []
cumulative_from total (ub ∷ ubs) (c ∷ cs) = (ub, total + c) ∷ cumulative_from (total + c) ubs cs

-- _Histogram.render_lines: the value of each `le` bucket, then of `+Inf`, the sum and the count.
unfoldable pub render_lines : Histogram → List (ℕ × ℕ) × ℕ × ℕ × ℕ
unfolding cumulative_from
render_lines h = (cumulative_from 0 h.bounds h.counts, h.count, h.sum, h.count)

-- The labels of `swap_total`: from, to, result.
pub record Labels : Type 0 where
  pub from_key : String
  pub to_key : String
  pub result : String

same_labels : Labels → Labels → Bool
same_labels a b =
    if a.from_key == b.from_key
    then (if a.to_key == b.to_key then a.result == b.result else Bool.false)
    else Bool.false

-- _Counter.inc, by one
unfoldable pub inc : List (Labels × ℕ) → Labels → List (Labels × ℕ)
unfolding same_labels
inc [] l = (l, 1) ∷ []
inc ((m, n) ∷ values) l = if same_labels m l then (m, n + 1) ∷ values else (m, n) ∷ inc values l

pub record Metrics : Type 0 where
  pub swap_duration : Histogram
  pub memory_settle : Histogram
  pub in_flight_at_swap : Histogram
  pub swap_total : List (Labels × ℕ)
  pub active : Option String

abbrev or_none : Option String → String
or_none none = "none"
or_none (some k) = if k == "" then "none" else k

-- record_swap
unfoldable pub record_swap : Metrics → Option String → String → ℕ → Bool → Metrics
unfolding observe inc
record_swap m from to dt ok = record m {
  swap_duration = observe m.swap_duration dt;
  swap_total = inc m.swap_total (record {
    from_key = or_none from;
    to_key = or_none (some to);
    result = if ok then "ok" else "error";
  });
}

-- record_memory_settle
unfoldable pub record_memory_settle : Metrics → ℕ → Metrics
unfolding observe
record_memory_settle m seconds = record m { memory_settle = observe m.memory_settle seconds }

-- record_in_flight_at_swap_start
unfoldable pub record_in_flight_at_swap_start : Metrics → ℕ → Metrics
unfolding observe
record_in_flight_at_swap_start m n = record m { in_flight_at_swap = observe m.in_flight_at_swap n }

-- set_active_engine: the key that the uptime gauge reports (its clock is left out)
unfoldable pub set_active_engine : Metrics → Option String → Metrics
set_active_engine m key = record m { active = key }
