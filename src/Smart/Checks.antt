-- ===== src/Smart/Checks.antt =====
-- router/smart.py, `_shape_allows` and `swap_cost_estimate` of `SmartRouter`. Costs are in
-- milliseconds; the configured timeouts are whole seconds.
use local_engine_router.Common.{
  ℕ, ◌+◌, ◌*◌, ◌≤◌, ◌≡◌, arith, String, Option, none, some, Bool, true, false, not, ◌&&◌, ◌||◌,
  if◌then◌else◌, ltb,
}
use local_engine_router.Manager.State.{Manager, in_flight_elsewhere}
use local_engine_router.Manager.Step.{is_key}

-- The flags of a model and of a job that the shape check reads.
pub record Shape : Type 0 where
  pub has_embedding : Bool
  pub looks_embedding : Bool
  pub has_vision : Bool
  pub looks_vision : Bool

pub record JobFlags : Type 0 where
  pub embedding : Bool
  pub images : Bool

-- The model does not fit the job, or it does.
pub data Verdict : Type 0 where
  not_embedding embedding_only no_vision allowed : Verdict

-- _shape_allows
unfoldable pub shape_allows : Shape → JobFlags → Verdict
shape_allows s j =
    let is_embedding : Bool = s.has_embedding || s.looks_embedding in
    if j.embedding
    then (if is_embedding then allowed else not_embedding)
    else if is_embedding
    then embedding_only
    else if j.images
    then (if s.has_vision || s.looks_vision then allowed else no_vision)
    else allowed

abbrev is_allowed : Verdict → Bool
is_allowed allowed = true
is_allowed v = false

abbrev is_same_flag : Bool → Bool → Bool
is_same_flag true b = b
is_same_flag false b = not b

-- A model passes the shape check exactly when it is an embedding model for an embedding job and none
-- for any other, and, for a job with images that is no embedding job, can see.
pub shape_allows_lem :
    (s : Shape) (j : JobFlags)
    → is_allowed (shape_allows s j) ≡ (
        is_same_flag j.embedding (s.has_embedding || s.looks_embedding)
        && (j.embedding || (not j.images || (s.has_vision || s.looks_vision))))
unfolding shape_allows
shape_allows_lem s j = ground arith

-- What the estimate reads of an engine's configuration, 0 where it is missing.
pub record Timeouts : Type 0 where
  pub start_timeout_s : ℕ
  pub load_timeout_s : ℕ

unfoldable pub configured_cost : Timeouts → (settle_timeout_s : ℕ) → ℕ
configured_cost t settle =
    (if ltb 0 t.start_timeout_s
      then 400 * t.start_timeout_s
      else if ltb 0 t.load_timeout_s
      then 500 * t.load_timeout_s
      else 15000)
    + 200 * settle

-- min(10.0, 2.0 * inflight)
unfoldable pub drain_cost : ℕ → ℕ
drain_cost n = if ltb (2000 * n) 10000 then 2000 * n else 10000

abbrev pub or_cost : Option ℕ → ℕ → ℕ
or_cost none c = c
or_cost (some observed) c = observed

-- swap_cost_estimate
unfoldable pub swap_cost_estimate : Manager → (String → Timeouts) → ℕ → String → ℕ
unfolding configured_cost drain_cost is_key in_flight_elsewhere
swap_cost_estimate m timeouts settle k =
    if is_key m.active_engine k
    then 0
    else or_cost (m.swap_seconds k) (configured_cost (timeouts k) settle)
      + drain_cost (in_flight_elsewhere m.inflight k m.engines)

-- The estimate for an engine that is not active is at least the observed duration, or the configured
-- cost where none was observed, and at most ten seconds more, however many requests are in flight.
pub swap_cost_estimate-bounds :
    (m : Manager) (timeouts : String → Timeouts) (settle : ℕ) (k : String)
    → is_key m.active_engine k ≡ false
    → (or_cost (m.swap_seconds k) (configured_cost (timeouts k) settle)
        ≤ swap_cost_estimate m timeouts settle k)
      × (swap_cost_estimate m timeouts settle k
          ≤ or_cost (m.swap_seconds k) (configured_cost (timeouts k) settle) + 10000)
unfolding swap_cost_estimate
swap_cost_estimate-bounds m timeouts settle k n = ground arith
