-- ===== src/Manager/State.antt =====
-- router/engines.py, `EngineManager`: its fields and the code that runs between two awaits, and
-- `note_swap` of router/smart.py. Durations are whole milliseconds.
use local_engine_router.Common.{
  ℕ, zero, suc, ◌+◌, ◌*◌, ◌/◌, String, Option, none, some, Bool, true, false, List, [], ◌∷◌,
  if◌then◌else◌, ◌==◌, update,
}
use local_engine_router.Metrics
use local_engine_router.Metrics.{Metrics}

-- `_last_swap`
pub record SwapRecord : Type 0 where
  pub from_key : Option String
  pub to_key : String
  pub duration : ℕ
  pub succeeded : Bool
  pub at : ℕ

-- What `_persist` writes of the manager's own fields.
pub record Snapshot : Type 0 where
  pub active_engine : Option String
  pub last_swap : Option SwapRecord

-- `engines` holds the keys of `self.engines` in insertion order. `loads k` says that engine `k` is
-- an APISwapEngine with a load_path. The environment's are `disk_ok`, whether `_persist` can write,
-- `cents`, what round(dt, 2) makes of a duration, and `wall`, the readings of int(time.time()) to come.
pub record Manager : Type 0 where
  pub engines : List String
  pub loads : String → Bool
  pub discover_enabled : Bool
  pub disk_ok : Bool
  pub cents : ℕ → ℕ
  pub wall : ℕ → ℕ
  pub active_engine : Option String
  pub inflight : String → ℕ
  pub last_swap : Option SwapRecord
  pub swap_seconds : String → Option ℕ
  pub metrics : Metrics
  pub bg_tasks : List String
  pub state_file : Option Snapshot

-- SmartRouter.note_swap: the moving average 0.6 * prev + 0.4 * duration
unfoldable pub note_swap : (String → Option ℕ) → String → ℕ → Bool → String → Option ℕ
note_swap seconds key dt false = seconds
note_swap seconds key dt true =
    update seconds key
      (elim (seconds key) [ none ↦ some dt | some prev ↦ some ((6 * prev + 4 * dt) / 10) ])

-- _record_swap
unfoldable pub record_swap : Manager → Option String → String → ℕ → Bool → Manager
unfolding note_swap
record_swap m from to dt ok = record m {
  last_swap = some (record {
    from_key = from;
    to_key = to;
    duration = m.cents dt;
    succeeded = ok;
    at = m.wall 0;
  });
  wall = λ n. m.wall (suc n);
  swap_seconds = note_swap m.swap_seconds to dt ok;
}

-- _persist
unfoldable pub persist : Manager → Manager
persist m =
    if m.disk_ok
    then record m {
      state_file = some (record { active_engine = m.active_engine; last_swap = m.last_swap });
    }
    else m

-- self.active_engine = key; metrics.set_active_engine(key)
unfoldable pub set_active : Manager → Option String → Manager
unfolding Metrics.set_active_engine
set_active m key = record m {
  active_engine = key;
  metrics = Metrics.set_active_engine m.metrics key;
}

record_swap_metrics : Manager → Option String → String → ℕ → Bool → Manager
unfolding Metrics.record_swap
record_swap_metrics m from to dt ok = record m {
  metrics = Metrics.record_swap m.metrics from to dt ok;
}

-- sum(self._inflight.get(key, 0) for key in self.engines if key != target.key)
unfoldable pub in_flight_elsewhere : (String → ℕ) → String → List String → ℕ
in_flight_elsewhere inflight target [] = 0
in_flight_elsewhere inflight target (k ∷ ks) =
    if k == target
    then in_flight_elsewhere inflight target ks
    else inflight k + in_flight_elsewhere inflight target ks

-- `_swap_to` up to its `try`
unfoldable pub begin_swap : Manager → String → Manager
unfolding Metrics.record_in_flight_at_swap_start in_flight_elsewhere
begin_swap m target = record m {
  metrics =
      Metrics.record_in_flight_at_swap_start m.metrics
        (in_flight_elsewhere m.inflight target m.engines);
}

-- The `except` clause of `_swap_to`, before its `raise`
unfoldable pub swap_failed : Manager → Option String → String → ℕ → Manager
unfolding set_active record_swap record_swap_metrics persist
swap_failed m prev target dt = persist (
    record_swap_metrics (record_swap (set_active m none) prev target dt false) prev target dt false)

-- self._bg_tasks.add(task), when discovery is enabled
schedule_snapshot : Manager → String → Manager
schedule_snapshot m target =
    if m.discover_enabled then record m { bg_tasks = target ∷ m.bg_tasks } else m

-- `_swap_to` after its `try`
unfoldable pub swap_done : Manager → Option String → String → ℕ → Manager
unfolding set_active record_swap record_swap_metrics persist schedule_snapshot
swap_done m prev target dt =
    schedule_snapshot
      (persist (
        record_swap_metrics (record_swap (set_active m (some target)) prev target dt true) prev
          target dt true))
      target

-- self._inflight[target.key] += 1
unfoldable pub count_request : Manager → String → Manager
count_request m k = record m { inflight = update m.inflight k (suc (m.inflight k)) }

lower : ℕ → ℕ
lower zero = zero
lower (suc n) = n

-- `release`: `lower` is the guard `> 0` with the decrement
unfoldable pub release : Manager → String → Manager
unfolding lower
release m k = record m { inflight = update m.inflight k (lower (m.inflight k)) }
