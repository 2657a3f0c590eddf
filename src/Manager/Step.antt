-- ===== src/Manager/Step.antt =====
-- router/engines.py, `EngineManager.acquire`, `force_swap`, `_ensure_model_loaded`, `_swap_to` and
-- `_drain` as one machine. A phase is the await at which the holder of `_swap_lock` stands; an action
-- is what that await answers, or what another task does meanwhile: only `release` runs without the
-- lock. `gpu k` records that engine `k` may hold the GPU, `served` the engines that `acquire` has
-- handed out and that are not released yet; the program keeps neither.
use local_engine_router.Common.{
  ℕ, suc, String, Option, none, some, Bool, true, false, List, [], ◌∷◌, if◌then◌else◌, ◌==◌, elem,
  erase, update,
}
use local_engine_router.Manager.State.{
  Manager, begin_swap, swap_failed, swap_done, count_request, release, set_active,
}
use local_engine_router.Metrics
use local_engine_router.Metrics.{Metrics}

-- A call of `acquire` (`counts` is true) or of `force_swap`, past `engine_for`.
pub record Job : Type 0 where
  pub target : String
  pub model : Option String
  pub counts : Bool

pub data Phase : Type 0 where
  -- in `_drain(key)`; `rest` are the engines that the loop has not reached
  draining : Job → (prev : Option String) → (key : String) → (rest : List String) → Phase
  -- in `engine.free_vram()`
  freeing : Job → (prev : Option String) → (key : String) → (rest : List String) → Phase
  -- in `_await_memory_settle`
  settling : Job → (prev : Option String) → Phase
  -- in `target.ensure_started()`
  starting : Job → (prev : Option String) → Phase
  -- in `target.loaded_model_names()`
  probing : Job → (model : String) → Phase
  -- in `_drain(target.key)` before a load
  load_draining : Job → (model : String) → Phase
  -- in `target.load_model(model_id)`
  loading : Job → (model : String) → Phase
  -- at `async with self._inflight_cond`
  counting : Job → Phase

pub data Action : Type 0 where
  -- `_swap_lock` is obtained
  enter : Job → Action
  -- `_drain` finds, or waits until there is, no request in flight
  drained : Action
  -- `_drain` gives up after drain_timeout_s
  drain_timeout : Action
  -- `free_vram` returns
  freed : Action
  -- the memory has settled, after some time
  settled : (seconds : ℕ) → Action
  -- `ensure_started` returns; the swap took `dt`
  started : (dt : ℕ) → Action
  -- the await raises EngineError, another exception or CancelledError
  raises : (dt : ℕ) → Action
  -- the loaded models' names; an exception counts as no name
  probed : List String → Action
  -- `load_model` returns
  loaded : Action
  -- the condition is obtained
  counted : Action
  -- another task calls `release(engine_key)`
  released : String → Action

pub record System : Type 0 where
  pub manager : Manager
  pub holder : Option Phase
  pub served : List String
  pub gpu : String → Bool

-- The loop's next engine other than the target.
unfoldable pub next_engine : String → List String → Option (String × List String)
next_engine t [] = none
next_engine t (k ∷ ks) = if k == t then next_engine t ks else some (k, ks)

unfoldable pub is_key : Option String → String → Bool
is_key none k = false
is_key (some j) k = j == k

-- `ensure_started` is called: from now on the target may hold the GPU.
unfoldable pub start : System → Job → Option String → System
start s j prev = record s { holder = some (starting j prev); gpu = update s.gpu j.target true }

-- After the loop: the settle wait, if another engine was active.
unfoldable pub after_loop : System → Job → Option String → System
unfolding start is_key
after_loop s j none = start s j none
after_loop s j (some p) =
    if p == j.target then start s j (some p) else record s { holder = some (settling j (some p)) }

unfoldable pub continue_with : System → Job → Option String → Option (String × List String) → System
unfolding after_loop
continue_with s j prev none = after_loop s j prev
continue_with s j prev (some (k, ks)) = record s { holder = some (draining j prev k ks) }

-- The loop of `_swap_to`, from the engines `ks` on.
unfoldable pub swap_loop : System → Job → Option String → List String → System
unfolding next_engine continue_with
swap_loop s j prev ks = continue_with s j prev (next_engine j.target ks)

-- What follows `_ensure_model_loaded`: the count in `acquire`, the end of `force_swap`.
unfoldable pub model_ready : System → Job → System
model_ready s j = record s { holder = if j.counts then some (counting j) else none }

unfoldable pub ensure_model : System → Job → Bool → Option String → System
unfolding model_ready
ensure_model s j false m = model_ready s j
ensure_model s j true none = model_ready s j
ensure_model s j true (some m) =
    if m == "" then model_ready s j else record s { holder = some (probing j m) }

-- `_ensure_model_loaded` up to its first await
unfoldable pub ensure_model_loaded : System → Job → System
unfolding ensure_model
ensure_model_loaded s j = ensure_model s j (s.manager.loads j.target) j.model

-- `_swap_to` up to its `try`
unfoldable pub swap_begun : System → String → System
unfolding begin_swap
swap_begun s target = record s { manager = begin_swap s.manager target }

-- if self.active_engine != target.key: await self._swap_to(target)
unfoldable pub enter_lock : System → Job → System
unfolding is_key
enter_lock s j =
    if is_key s.manager.active_engine j.target
    then ensure_model_loaded s j
    else swap_loop (swap_begun s j.target) j s.manager.active_engine s.manager.engines

-- after `_drain(key)`: active_engine = None, then `free_vram`
unfoldable pub go_free : System → Job → Option String → String → List String → System
unfolding set_active
go_free s j prev k ks = record s {
  manager = set_active s.manager none;
  holder = some (freeing j prev k ks);
}

-- an exception in `_swap_to`
unfoldable pub fail_swap : System → Job → Option String → ℕ → System
unfolding swap_failed
fail_swap s j prev dt = record s { manager = swap_failed s.manager prev j.target dt; holder = none }

-- an exception after the target has become active
unfoldable pub fail_load : System → System
fail_load s = record s { holder = none }

unfoldable pub gpu_freed : System → String → System
gpu_freed s k = record s { gpu = update s.gpu k false }

unfoldable pub free_returns : System → Job → Option String → String → List String → System
free_returns s j prev k ks = swap_loop (gpu_freed s k) j prev ks

-- metrics.record_memory_settle
unfoldable pub settle_recorded : System → ℕ → System
unfolding Metrics.record_memory_settle
settle_recorded s seconds = record s {
  manager = record s.manager { metrics = Metrics.record_memory_settle s.manager.metrics seconds };
}

unfoldable pub settle_returns : System → Job → Option String → ℕ → System
settle_returns s j prev seconds = start (settle_recorded s seconds) j prev

-- `_swap_to` after its `try`
unfoldable pub swap_finished : System → Option String → String → ℕ → System
unfolding swap_done
swap_finished s prev target dt = record s { manager = swap_done s.manager prev target dt }

unfoldable pub start_returns : System → Job → Option String → ℕ → System
start_returns s j prev dt = ensure_model_loaded (swap_finished s prev j.target dt) j

unfoldable pub probe_returns : System → Job → String → List String → System
unfolding model_ready
probe_returns s j m names =
    if elem m names then model_ready s j else record s { holder = some (load_draining j m) }

unfoldable pub count_returns : System → Job → System
unfolding count_request
count_returns s j = record s {
  manager = count_request s.manager j.target;
  holder = none;
  served = j.target ∷ s.served;
}

-- `wait_for` ends `_drain` only with no request in flight; its timeout only with some.
unfoldable pub if_zero : ℕ → System → Option System
if_zero ℕ.zero s = some s
if_zero (suc n) s = none

unfoldable pub if_positive : ℕ → System → Option System
if_positive ℕ.zero s = none
if_positive (suc n) s = some s

-- What the holder of the lock does at its await; `none` is an answer that the await cannot give.
unfoldable pub advance : System → Phase → Action → Option System
unfolding if_zero if_positive
advance s (draining j prev k ks) drained = if_zero (s.manager.inflight k) (go_free s j prev k ks)
advance s (draining j prev k ks) drain_timeout =
    if_positive (s.manager.inflight k) (go_free s j prev k ks)
advance s (draining j prev k ks) (raises dt) = some (fail_swap s j prev dt)
advance s (freeing j prev k ks) freed = some (free_returns s j prev k ks)
advance s (freeing j prev k ks) (raises dt) = some (fail_swap s j prev dt)
advance s (settling j prev) (settled n) = some (settle_returns s j prev n)
advance s (settling j prev) (raises dt) = some (fail_swap s j prev dt)
advance s (starting j prev) (started dt) = some (start_returns s j prev dt)
advance s (starting j prev) (raises dt) = some (fail_swap s j prev dt)
advance s (probing j m) (probed names) = some (probe_returns s j m names)
advance s (probing j m) (raises dt) = some (fail_load s)
advance s (load_draining j m) drained =
    if_zero (s.manager.inflight j.target) (record s { holder = some (loading j m) })
advance s (load_draining j m) drain_timeout =
    if_positive (s.manager.inflight j.target) (record s { holder = some (loading j m) })
advance s (load_draining j m) (raises dt) = some (fail_load s)
advance s (loading j m) loaded = some (model_ready s j)
advance s (loading j m) (raises dt) = some (fail_load s)
advance s (counting j) counted = some (count_returns s j)
advance s (counting j) (raises dt) = some (fail_load s)
advance s ph a = none

-- Every acquire is paired with at most one release: only what is served can be released.
unfoldable pub release_served : System → String → Option System
unfolding release
release_served s k =
    if elem k s.served
    then some (record s { manager = release s.manager k; served = erase k s.served })
    else none

-- A new holder: the lock is free and the target is one of the engines.
unfoldable pub enter_free : System → Option Phase → Job → Option System
unfolding enter_lock
enter_free s none j = if elem j.target s.manager.engines then some (enter_lock s j) else none
enter_free s (some ph) j = none

unfoldable pub holder_step : System → Option Phase → Action → Option System
unfolding advance
holder_step s none a = none
holder_step s (some ph) a = advance s ph a

unfoldable pub step : System → Action → Option System
unfolding release_served enter_free holder_step
step s (released k) = release_served s k
step s (enter j) = enter_free s s.holder j
step s a = holder_step s s.holder a
