-- ===== src/Engines.antt =====
-- router/engines.py, the engines themselves: `Engine` and its subclasses. What they ask of the operating
-- system and over HTTP is the `Host`, an argument; times are whole milliseconds.
pub mod Waits
pub mod Process
pub mod Groups
pub mod Listing
pub mod Api
pub mod StartCmd
pub mod Examples
use local_engine_router.Common.{ℕ, ◌+◌, ◌≤◌, ◌<◌, Bool, true, false, List, String, Option}

-- SIGTERM or the configured stop signal, and SIGKILL
pub data Signal : Type 0 where
  stop kill : Signal

-- An engine's view of the machine. Each question may let time pass; a clock never goes back.
pub record Host : Type 1 where
  pub World : Type 0
  pub clock : World → ℕ
  pub sleep : ℕ → World → World
  -- `_pids`, `_port_open` and `is_ready`
  pub pids : World → List ℕ × World
  pub port_open : World → Bool × World
  pub is_ready : World → Bool × World
  -- `_launch`; a failure to launch raises
  pub launch : World → Option World
  -- self._proc = None: `_pids` sees a launched process by this handle, others by their command line
  pub forget : World → World
  -- a signal that may not be sent has no effect (Ds4Engine._sigkill_leftover would raise)
  pub signal : Signal → List ℕ → World → World
  pub sleep_lem : (d : ℕ) (w : World) → clock w + d ≤ clock (sleep d w)
  pub pids_lem : (w : World) → clock w ≤ clock (pids w).1
  pub port_open_lem : (w : World) → clock w ≤ clock (port_open w).1
  pub is_ready_lem : (w : World) → clock w ≤ clock (is_ready w).1
