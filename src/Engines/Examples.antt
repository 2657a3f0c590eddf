-- ===== src/Engines/Examples.antt =====
-- A machine with one engine, whose process may ignore SIGTERM.
use local_engine_router.Common.{
  ℕ, ◌+◌, ◌≡◌, refl, arith, Bool, true, false, List, [], ◌∷◌, Option, none, some, not, eqb,
  if◌then◌else◌,
}
use local_engine_router.Engines.{Host, Signal, stop, kill}
use local_engine_router.Engines.Waits.{is_none, wait_ready, wait_stopped, ds4_wait_stopped}
use local_engine_router.Engines.Process.{ok, free_vram, ds4_free_vram, ensure_started}
use local_engine_router.Engines.Groups.{group, process, signal_pids}

pub record Machine : Type 0 where
  pub now : ℕ
  pub procs : List ℕ
  pub stubborn : Bool

abbrev after_signal : Signal → Machine → Machine
after_signal stop w = if w.stubborn then w else record w { procs = [] }
after_signal kill w = record w { procs = [] }

abbrev pub host : Host
host = record {
  World = Machine;
  clock = λ w. w.now;
  sleep = λ d w. record w { now = w.now + d };
  pids = λ w. (w.procs, w);
  port_open = λ w. (not (is_none w.procs), w);
  is_ready = λ w. (not (is_none w.procs), w);
  launch = λ w. some (record w { procs = 7 ∷ [] });
  forget = λ w. w;
  signal = λ s ps w. after_signal s w;
  sleep_lem = λ d w. omega arith;
  pids_lem = λ w. omega arith;
  port_open_lem = λ w. omega arith;
  is_ready_lem = λ w. omega arith;
}

abbrev pub idle : Machine
idle = record { now = 0; procs = []; stubborn = false }

abbrev pub up : Machine
up = record { now = 0; procs = 7 ∷ []; stubborn = false }

abbrev pub hung : Machine
hung = record { now = 0; procs = 7 ∷ []; stubborn = true }

start_idle : ensure_started host 3000 idle ≡ (ok, record idle { procs = 7 ∷ [] })
unfolding ensure_started wait_ready
start_idle = refl

free_hung : (free_vram host 1000 hung).sent ≡ stop ∷ kill ∷ []
unfolding free_vram wait_stopped
free_hung = refl

free_up_ok : (ds4_free_vram host false (λ w. w) up).result ≡ ok
unfolding ds4_free_vram ds4_wait_stopped
free_up_ok = refl

abbrev group_of : ℕ → Option ℕ
group_of p = if eqb p 3 then none else some 1

signal_some : signal_pids group_of (λ g. true) [] (1 ∷ 2 ∷ 3 ∷ []) ≡ group 1 ∷ process 3 ∷ []
unfolding signal_pids
signal_some = refl
