-- ===== src/Engines/Process.antt =====
-- router/engines.py, `GenericProcessEngine` and `Ds4Engine`: starting, and stopping with escalation. A
-- run keeps the signals that were sent beside the world.
pub mod Freed
use local_engine_router.Common.{
  ℕ, ◌≡◌, refl, ◌∙◌, arith, Bool, true, false, List, [], ◌∷◌, ◌++◌, Option, none, some,
  if◌then◌else◌, ◌⊎◌, inl, inr, Bool-cases,
}
use local_engine_router.Engines.{Host, Signal, stop, kill}
use local_engine_router.Engines.Waits.{is_none, wait_ready, wait_stopped, ds4_wait_stopped}

-- A method returns, or raises EngineError.
pub data Result : Type 0 where
  ok failed : Result

module _ (h : Host) where
  open h use {World, pids, port_open, is_ready, launch, forget, signal}

  -- The world after a method, how the method ended, and the signals it sent.
  pub record Run : Type 0 where
    pub result : Result
    pub world : World
    pub sent : List Signal

  or_launch : Option World → World → World × Bool
  or_launch none w = (w, false)
  or_launch (some w') w = (w', true)

  -- self.wait_ready(start_timeout_s), or EngineError
  when_ready : Bool × World → Result × World
  when_ready (true, w) = (ok, w)
  when_ready (false, w) = (failed, w)

  start_if : ℕ → World × Bool → Result × World
  unfolding when_ready
  start_if timeout (w, true) = when_ready (wait_ready h timeout w)
  start_if timeout (w, false) = (failed, w)

  -- GenericProcessEngine.ensure_started, and Ds4Engine's without systemd
  unfoldable pub ensure_started : ℕ → World → Result × World
  unfolding start_if or_launch
  ensure_started timeout w =
      let (ready, w1) = is_ready w in
      let (ps, w2) = pids w1 in
      if ready
      then (ok, w1)
      else (if is_none ps
          then start_if timeout (or_launch (launch w2) w2)
          else start_if timeout (w2, true))

  -- The end of `free_vram`: a process that is found or an open port is an error.
  last_look : World → List Signal → Run
  last_look w sent =
      let (ps, w1) = pids w in
      let (o, w2) = port_open w1 in
      if is_none ps
      then record { result = if o then failed else ok; world = w2; sent = sent }
      else record { result = failed; world = w1; sent = sent }

  -- _sigkill_leftover, with the wait that the class has
  sigkill_leftover : (ℕ → World → Bool × World) → World → List Signal → World × List Signal
  sigkill_leftover wait w sent =
      let (ps, w1) = pids w in
      if is_none ps then (w1, sent) else ((wait 10000 (signal kill ps w1)).1, sent ++ (kill ∷ []))

  -- if not await self._wait_stopped(...): await self._sigkill_leftover()
  wait_or_kill : (ℕ → World → Bool × World) → ℕ → World → List Signal → World × List Signal
  unfolding sigkill_leftover
  wait_or_kill wait timeout w sent =
      let (stopped, w1) = wait timeout w in
      if stopped then (w1, sent) else sigkill_leftover wait w1 sent

  -- The handle is dropped before the last look.
  end_free : World × List Signal → Run
  unfolding last_look
  end_free (w, sent) = last_look (forget w) sent

  signal_and_wait : ℕ → List ℕ → World → Run
  unfolding end_free wait_or_kill
  signal_and_wait timeout ps w =
      end_free (wait_or_kill (wait_stopped h) timeout (signal stop ps w) (stop ∷ []))

  -- GenericProcessEngine.free_vram
  unfoldable pub free_vram : ℕ → World → Run
  unfolding signal_and_wait
  free_vram timeout w =
      let (ps, w1) = pids w in
      let (o, w2) = port_open w1 in
      if is_none ps
      then (if o
          then signal_and_wait timeout ps w2
          else record { result = ok; world = forget w2; sent = [] })
      else signal_and_wait timeout ps w1

  -- Ds4Engine._terminate_pids
  unfoldable pub terminate_pids : ℕ → World → World × List Signal
  unfolding wait_or_kill
  terminate_pids grace w =
      let (ps, w1) = pids w in
      if is_none ps
      then (w1, [])
      else wait_or_kill (ds4_wait_stopped h) grace (signal stop ps w1) (stop ∷ [])

  -- Ds4Engine.free_vram; `unit_stop` is `systemctl --user stop --no-block`
  unfoldable pub ds4_free_vram : (systemd : Bool) → (unit_stop : World → World) → World → Run
  unfolding end_free wait_or_kill terminate_pids
  ds4_free_vram systemd unit_stop w =
      if systemd
      then end_free (wait_or_kill (ds4_wait_stopped h) 6000 (unit_stop w) [])
      else end_free (terminate_pids 6000 w)

  end_free-sent : (p : World × List Signal) → (end_free p).sent ≡ p.1
  unfolding end_free last_look
  end_free-sent (w, sent) = elim (Bool-cases (is_none (pids (forget w)).0)) [
    | inl n ↦ rw n refl
    | inr n ↦ rw n refl
  ]

  killed_or_not :
      (wait : ℕ → World → Bool × World) (timeout : ℕ) (w : World) (sent : List Signal)
      → ((wait_or_kill wait timeout w sent).1 ≡ sent)
        ⊎ (((wait timeout w).0 ≡ false)
            × ((wait_or_kill wait timeout w sent).1 ≡ sent ++ (kill ∷ [])))
  unfolding wait_or_kill sigkill_leftover
  killed_or_not wait timeout w sent = elim (Bool-cases (wait timeout w).0) [
    | inl y ↦ inl (rw y refl)
    | inr y ↦ elim (Bool-cases (is_none (pids (wait timeout w).1).0)) [
      | inl n ↦ inl (rw y (rw n refl))
      | inr n ↦ inr (y, rw y (rw n refl))
    ]
  ]

  -- A kill only after a stop, and only when the wait for `timeout` had found the engine still up.
  abbrev pub IsEscalation : ℕ → List Signal → Type 0
  IsEscalation timeout sent =
      (sent ≡ [])
      ⊎ (sent ≡ stop ∷ [])
      ⊎ ((v : World) × ((wait_stopped h timeout v).0 ≡ false) × (sent ≡ stop ∷ kill ∷ []))

  signal_and_wait-IsEscalation :
      (timeout : ℕ) (ps : List ℕ) (w : World)
      → IsEscalation timeout (signal_and_wait timeout ps w).sent
  unfolding signal_and_wait
  signal_and_wait-IsEscalation timeout ps w =
      let end : World × List Signal =
        wait_or_kill (wait_stopped h) timeout (signal stop ps w) (stop ∷ []) in
      elim (killed_or_not (wait_stopped h) timeout (signal stop ps w) (stop ∷ [])) [
        | inl e ↦ inr (inl (end_free-sent end ∙ e))
        | inr (late, e) ↦ inr (inr (signal stop ps w, late, end_free-sent end ∙ e))
      ]

  -- GenericProcessEngine.free_vram sends nothing, a stop signal, or a stop signal and then a kill, and
  -- the kill only when the wait for the configured timeout has found the engine still up.
  pub free_vram-IsEscalation :
      (timeout : ℕ) (w : World) → IsEscalation timeout (free_vram timeout w).sent
  unfolding free_vram
  free_vram-IsEscalation timeout w = elim (Bool-cases (is_none (pids w).0)) [
    | inl n ↦ elim (Bool-cases (port_open (pids w).1).0) [
      | inl y ↦
          rw n (rw y (signal_and_wait-IsEscalation timeout (pids w).0 (port_open (pids w).1).1))
      | inr y ↦ rw n (rw y (inl refl))
    ]
    | inr n ↦ rw n (signal_and_wait-IsEscalation timeout (pids w).0 (pids w).1)
  ]

  -- Ds4Engine.ensure_started under systemd; `unit_start` is none where systemctl cannot be run
  unfoldable pub ds4_ensure_started :
      (unit_start : World → Option World) → ℕ → World → Result × World
  unfolding start_if or_launch
  ds4_ensure_started unit_start timeout w =
      let (ready, w1) = is_ready w in
      if ready then (ok, w1) else start_if timeout (or_launch (unit_start w1) w1)
