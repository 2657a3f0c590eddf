-- ===== src/Engines/Waits.antt =====
-- The polling loops of router/engines.py: `wait_ready`, `_wait_stopped` of both process engines, and
-- the end of `free_vram` of `APISwapEngine`. Each polls until a probe answers yes or a deadline has
-- passed, and then asks one last time.
use local_engine_router.Common.{
  ℕ, zero, suc, ◌+◌, ◌*◌, ◌/◌, ◌≤◌, ◌<◌, ◌≡◌, refl, arith, Bool, true, false, List, [], ◌∷◌,
  if◌then◌else◌, ltb, not, inl, inr, Bool-cases,
}
use local_engine_router.Engines.{Host}

abbrev pub is_none : {A : Type 0} → List A → Bool
is_none [] = true
is_none (x ∷ xs) = false

module _ (h : Host) where
  open h use {
    World, clock, sleep, pids, port_open, is_ready, sleep_lem, pids_lem, port_open_lem,
    is_ready_lem,
  }

  -- `while loop.time() < deadline`, with fuel; it is asked one last time where the fuel ends too.
  unfoldable pub poll :
      (probe last : World → Bool × World) → (interval deadline fuel : ℕ) → World → Bool × World
  poll probe last interval deadline zero w = last w
  poll probe last interval deadline (suc n) w =
      let (yes_now, w') = probe w in
      let again = poll probe last interval deadline n (sleep interval w') in
      if ltb (clock w) deadline then (if yes_now then (true, w') else again) else last w

  -- Enough rounds for a timeout: each takes at least the interval.
  abbrev pub rounds : ℕ → ℕ → ℕ
  rounds timeout interval = timeout / interval + 1

  -- Engine.wait_ready
  unfoldable pub wait_ready : ℕ → World → Bool × World
  unfolding poll
  wait_ready timeout w = poll is_ready is_ready 1500 (clock w + timeout) (rounds timeout 1500) w

  -- not self._pids() and not await self._port_open()
  unfoldable pub is_stopped : World → Bool × World
  is_stopped w =
      let (ps, w1) = pids w in
      let (o, w2) = port_open w1 in if is_none ps then (not o, w2) else (false, w1)

  unfoldable pub no_pids : World → Bool × World
  no_pids w = let (ps, w1) = pids w in (is_none ps, w1)

  -- GenericProcessEngine._wait_stopped
  unfoldable pub wait_stopped : ℕ → World → Bool × World
  unfolding poll is_stopped
  wait_stopped timeout w = poll is_stopped is_stopped 500 (clock w + timeout) (rounds timeout 500) w

  -- Ds4Engine._wait_stopped: its last look is at the processes only
  unfoldable pub ds4_wait_stopped : ℕ → World → Bool × World
  unfolding poll is_stopped no_pids
  ds4_wait_stopped timeout w =
      poll is_stopped no_pids 500 (clock w + timeout) (rounds timeout 500) w

  -- A probe that does not turn the clock back.
  abbrev pub Advances : (World → Bool × World) → Type 0
  Advances probe = (w : World) → clock w ≤ clock (probe w).1

  poll-late :
      (probe last : World → Bool × World) (interval deadline n : ℕ) (w : World)
      → deadline ≤ clock w
      → poll probe last interval deadline n w ≡ last w
  unfolding poll
  poll-late probe last interval deadline zero w e = refl
  poll-late probe last interval deadline (suc n) w e = elim (Bool-cases (ltb (clock w) deadline)) [
    | inl early ↦ absurd (ground arith)
    | inr late ↦ rw late refl
  ]

  sleep-later :
      (probe : World → Bool × World) (interval deadline n : ℕ) (w : World)
      → Advances probe
      → deadline ≤ clock w + suc n * interval
      → deadline ≤ clock (sleep interval (probe w).1) + n * interval
  sleep-later probe interval deadline n w adv e =
      grind (arith, sleep_lem interval (probe w).1, adv w)

  poll-enough :
      (probe last : World → Bool × World) (interval deadline n m : ℕ) (w : World)
      → Advances probe
      → deadline ≤ clock w + n * interval
      → n ≤ m
      → poll probe last interval deadline m w ≡ poll probe last interval deadline n w
  unfolding poll
  poll-enough probe last interval deadline zero m w adv e le =
      poll-late probe last interval deadline m w (omega arith)
  poll-enough probe last interval deadline (suc n) zero w adv e le = absurd (omega arith)
  poll-enough probe last interval deadline (suc n) (suc m) w adv e le =
      elim (Bool-cases (ltb (clock w) deadline)) [
        | inl early ↦ elim (Bool-cases (probe w).0) [
          | inl y ↦ rw early (rw y refl)
          | inr y ↦ rw early (
              rw y (
                poll-enough probe last interval deadline n m (sleep interval (probe w).1) adv
                  (sleep-later probe interval deadline n w adv e) (omega arith)))
        ]
        | inr late ↦ rw late refl
      ]

  rounds-enough :
      (timeout interval : ℕ) → 0 < interval → timeout ≤ rounds timeout interval * interval
  rounds-enough timeout interval p = grind arith

  is_stopped-Advances : Advances is_stopped
  unfolding is_stopped
  is_stopped-Advances w = elim (Bool-cases (is_none (pids w).0)) [
    | inl e ↦ rw e (omega (arith, pids_lem w, port_open_lem (pids w).1))
    | inr e ↦ rw e (pids_lem w)
  ]

  -- Each wait ends: its loop has no more rounds than its timeout and interval allow, so with any larger
  -- number of rounds `wait_ready` and both `_wait_stopped` answer the same.
  pub waits-end :
      (timeout m : ℕ) (w : World)
      → rounds timeout 500 ≤ m
      → (poll is_ready is_ready 1500 (clock w + timeout) m w ≡ wait_ready timeout w)
        × (poll is_stopped is_stopped 500 (clock w + timeout) m w ≡ wait_stopped timeout w)
        × (poll is_stopped no_pids 500 (clock w + timeout) m w ≡ ds4_wait_stopped timeout w)
  unfolding wait_ready wait_stopped ds4_wait_stopped
  waits-end timeout m w e = (
    poll-enough is_ready is_ready 1500 (clock w + timeout) (rounds timeout 1500) m w is_ready_lem
        (omega (arith, rounds-enough timeout 1500 (omega arith))) (omega arith),
    poll-enough is_stopped is_stopped 500 (clock w + timeout) (rounds timeout 500) m w
        is_stopped-Advances (omega (arith, rounds-enough timeout 500 (omega arith))) e,
    poll-enough is_stopped no_pids 500 (clock w + timeout) (rounds timeout 500) m w
        is_stopped-Advances (omega (arith, rounds-enough timeout 500 (omega arith))) e,
  )
