-- ===== src/Engines/Process/Freed.antt =====
-- What `free_vram` of the process engines (router/engines.py) has found when it returns.
use local_engine_router.Common.{
  ◌≡◌, refl, arith, Bool, true, false, List, [], ◌∷◌, ◌⊎◌, inl, inr, Bool-cases,
}
use local_engine_router.Engines.{Host, Signal, stop, kill}
use local_engine_router.Engines.Waits.{is_none}
use local_engine_router.Engines.Process.{ok, Run, last_look, end_free, ds4_free_vram}

module _ (h : Host) where
  open h use {World, clock, sleep, pids, port_open, forget, signal}

  abbrev pub after_looks : World → World
  after_looks w = (port_open (pids w).1).1

  -- Looks at the processes and then at the port from this world find nothing.
  pub record IsClear (w : World) : Type 0 where
    pub no_process : (pids w).0 ≡ []
    pub closed : (port_open (pids w).1).0 ≡ false

  -- The last thing before this world was a look, with or without one at the port after it, that found no
  -- process, also none by the handle of the launched one.
  pub record IsGone (w : World) : Type 0 where
    pub looked_from : World
    pub none_left : (pids looked_from).0 ≡ []
    pub then_now : (w ≡ (pids looked_from).1) ⊎ (w ≡ after_looks looked_from)

  pub data IsFreed (run : Run h) : Type 0 where
    was_idle :
        (w : World) → IsClear w → run.world ≡ forget (after_looks w) → run.sent ≡ [] → IsFreed run
    was_stopped :
        (w : World)
        → IsGone w ⊎ (run.sent ≡ stop ∷ kill ∷ [])
        → IsClear (forget w)
        → run.world ≡ after_looks (forget w)
        → IsFreed run

  is_none-eq : {A : Type 0} (xs : List A) → is_none xs ≡ true → xs ≡ []
  is_none-eq [] e = refl
  is_none-eq (x ∷ xs) e = absurd (ground arith)

  last_look-IsClear :
      (w : World) (sent : List Signal)
      → (last_look h w sent).result ≡ ok
      → IsClear w × ((last_look h w sent).world ≡ after_looks w)
  unfolding last_look
  last_look-IsClear w sent e = elim (Bool-cases (is_none (pids w).0)) [
    | inl n ↦ elim (Bool-cases (port_open (pids w).1).0) [
      | inl y ↦ absurd (ground arith)
      | inr y ↦ rw n (record { no_process = is_none-eq (pids w).0 n; closed = y }, refl)
    ]
    | inr n ↦ absurd (ground arith)
  ]

  end_free-IsClear :
      (p : World × List Signal)
      → (end_free h p).result ≡ ok
      → IsClear (forget p.0) × ((end_free h p).world ≡ after_looks (forget p.0))
  unfolding end_free
  end_free-IsClear (w, sent) e = last_look-IsClear (forget w) sent e

  -- When Ds4Engine.free_vram returns, in either of its ways to stop, its last two looks found no process
  -- and a closed port.
  pub ds4_free_vram-IsClear :
      (systemd : Bool) (unit_stop : World → World) (w : World)
      → (ds4_free_vram h systemd unit_stop w).result ≡ ok
      → (v : World) × IsClear (forget v)
        × ((ds4_free_vram h systemd unit_stop w).world ≡ after_looks (forget v))
  unfolding ds4_free_vram
  ds4_free_vram-IsClear true unit_stop w e =
      let (clear, now) = end_free-IsClear _ e in (_, clear, now)
  ds4_free_vram-IsClear false unit_stop w e =
      let (clear, now) = end_free-IsClear _ e in (_, clear, now)
