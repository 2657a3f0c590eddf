-- ===== src/Engines/Api/Unload.antt =====
-- `ensure_started` and `free_vram` of `APISwapEngine`, and `free_vram` of `OllamaEngine`, which is the
-- same with a listing always configured.
use local_engine_router.Common.{
  ℕ, zero, suc, ◌+◌, ◌≡◌, refl, arith, Bool, true, false, Bool-cases, inl, inr, List, [], ◌∷◌,
  Option, none, some, if◌then◌else◌, ltb,
}
use local_engine_router.Json.{Json}
use local_engine_router.Engines.{Host}
use local_engine_router.Engines.Waits.{is_none, poll, rounds, wait_ready}
use local_engine_router.Engines.Process.{Result, ok, failed}

-- `loaded_models` where a listing is configured, and the unload request for one model or for all
module _ (h : Host) (loaded : h.World → List Json × h.World)
    (unload : Option Json → h.World → h.World) where
  open h use {World, clock, is_ready}

  abbrev pub none_loaded : World → Bool × World
  none_loaded w = let (l, w1) = loaded w in (is_none l, w1)

  unfoldable pub unload_all : List Json → World → World
  unload_all [] w = w
  unload_all (name ∷ l) w = unload_all l (unload (some name) w)

  -- while loop.time() < deadline, and the last look
  wait_empty : ℕ → World → Bool × World
  unfolding poll
  wait_empty timeout w =
      poll h none_loaded none_loaded 500 (clock w + timeout) (rounds h timeout 500) w

  ended : Bool × World → Result × World
  ended (true, w) = (ok, w)
  ended (false, w) = (failed, w)

  -- free_vram; `listing` is whether loaded_path is configured
  unfoldable pub api_free_vram : (listing : Bool) (timeout : ℕ) → World → Result × World
  unfolding unload_all wait_empty ended
  api_free_vram listing timeout w =
      let (l, w1) = loaded w in
      if listing
      then (if is_none l then (ok, w1) else ended (wait_empty timeout (unload_all l w1)))
      else (ok, unload none w)

  -- The systemd commands that ensure_started tries when the service does not answer
  unfoldable pub try_all : List (World → World × Bool) → World → World
  try_all [] w = w
  try_all (cmd ∷ cmds) w = let (w1, raised) = cmd w in try_all cmds w1

  unfoldable pub api_ensure_started : List (World → World × Bool) → World → Result × World
  unfolding try_all ended
  api_ensure_started cmds w =
      let (ready, w1) = is_ready w in
      if ready then (ok, w1) else ended (wait_ready h 20000 (try_all cmds w1))

  -- The last listing was empty.
  pub record IsUnloaded (w : World) : Type 0 where
    pub seen_from : World
    pub empty : (loaded seen_from).0 ≡ []
    pub then_now : (loaded seen_from).1 ≡ w

  nothing : {A : Type 0} (xs : List A) → is_none xs ≡ true → xs ≡ []
  nothing [] e = refl
  nothing (x ∷ xs) e = absurd (ground arith)

  at_last : (w : World) → (none_loaded w).0 ≡ true → IsUnloaded (none_loaded w).1
  at_last w e = record { seen_from = w; empty = nothing (loaded w).0 e; then_now = refl }

  ended-IsUnloaded :
      (p : Bool × World) → (p.0 ≡ true → IsUnloaded p.1) → (ended p).0 ≡ ok → IsUnloaded (ended p).1
  unfolding ended
  ended-IsUnloaded (true, w) f e = f refl
  ended-IsUnloaded (false, w) f e = absurd (ground arith)

  poll-IsUnloaded :
      (deadline n : ℕ) (w : World)
      → (poll h none_loaded none_loaded 500 deadline n w).0 ≡ true
      → IsUnloaded (poll h none_loaded none_loaded 500 deadline n w).1
  unfolding poll
  poll-IsUnloaded deadline zero w e = at_last w e
  poll-IsUnloaded deadline (suc n) w e = elim (Bool-cases (ltb (clock w) deadline)) [
    | inl early ↦ elim (Bool-cases (none_loaded w).0) [
      | inl y ↦ rw early (rw y (at_last w y))
      | inr y ↦ rw early (
          rw y
            (poll-IsUnloaded deadline n (h.sleep 500 (none_loaded w).1) (rw early at (rw y at e))))
    ]
    | inr late ↦ rw late (at_last w (rw late at e))
  ]

  -- Where loaded_path is configured and free_vram returns, its last listing of the loaded models was
  -- empty, whatever the engine does about the unload requests.
  pub api_free_vram-IsUnloaded :
      (timeout : ℕ) (w : World)
      → (api_free_vram true timeout w).0 ≡ ok
      → IsUnloaded (api_free_vram true timeout w).1
  unfolding api_free_vram wait_empty
  api_free_vram-IsUnloaded timeout w e = elim (Bool-cases (is_none (loaded w).0)) [
    | inl y ↦ rw y (at_last w y)
    | inr y ↦
        let freed : World = unload_all (loaded w).0 (loaded w).1 in
        rw y (
          ended-IsUnloaded _ (poll-IsUnloaded (clock freed + timeout) (rounds h timeout 500) freed)
            (rw y at e))
  ]
