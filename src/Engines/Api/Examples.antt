-- ===== src/Engines/Api/Examples.antt =====
-- A model server with one model, and its cached lists.
use local_engine_router.Common.{
  ℕ, ◌≡◌, refl, Bool, true, false, List, [], ◌∷◌, String, Option, none, some,
}
use local_engine_router.Json.{Json, str, num}
use local_engine_router.Engines.Examples.{host, up, Machine}
use local_engine_router.Engines.Process.{ok}
use local_engine_router.Engines.Api.{render_body, load_model, status, load_failed}
use local_engine_router.Engines.Api.Unload.{api_free_vram, IsUnloaded, api_free_vram-IsUnloaded}
use local_engine_router.Engines.Api.Tags.{Answer, asks, available_tags}

abbrev listing : Machine → List Json × Machine
listing w = (if_up (w.procs), w)
  where
    if_up : List ℕ → List Json
    if_up [] = []
    if_up (p ∷ ps) = str "m" ∷ []

abbrev unload : Option Json → Machine → Machine
unload name w = record w { procs = [] }

freed : (api_free_vram host listing unload true 1000 up).0 ≡ ok
unfolding api_free_vram
freed = refl

api_free_vram-IsUnloaded_example :
    IsUnloaded host listing unload (api_free_vram host listing unload true 1000 up).1
api_free_vram-IsUnloaded_example = api_free_vram-IsUnloaded host listing unload 1000 up freed

body :
    render_body (some (("model", str "x-{model}") ∷ ("n", num false "1") ∷ [])) (some "m")
    ≡ ("model", str "x-m") ∷ ("n", num false "1") ∷ []
unfolding render_body
body = refl

load_500 : load_model "/load" (status 500) ≡ load_failed
unfolding load_model
load_500 = refl

abbrev named : List (ℕ × List String)
named = (5, "a" ∷ []) ∷ (20, "a" ∷ []) ∷ (40, []) ∷ []

abbrev answered : List (ℕ × (Bool × Answer))
answered = (5, (false, none)) ∷ (6, (true, none)) ∷ (36, (true, none)) ∷ []

two_asks : asks (available_tags 30) none named ≡ 5 ∷ 40 ∷ []
unfolding available_tags
two_asks = refl
