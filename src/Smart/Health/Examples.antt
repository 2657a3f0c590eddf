-- ===== src/Smart/Health/Examples.antt =====
-- A restart of router/smart.py with one model in cooldown, one calibrated and one observed swap. Times
-- are in milliseconds, and numbers are written in strokes.
use mathlib.Core.Option.{map as map_option}
use local_engine_router.Common.{
  ℕ, zero, suc, ◌*◌, ◌/◌, ◌≡◌, refl, ap, String, Option, none, some, true, false, [], ◌∷◌, get,
}
use local_engine_router.Json.{Json, num, bool}
use local_engine_router.Smart.Gather.{drop_text}
use local_engine_router.Smart.Health.{ModelHealth, fresh}
use local_engine_router.Smart.Health.Saved.{
  Numbers, IsRead, Learned, unlearned, state_payload, load_state, restored,
  load_state-state_payload,
}

strokes : ℕ → String
strokes zero = String.[]
strokes (suc n) = String.◌∷◌ "1" (strokes n)

stroke_count : String → ℕ
stroke_count String.[] = 0
stroke_count (String.◌∷◌ c s) = suc (stroke_count s)

stroke_count-strokes : (n : ℕ) → stroke_count (strokes n) ≡ n
unfolding strokes stroke_count
stroke_count-strokes zero = refl
stroke_count-strokes (suc n) = ap suc (stroke_count-strokes n)

abbrev read_strokes : Json → Option ℕ
read_strokes (num z s) = some (stroke_count s)
read_strokes v = none

abbrev strokes_numbers : Numbers
strokes_numbers = record {
  int_of = read_strokes;
  float_of = read_strokes;
  of_int = λ n. num false (strokes n);
  of_float = λ t. num false (strokes t);
  tenths = λ t. t / 100 * 100;
  shown = λ v. "";
}

strokes-IsRead : IsRead strokes_numbers
strokes-IsRead = record {
  ints = λ n. ap some (stroke_count-strokes n);
  floats = λ t. ap some (stroke_count-strokes t);
}

abbrev cooling : ModelHealth
cooling = record fresh {
  consecutive_failures = 3;
  total_failures = 3;
  cooldown_until = 1250;
  last_error = "busy";
}

abbrev learned : Learned
learned = record {
  health = ("small", cooling) ∷ ("big", fresh) ∷ [];
  calibration = ("small", ("ok", bool true) ∷ []) ∷ [];
  swap_seconds = ("ollama", 740) ∷ [];
}

rounded : restored strokes_numbers cooling ≡ record cooling { cooldown_until = 1200 }
unfolding restored drop_text
rounded = refl

load_state-state_payload_example :
    (get
        (load_state strokes_numbers unlearned (state_payload strokes_numbers learned)).health
        "small"
      ≡ map_option (restored strokes_numbers) (get learned.health "small"))
    × ((get
            (load_state strokes_numbers unlearned
              (state_payload strokes_numbers learned)).calibration
            "small"
          ≡ get learned.calibration "small")
        × (get
              (load_state strokes_numbers unlearned
                (state_payload strokes_numbers learned)).swap_seconds
              "small"
            ≡ map_option strokes_numbers.tenths (get learned.swap_seconds "small")))
load_state-state_payload_example =
    load_state-state_payload strokes_numbers learned "small" strokes-IsRead (refl, (refl, tt))
      (refl, tt) (refl, tt)
