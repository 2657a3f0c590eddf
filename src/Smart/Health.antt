-- ===== src/Smart/Health.antt =====
-- router/smart.py, `ModelHealth` and its updates in `SmartRouter`. Times are whole milliseconds; each
-- reading of the clock is an argument.
pub mod Saved
mod Examples
use local_engine_router.Common.{
  ℕ, suc, ◌+◌, ◌≡◌, refl, ap, ◌∙◌, String, none, some, Bool, true, false, List, [], ◌∷◌, Dict, get,
  put, get-put, ltb, leb, eqb, if◌then◌else◌, ◌==◌, ◌||◌, eq_refl, not, arith,
}

pub record ModelHealth : Type 0 where
  pub consecutive_failures : ℕ
  pub total_failures : ℕ
  pub total_successes : ℕ
  pub cooldown_until : ℕ
  pub last_error : String
  pub last_failure_at : ℕ

abbrev pub fresh : ModelHealth
fresh = record {
  consecutive_failures = 0;
  total_failures = 0;
  total_successes = 0;
  cooldown_until = 0;
  last_error = "";
  last_failure_at = 0;
}

-- SmartRetryConfig, as far as health reads it
pub record RetryConfig : Type 0 where
  pub failure_threshold : ℕ
  pub cooldown : ℕ

pub record HealthTable : Type 0 where
  pub health : Dict ModelHealth
  pub dirty : Bool

-- self.health.setdefault(model, ModelHealth())
abbrev pub health_of : Dict ModelHealth → String → ModelHealth
health_of d m = elim (get d m) [ none ↦ fresh | some h ↦ h ]

note_success : ModelHealth → ModelHealth
note_success h =
    let h' : ModelHealth = record h { total_successes = h.total_successes + 1 } in
    if not (eqb h.consecutive_failures 0) || not (eqb h.cooldown_until 0)
    then record h' { consecutive_failures = 0; cooldown_until = 0 }
    else h'

-- record_success
unfoldable pub record_success : HealthTable → String → HealthTable
unfolding note_success
record_success t m = record {
  health = put t.health m (note_success (health_of t.health m));
  dirty = true;
}

-- max(1, failure_threshold)
abbrev pub threshold : RetryConfig → ℕ
threshold c = if ltb c.failure_threshold 1 then 1 else c.failure_threshold

-- `error` is the text already cut to 500 characters; `now` and `later` are the two clock readings.
note_failure : RetryConfig → ModelHealth → String → ℕ → ℕ → ModelHealth
note_failure c h error now later =
    let h' : ModelHealth = record h {
      consecutive_failures = h.consecutive_failures + 1;
      total_failures = h.total_failures + 1;
      last_error = error;
      last_failure_at = now;
    } in
    if leb (threshold c) (h.consecutive_failures + 1)
    then record h' { cooldown_until = later + c.cooldown }
    else h'

-- record_failure
unfoldable pub record_failure : RetryConfig → HealthTable → String → String → ℕ → ℕ → HealthTable
unfolding note_failure
record_failure c t m error now later = record {
  health = put t.health m (note_failure c (health_of t.health m) error now later);
  dirty = true;
}

-- in_cooldown
unfoldable pub in_cooldown : HealthTable → String → ℕ → Bool
in_cooldown t m now = elim (get t.health m) [ none ↦ false | some h ↦ ltb now h.cooldown_until ]

pub data Outcome : Type 0 where
  succeeds : Outcome
  fails : (error : String) → (now later : ℕ) → Outcome

pub after : RetryConfig → HealthTable → String → List Outcome → HealthTable
after c t m [] = t
after c t m (succeeds ∷ os) = record_success (after c t m os) m
after c t m (fails error now later ∷ os) = record_failure c (after c t m os) m error now later

-- The failures since the newest success, of outcomes listed newest first.
abbrev pub streak : List Outcome → ℕ
streak [] = 0
streak (succeeds ∷ os) = 0
streak (fails error now later ∷ os) = suc (streak os)

-- The end of the cooldown: that of the newest failure that reached the threshold, unless a success
-- came after it.
abbrev pub cooldown_end : RetryConfig → List Outcome → ℕ
cooldown_end c [] = 0
cooldown_end c (succeeds ∷ os) = 0
cooldown_end c (fails error now later ∷ os) =
    if leb (threshold c) (suc (streak os)) then later + c.cooldown else cooldown_end c os

abbrev pub unseen : HealthTable
unseen = record { health = []; dirty = false }

health_of-put : (d : Dict ModelHealth) (m : String) (h : ModelHealth) → health_of (put d m h) m ≡ h
health_of-put d m h = ground (arith, get-put d m m h, eq_refl m)

module _ (c : RetryConfig) (h : ModelHealth) where
  note_success-fields :
      ((note_success h).consecutive_failures ≡ 0) × ((note_success h).cooldown_until ≡ 0)
  unfolding note_success
  note_success-fields = ground arith

  note_failure-fields :
      (error : String) (now later : ℕ)
      → ((note_failure c h error now later).consecutive_failures ≡ suc h.consecutive_failures)
        × ((note_failure c h error now later).cooldown_until ≡ (
            if leb (threshold c) (suc h.consecutive_failures)
            then later + c.cooldown
            else h.cooldown_until))
  unfolding note_failure
  note_failure-fields error now later = ground arith

after-streak :
    (c : RetryConfig) (m : String) (os : List Outcome)
    → ((health_of (after c unseen m os).health m).consecutive_failures ≡ streak os)
      × ((health_of (after c unseen m os).health m).cooldown_until ≡ cooldown_end c os)
unfolding after record_success record_failure
after-streak c m [] = (refl, refl)
after-streak c m (succeeds ∷ os) =
    rw health_of-put (note_success-fields c (health_of (after c unseen m os).health m))
after-streak c m (fails error now later ∷ os) = rw health_of-put (
    let (a, b) = after-streak c m os in
    let (p, q) = note_failure-fields c (health_of (after c unseen m os).health m) error now later in
    (p ∙ ap suc a, ground (arith, a, b, q)))

in_cooldown-health_of :
    (t : HealthTable) (m : String) (now : ℕ)
    → in_cooldown t m now ≡ ltb now (health_of t.health m).cooldown_until
unfolding in_cooldown
in_cooldown-health_of t m now = ground arith

-- After any outcomes of a model that was not seen before, its count of consecutive failures is the
-- number of failures since its newest success, and it is in cooldown exactly until the end of the
-- cooldown that the newest failure at or past the threshold set, with none after a success.
pub in_cooldown-after :
    (c : RetryConfig) (m : String) (os : List Outcome) (now : ℕ)
    → (in_cooldown (after c unseen m os) m now ≡ ltb now (cooldown_end c os))
      × ((health_of (after c unseen m os).health m).consecutive_failures ≡ streak os)
in_cooldown-after c m os now =
    let (a, b) = after-streak c m os in
    (in_cooldown-health_of (after c unseen m os) m now ∙ ap (ltb now) b, a)

get-after :
    (c : RetryConfig) (t : HealthTable) (m j : String) (os : List Outcome)
    → (m == j) ≡ false
    → get (after c t m os).health j ≡ get t.health j
unfolding after record_success record_failure
get-after c t m j [] n = refl
get-after c t m j (succeeds ∷ os) n = rw get-put (rw n (get-after c t m j os n))
get-after c t m j (fails error at later ∷ os) n = rw get-put (rw n (get-after c t m j os n))

-- Outcomes of one model leave the cooldown of another as it is.
pub in_cooldown-other :
    (c : RetryConfig) (t : HealthTable) (m j : String) (os : List Outcome) (now : ℕ)
    → (m == j) ≡ false
    → in_cooldown (after c t m os) j now ≡ in_cooldown t j now
unfolding in_cooldown
in_cooldown-other c t m j os now n = ground (arith, get-after c t m j os n)
