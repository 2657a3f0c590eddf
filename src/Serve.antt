-- ===== src/Serve.antt =====
-- router/app.py, `_attempt_plan` and `_handle_v1_post` from its plan on: the attempts of one request,
-- with what each does as a list of effects in order. What the manager, the upstream and the client do
-- in an attempt is its answer. The bodies of requests and the texts of errors are left out.
pub mod Balance
pub mod Commit
pub mod Thinking
pub mod Ndjson
pub mod Bodies
pub mod Fallbacks
pub mod Admin
pub mod Listed
pub mod Passthrough
pub mod Access
pub mod Examples
use local_engine_router.Common.{
  ℕ, zero, suc, String, Option, none, some, Bool, true, false, List, [], ◌∷◌, ◌++◌, not,
  if◌then◌else◌, ◌==◌, ◌&&◌, ◌||◌, ltb, eqb,
}

pub data Effect : Type 0 where
  -- manager.acquire(model) is called; it has counted the request; manager.release(engine)
  asks : (model : String) → Effect
  takes gives_back : (engine : String) → Effect
  -- metrics.record_smart_fallback
  falls_back : (model : String) (reload : Bool) → Effect
  -- smart.record_success; smart.record_failure with metrics.record_smart_failure
  notes_success notes_failure : (model : String) → Effect
  -- manager._persist()
  saves : Effect
  -- what the client gets
  keepalive sends_error sends_done : Effect
  sends : (chunk : String) → Effect
  responds : (status : ℕ) → Effect

-- What the loops read of the request: whether there is a smart decision, its model, and
-- `swap_keepalive_enabled`.
pub record Call : Type 0 where
  pub smart : Bool
  pub model : String
  pub keepalive_enabled : Bool

-- One attempt: what it does, whether the loop goes on, and whether bytes of the upstream were sent.
pub record Attempt : Type 0 where
  pub effects : List Effect
  pub again : Bool
  pub streamed : Bool

-- The retry part of a decision.
pub record Retry : Type 0 where
  pub same_model_reload : Bool
  pub fall_forward : Bool
  pub fallbacks : List String

-- _attempt_plan
unfoldable pub attempt_plan : String → Option Retry → List String
attempt_plan model none = model ∷ []
attempt_plan model (some r) =
    model
    ∷ ((if r.same_model_reload then model ∷ [] else [])
        ++ (if r.fall_forward then r.fallbacks else []))

-- _error_status_for of an EngineError; `unroutable` says that its text names an unknown or disabled
-- engine
unfoldable pub error_status : Bool → ℕ
error_status unroutable = if unroutable then 404 else 503

unfoldable pub noted : Bool → Effect → List Effect
noted smart e = if smart then e ∷ [] else []

unfoldable pub fallback_note : Call → Bool → String → List Effect
fallback_note c first mid =
    if not first && c.smart then falls_back mid (mid == c.model) ∷ [] else []

-- A failure that may be retried: note it, then go on or answer with `reply`.
unfoldable pub retry_or : Call → Bool → Bool → String → List Effect → List Effect × Bool
retry_or c last streamed mid reply =
    if c.smart
    then (if not last && not streamed
        then (notes_failure mid ∷ saves ∷ [], true)
        else (notes_failure mid ∷ saves ∷ reply, false))
    else (reply, false)

-- How an upstream stream ends.
pub data Ending : Type 0 where
  complete client_gone connect_error broken cancelled : Ending

pub data StreamAnswer : Type 0 where
  -- `acquire` raises EngineError after `waits` keep-alive timeouts
  refused : (waits : ℕ) → StreamAnswer
  -- the client leaves or the task is cancelled in the wait; `late` is the engine that `acquire`
  -- has counted by then
  left_waiting : (waits : ℕ) (late : Option String) → StreamAnswer
  -- the upstream answers with a status of 400 or more
  answers_error : (waits : ℕ) (engine : String) → StreamAnswer
  -- the upstream streams the chunks and then ends
  streams : (waits : ℕ) (engine : String) (chunks : List String) (ending : Ending) → StreamAnswer

unfoldable pub keepalives : Bool → ℕ → List Effect
keepalives on zero = []
keepalives on (suc n) = let rest = keepalives on n in if on then keepalive ∷ rest else rest

unfoldable pub send_all : List String → List Effect
send_all [] = []
send_all (c ∷ cs) = sends c ∷ send_all cs

unfoldable pub is_empty : {A : Type 0} → List A → Bool
is_empty [] = true
is_empty (x ∷ xs) = false

error_frames : List Effect
error_frames = sends_error ∷ sends_done ∷ []

-- What follows the last chunk; `streamed` says whether one was sent.
after_stream : Call → Bool → Bool → String → Ending → List Effect × Bool
unfolding noted error_frames retry_or
after_stream c last streamed mid complete = (noted c.smart (notes_success mid), false)
after_stream c last streamed mid client_gone = (noted c.smart (notes_success mid), false)
after_stream c last streamed mid connect_error = retry_or c last streamed mid error_frames
after_stream c last streamed mid broken = (noted c.smart (notes_failure mid) ++ error_frames, false)
after_stream c last streamed mid cancelled = ([], false)

-- From the bound engine on, with the `finally` clause.
unfoldable pub with_engine : String → List Effect → Bool → Bool → Attempt
with_engine engine es again streamed = record {
  effects = takes engine ∷ (es ++ (gives_back engine ∷ []));
  again = again;
  streamed = streamed;
}

unfoldable pub preceded : List Effect → Attempt → Attempt
preceded es a = record a { effects = es ++ a.effects }

unfoldable pub late_engine : Option String → List Effect
late_engine none = []
late_engine (some engine) = takes engine ∷ gives_back engine ∷ []

-- One round of the loop of `gen`, from `acquire` on.
unfoldable pub stream_attempt : Call → Bool → Bool → String → StreamAnswer → Attempt
unfolding noted error_frames retry_or keepalives send_all after_stream with_engine preceded
    late_engine is_empty
stream_attempt c last streamed mid (refused waits) =
    let r = retry_or c last streamed mid error_frames in
    record {
      effects = asks mid ∷ (keepalives c.keepalive_enabled waits ++ r.0);
      again = r.1;
      streamed = streamed;
    }
stream_attempt c last streamed mid (left_waiting waits late) = record {
  effects = asks mid ∷ (keepalives c.keepalive_enabled waits ++ late_engine late);
  again = false;
  streamed = streamed;
}
stream_attempt c last streamed mid (answers_error waits engine) =
    preceded (asks mid ∷ keepalives c.keepalive_enabled waits)
      (with_engine engine (noted c.smart (notes_failure mid) ++ error_frames) false streamed)
stream_attempt c last streamed mid (streams waits engine chunks ending) =
    let now : Bool = streamed || not (is_empty chunks) in
    let r = after_stream c last now mid ending in
    preceded (asks mid ∷ keepalives c.keepalive_enabled waits)
      (with_engine engine (send_all chunks ++ r.0) r.1 now)

pub data PostAnswer : Type 0 where
  -- `acquire` raises EngineError
  post_refused : (unroutable : Bool) → PostAnswer
  -- `forward` raises: a connect error, another HTTP error, or a cancellation
  post_connect_error post_broken post_cancelled : (engine : String) → PostAnswer
  -- the upstream answers
  post_answers : (engine : String) (status : ℕ) → PostAnswer

-- One round of the loop of the non-streaming branch, from `acquire` on. A release precedes the answer.
unfoldable pub post_attempt : Call → Bool → Bool → String → PostAnswer → Attempt
unfolding noted retry_or preceded error_status
post_attempt c last streamed mid (post_refused unroutable) =
    let r = retry_or c last false mid (responds (error_status unroutable) ∷ []) in
    record { effects = asks mid ∷ r.0; again = r.1; streamed = streamed }
post_attempt c last streamed mid (post_connect_error engine) =
    let r = retry_or c last false mid [] in
    record {
      effects =
          asks mid
          ∷ takes engine
          ∷ (r.0 ++ (gives_back engine ∷ (if r.1 then [] else responds 502 ∷ [])));
      again = r.1;
      streamed = streamed;
    }
post_attempt c last streamed mid (post_broken engine) = record {
  effects =
      asks mid
      ∷ takes engine
      ∷ (noted c.smart (notes_failure mid) ++ (gives_back engine ∷ responds 502 ∷ []));
  again = false;
  streamed = streamed;
}
post_attempt c last streamed mid (post_cancelled engine) = record {
  effects = asks mid ∷ takes engine ∷ gives_back engine ∷ [];
  again = false;
  streamed = streamed;
}
post_attempt c last streamed mid (post_answers engine status) = record {
  effects =
      asks mid
      ∷ takes engine
      ∷ gives_back engine
      ∷ (noted c.smart (if ltb status 500 then notes_success mid else notes_failure mid)
          ++ (responds status ∷ []));
  again = false;
  streamed = streamed;
}

-- `for attempt_idx, mid in enumerate(plan)`, with each attempt's answer beside its model.
unfoldable pub attempts :
    {A : Type 0}
    → (Call → Bool → Bool → String → A → Attempt)
    → Call
    → (first streamed : Bool) → List (String × A)
    → List Effect
unfolding fallback_note is_empty
attempts once c first streamed [] = []
attempts once c first streamed ((mid, a) ∷ rest) =
    let now : Attempt = once c (is_empty rest) streamed mid a in
    let later = attempts once c false now.streamed rest in
    fallback_note c first mid ++ (now.effects ++ (if now.again then later else []))

-- `gen`
unfoldable pub stream : Call → List (String × StreamAnswer) → List Effect
unfolding attempts stream_attempt
stream c plan = attempts stream_attempt c true false plan

-- The non-streaming branch
unfoldable pub post : Call → List (String × PostAnswer) → List Effect
unfolding attempts post_attempt
post c plan = attempts post_attempt c true false plan
