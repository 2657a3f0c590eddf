-- ===== src/Serve/Ndjson.antt =====
-- router/app.py, `ndjson_gen` of `_handle_api_post_with_model`: the attempts of a streaming request of
-- the Ollama API. What is no error line of the upstream ends the stream without a word. The branch that
-- is not streamed has the attempts of `post`.
use local_engine_router.Common.{
  ◌≡◌, refl, arith, String, Bool, true, false, Bool-cases, inl, inr, List, [], ◌∷◌, ◌++◌, not, ◌||◌,
}
use local_engine_router.Serve.{
  Effect, asks, takes, gives_back, notes_success, notes_failure, sends_error, Call, Attempt,
  StreamAnswer, refused, left_waiting, answers_error, streams, Ending, complete, client_gone,
  connect_error, broken, cancelled, noted, retry_or, keepalives, send_all, with_engine, preceded,
  late_engine, is_empty, attempts,
}
use local_engine_router.Serve.Balance.{
  IsBalanced, append-IsBalanced, surround-IsBalanced, keepalives-IsBalanced, send_all-IsBalanced,
  retry_or-IsBalanced, late-IsBalanced, attempts-IsBalanced,
}
use local_engine_router.Serve.Commit.{
  IsCommitted, NoAsks, NoContent, IsCareful, IsQuiet, append-NoAsks, append-NoContent,
  send_all-NoAsks, retry_or-IsQuiet, late-NoAsks, waited-IsCommitted, waited-NoContent,
  attempts-IsCommitted,
}

after_ndjson : Call → Bool → Bool → String → Ending → List Effect × Bool
unfolding noted retry_or
after_ndjson c last streamed mid complete = (noted c.smart (notes_success mid), false)
after_ndjson c last streamed mid client_gone = (noted c.smart (notes_success mid), false)
after_ndjson c last streamed mid connect_error = retry_or c last streamed mid []
after_ndjson c last streamed mid broken = (noted c.smart (notes_failure mid), false)
after_ndjson c last streamed mid cancelled = ([], false)

-- One round of the loop of `ndjson_gen`, from `acquire` on.
unfoldable pub ndjson_attempt : Call → Bool → Bool → String → StreamAnswer → Attempt
unfolding noted retry_or keepalives send_all after_ndjson with_engine preceded late_engine is_empty
ndjson_attempt c last streamed mid (refused waits) =
    let r = retry_or c last streamed mid [] in
    record {
      effects = asks mid ∷ (keepalives c.keepalive_enabled waits ++ r.0);
      again = r.1;
      streamed = streamed;
    }
ndjson_attempt c last streamed mid (left_waiting waits late) = record {
  effects = asks mid ∷ (keepalives c.keepalive_enabled waits ++ late_engine late);
  again = false;
  streamed = streamed;
}
ndjson_attempt c last streamed mid (answers_error waits engine) =
    preceded (asks mid ∷ keepalives c.keepalive_enabled waits)
      (with_engine engine (noted c.smart (notes_failure mid) ++ (sends_error ∷ [])) false streamed)
ndjson_attempt c last streamed mid (streams waits engine chunks ending) =
    let now : Bool = streamed || not (is_empty chunks) in
    let r = after_ndjson c last now mid ending in
    preceded (asks mid ∷ keepalives c.keepalive_enabled waits)
      (with_engine engine (send_all chunks ++ r.0) r.1 now)

-- `ndjson_gen`
unfoldable pub ndjson : Call → List (String × StreamAnswer) → List Effect
unfolding attempts ndjson_attempt
ndjson c plan = attempts ndjson_attempt c true false plan

none-IsBalanced : IsBalanced []
none-IsBalanced k = refl

after_ndjson-IsBalanced :
    (c : Call) (last streamed : Bool) (mid : String) (e : Ending)
    → IsBalanced (after_ndjson c last streamed mid e).0
unfolding after_ndjson noted
after_ndjson-IsBalanced c last streamed mid connect_error k =
    retry_or-IsBalanced c last streamed mid [] none-IsBalanced k
after_ndjson-IsBalanced c last streamed mid e k = ground arith

error_line-IsBalanced :
    (c : Call) (mid : String) → IsBalanced (noted c.smart (notes_failure mid) ++ (sends_error ∷ []))
unfolding noted
error_line-IsBalanced c mid k = ground arith

ndjson_attempt-IsBalanced :
    (c : Call) (last streamed : Bool) (mid : String) (a : StreamAnswer)
    → IsBalanced (ndjson_attempt c last streamed mid a).effects
unfolding ndjson_attempt preceded with_engine
ndjson_attempt-IsBalanced c last streamed mid (refused waits) =
    append-IsBalanced (keepalives c.keepalive_enabled waits) _
      (keepalives-IsBalanced c.keepalive_enabled waits)
      (retry_or-IsBalanced c last streamed mid [] none-IsBalanced)
ndjson_attempt-IsBalanced c last streamed mid (left_waiting waits late) =
    append-IsBalanced (keepalives c.keepalive_enabled waits) (late_engine late)
      (keepalives-IsBalanced c.keepalive_enabled waits) (late-IsBalanced late)
ndjson_attempt-IsBalanced c last streamed mid (answers_error waits engine) =
    append-IsBalanced (keepalives c.keepalive_enabled waits) _
      (keepalives-IsBalanced c.keepalive_enabled waits)
      (surround-IsBalanced engine (noted c.smart (notes_failure mid) ++ (sends_error ∷ []))
        (error_line-IsBalanced c mid))
ndjson_attempt-IsBalanced c last streamed mid (streams waits engine chunks ending) =
    let r = after_ndjson c last (streamed || not (is_empty chunks)) mid ending in
    append-IsBalanced (keepalives c.keepalive_enabled waits) _
      (keepalives-IsBalanced c.keepalive_enabled waits)
      (surround-IsBalanced engine (send_all chunks ++ r.0) (
        append-IsBalanced (send_all chunks) r.0 (send_all-IsBalanced chunks)
          (after_ndjson-IsBalanced c last (streamed || not (is_empty chunks)) mid ending)))

after_ndjson-IsQuiet :
    (c : Call) (last streamed : Bool) (mid : String) (e : Ending)
    → IsQuiet (after_ndjson c last streamed mid e)
unfolding after_ndjson noted
after_ndjson-IsQuiet c last streamed mid connect_error = retry_or-IsQuiet c last streamed mid [] tt
after_ndjson-IsQuiet c last streamed mid cancelled = (tt, λ g. tt)
after_ndjson-IsQuiet c last streamed mid e = elim (Bool-cases c.smart) [
  | inl y ↦ rw y (tt, λ g. tt)
  | inr y ↦ rw y (tt, λ g. tt)
]

after_ndjson-final :
    (c : Call) (last : Bool) (mid : String) (e : Ending)
    → (after_ndjson c last true mid e).1 ≡ false
unfolding after_ndjson retry_or
after_ndjson-final c last mid connect_error = ground arith
after_ndjson-final c last mid e = refl

-- The chunks of a stream that may be tried again are none.
unsent-NoContent :
    (c : Call) (last streamed : Bool) (mid : String) (chunks : List String) (e : Ending)
    → (after_ndjson c last (streamed || not (is_empty chunks)) mid e).1 ≡ true
    → NoContent (send_all chunks)
unfolding send_all is_empty
unsent-NoContent c last streamed mid [] e h = tt
unsent-NoContent c last true mid (x ∷ xs) e h =
    absurd (ground (arith, after_ndjson-final c last mid e))
unsent-NoContent c last false mid (x ∷ xs) e h =
    absurd (ground (arith, after_ndjson-final c last mid e))

error_line-NoAsks :
    (c : Call) (mid engine : String)
    → NoAsks ((noted c.smart (notes_failure mid) ++ (sends_error ∷ [])) ++ (gives_back engine ∷ []))
unfolding noted
error_line-NoAsks c mid engine = elim (Bool-cases c.smart) [ inl e ↦ rw e tt | inr e ↦ rw e tt ]

ndjson_attempt-IsCareful :
    (c : Call) (last streamed : Bool) (mid : String) (a : StreamAnswer)
    → IsCareful (ndjson_attempt c last streamed mid a)
unfolding ndjson_attempt preceded with_engine
ndjson_attempt-IsCareful c last streamed mid (refused waits) =
    let r = retry_or c last streamed mid [] in
    let q = retry_or-IsQuiet c last streamed mid [] tt in
    (
      waited-IsCommitted c.keepalive_enabled waits mid r.0 q.0,
      λ g. waited-NoContent c.keepalive_enabled waits mid r.0 (q.1 g),
    )
ndjson_attempt-IsCareful c last streamed mid (left_waiting waits late) = (
  waited-IsCommitted c.keepalive_enabled waits mid (late_engine late) (late-NoAsks late),
  λ g. absurd (ground arith),
)
ndjson_attempt-IsCareful c last streamed mid (answers_error waits engine) = (
  waited-IsCommitted c.keepalive_enabled waits mid
      (takes engine
        ∷ ((noted c.smart (notes_failure mid) ++ (sends_error ∷ [])) ++ (gives_back engine ∷ [])))
      (error_line-NoAsks c mid engine),
  λ g. absurd (ground arith),
)
ndjson_attempt-IsCareful c last streamed mid (streams waits engine chunks ending) =
    let r = after_ndjson c last (streamed || not (is_empty chunks)) mid ending in
    let q = after_ndjson-IsQuiet c last (streamed || not (is_empty chunks)) mid ending in
    let es = send_all chunks ++ r.0 in
    let all = takes engine ∷ (es ++ (gives_back engine ∷ [])) in
    (
      waited-IsCommitted c.keepalive_enabled waits mid all (
          append-NoAsks es (gives_back engine ∷ [])
            (append-NoAsks (send_all chunks) r.0 (send_all-NoAsks chunks) q.0) tt),
      λ g. waited-NoContent c.keepalive_enabled waits mid all (
          append-NoContent es (gives_back engine ∷ [])
            (append-NoContent (send_all chunks) r.0
              (unsent-NoContent c last streamed mid chunks ending g) (q.1 g))
            tt),
    )

-- Whatever the manager, the upstream and the client do, a streaming request of the Ollama API releases
-- each engine as often as it acquires it in its attempts, and begins no attempt after it has sent the
-- client a byte of an upstream or an error.
pub ndjson-IsBalanced :
    (c : Call) (plan : List (String × StreamAnswer))
    → IsBalanced (ndjson c plan) × IsCommitted (ndjson c plan)
unfolding ndjson
ndjson-IsBalanced c plan = (
  attempts-IsBalanced ndjson_attempt c true false plan (ndjson_attempt-IsBalanced c),
  attempts-IsCommitted ndjson_attempt c true false plan (ndjson_attempt-IsCareful c),
)
