-- ===== src/Serve/Balance.antt =====
-- Every engine that an attempt of router/app.py, `_handle_v1_post`, acquires is released.
use local_engine_router.Common.{
  ℕ, zero, suc, ◌+◌, ◌≡◌, refl, arith, String, Option, none, some, Bool, true, false, List, [], ◌∷◌,
  ◌++◌, if◌then◌else◌, ◌==◌, not, ◌||◌,
}
use local_engine_router.Serve.{
  Effect, takes, gives_back, notes_failure, Call, Attempt, StreamAnswer, refused, left_waiting,
  answers_error, streams, PostAnswer, post_refused, post_connect_error, post_broken, post_cancelled,
  post_answers, Ending, connect_error, noted, fallback_note, retry_or, keepalives, send_all,
  after_stream, with_engine, preceded, late_engine, is_empty, error_frames, stream_attempt,
  post_attempt, attempts, stream, post,
}

-- How often the engine is acquired, and how often released.
abbrev pub takes_of : String → List Effect → ℕ
takes_of k [] = 0
takes_of k (takes j ∷ es) = if j == k then suc (takes_of k es) else takes_of k es
takes_of k (e ∷ es) = takes_of k es

abbrev pub gives_of : String → List Effect → ℕ
gives_of k [] = 0
gives_of k (gives_back j ∷ es) = if j == k then suc (gives_of k es) else gives_of k es
gives_of k (e ∷ es) = gives_of k es

abbrev pub IsBalanced : List Effect → Type 0
IsBalanced es = (k : String) → takes_of k es ≡ gives_of k es

takes_of-append :
    (k : String) (es fs : List Effect) → takes_of k (es ++ fs) ≡ takes_of k es + takes_of k fs
takes_of-append k [] fs = omega arith
takes_of-append k (takes j ∷ es) fs = ground (arith, takes_of-append k es fs)
takes_of-append k (e ∷ es) fs = takes_of-append k es fs

gives_of-append :
    (k : String) (es fs : List Effect) → gives_of k (es ++ fs) ≡ gives_of k es + gives_of k fs
gives_of-append k [] fs = omega arith
gives_of-append k (gives_back j ∷ es) fs = ground (arith, gives_of-append k es fs)
gives_of-append k (e ∷ es) fs = gives_of-append k es fs

pub append-IsBalanced :
    (es fs : List Effect) → IsBalanced es → IsBalanced fs → IsBalanced (es ++ fs)
append-IsBalanced es fs a b k =
    omega (arith, takes_of-append k es fs, gives_of-append k es fs, a k, b k)

-- What lies between an acquire and its release.
pub surround-IsBalanced :
    (engine : String) (es : List Effect)
    → IsBalanced es
    → IsBalanced (takes engine ∷ (es ++ (gives_back engine ∷ [])))
surround-IsBalanced engine es a k = ground (
  arith,
  takes_of-append k es (gives_back engine ∷ []),
  gives_of-append k es (gives_back engine ∷ []),
  a k,
)

pub keepalives-IsBalanced : (on : Bool) (n : ℕ) → IsBalanced (keepalives on n)
unfolding keepalives
keepalives-IsBalanced on zero k = refl
keepalives-IsBalanced true (suc n) k = keepalives-IsBalanced true n k
keepalives-IsBalanced false (suc n) k = keepalives-IsBalanced false n k

pub send_all-IsBalanced : (cs : List String) → IsBalanced (send_all cs)
unfolding send_all
send_all-IsBalanced [] k = refl
send_all-IsBalanced (c ∷ cs) k = send_all-IsBalanced cs k

pub retry_or-IsBalanced :
    (c : Call) (last streamed : Bool) (mid : String) (reply : List Effect)
    → IsBalanced reply
    → IsBalanced (retry_or c last streamed mid reply).0
unfolding retry_or
retry_or-IsBalanced c last streamed mid reply b k = ground (arith, b k)

error_frames-IsBalanced : IsBalanced error_frames
unfolding error_frames
error_frames-IsBalanced k = refl

after_stream-IsBalanced :
    (c : Call) (last streamed : Bool) (mid : String) (e : Ending)
    → IsBalanced (after_stream c last streamed mid e).0
unfolding after_stream noted error_frames
after_stream-IsBalanced c last streamed mid connect_error k =
    retry_or-IsBalanced c last streamed mid error_frames error_frames-IsBalanced k
after_stream-IsBalanced c last streamed mid e k = ground arith

pub late-IsBalanced : (o : Option String) → IsBalanced (late_engine o)
unfolding late_engine
late-IsBalanced none k = refl
late-IsBalanced (some engine) k = ground arith

noted-IsBalanced :
    (c : Call) (mid : String) → IsBalanced (noted c.smart (notes_failure mid) ++ error_frames)
unfolding noted error_frames
noted-IsBalanced c mid k = ground arith

stream_attempt-IsBalanced :
    (c : Call) (last streamed : Bool) (mid : String) (a : StreamAnswer)
    → IsBalanced (stream_attempt c last streamed mid a).effects
unfolding stream_attempt preceded with_engine
stream_attempt-IsBalanced c last streamed mid (refused waits) =
    append-IsBalanced (keepalives c.keepalive_enabled waits) _
      (keepalives-IsBalanced c.keepalive_enabled waits)
      (retry_or-IsBalanced c last streamed mid error_frames error_frames-IsBalanced)
stream_attempt-IsBalanced c last streamed mid (left_waiting waits late) =
    append-IsBalanced (keepalives c.keepalive_enabled waits) (late_engine late)
      (keepalives-IsBalanced c.keepalive_enabled waits) (late-IsBalanced late)
stream_attempt-IsBalanced c last streamed mid (answers_error waits engine) =
    append-IsBalanced (keepalives c.keepalive_enabled waits) _
      (keepalives-IsBalanced c.keepalive_enabled waits)
      (surround-IsBalanced engine (noted c.smart (notes_failure mid) ++ error_frames)
        (noted-IsBalanced c mid))
stream_attempt-IsBalanced c last streamed mid (streams waits engine chunks ending) =
    append-IsBalanced (keepalives c.keepalive_enabled waits) _
      (keepalives-IsBalanced c.keepalive_enabled waits)
      (surround-IsBalanced engine
        (send_all chunks ++ (after_stream c last (streamed || not (is_empty chunks)) mid ending).0)
        (append-IsBalanced (send_all chunks)
          (after_stream c last (streamed || not (is_empty chunks)) mid ending).0
          (send_all-IsBalanced chunks)
          (after_stream-IsBalanced c last (streamed || not (is_empty chunks)) mid ending)))

post_attempt-IsBalanced :
    (c : Call) (last streamed : Bool) (mid : String) (a : PostAnswer)
    → IsBalanced (post_attempt c last streamed mid a).effects
unfolding post_attempt noted retry_or
post_attempt-IsBalanced c last streamed mid (post_refused unroutable) k = ground arith
post_attempt-IsBalanced c last streamed mid (post_connect_error engine) k = ground arith
post_attempt-IsBalanced c last streamed mid (post_broken engine) k = ground arith
post_attempt-IsBalanced c last streamed mid (post_cancelled engine) k = ground arith
post_attempt-IsBalanced c last streamed mid (post_answers engine status) k = ground arith

if_again-IsBalanced :
    (again : Bool) (es : List Effect) → IsBalanced es → IsBalanced (if again then es else [])
if_again-IsBalanced true es h = h
if_again-IsBalanced false es h = λ k. refl

pub attempts-IsBalanced :
    {A : Type 0} (once : Call → Bool → Bool → String → A → Attempt) (c : Call)
    (first streamed : Bool) (plan : List (String × A))
    → ((last now : Bool) (mid : String) (a : A) → IsBalanced (once c last now mid a).effects)
    → IsBalanced (attempts once c first streamed plan)
unfolding attempts fallback_note
attempts-IsBalanced once c first streamed [] b = λ k. refl
attempts-IsBalanced once c first streamed ((mid, a) ∷ rest) b =
    let now : Attempt = once c (is_empty rest) streamed mid a in
    append-IsBalanced (fallback_note c first mid) _ (λ k. ground arith)
      (append-IsBalanced now.effects _ (b (is_empty rest) streamed mid a)
        (if_again-IsBalanced now.again _ (attempts-IsBalanced once c false now.streamed rest b)))

-- Whatever the manager, the upstreams and the client do, an engine that a streaming request acquires
-- in its attempts is released as often as it is acquired.
pub stream-IsBalanced :
    (c : Call) (plan : List (String × StreamAnswer)) → IsBalanced (stream c plan)
unfolding stream
stream-IsBalanced c plan =
    attempts-IsBalanced stream_attempt c true false plan (stream_attempt-IsBalanced c)

-- The same for a request that is not streamed.
pub post-IsBalanced : (c : Call) (plan : List (String × PostAnswer)) → IsBalanced (post c plan)
unfolding post
post-IsBalanced c plan =
    attempts-IsBalanced post_attempt c true false plan (post_attempt-IsBalanced c)
