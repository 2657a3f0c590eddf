-- ===== src/Serve/Commit.antt =====
-- When router/app.py, `_handle_v1_post`, may try again: never once the client has got anything.
use local_engine_router.Common.{
  ltb, ℕ, zero, suc, ◌≡◌, refl, arith, String, Option, none, some, Bool, true, false, List, [], ◌∷◌,
  ◌++◌, if◌then◌else◌, Bool-cases, inl, inr, not, ◌||◌, ◌&&◌,
}
use local_engine_router.Serve.{
  post, post_attempt, post_answers, post_cancelled, post_broken, post_connect_error, post_refused,
  PostAnswer, Effect, asks, takes, gives_back, notes_failure, sends_error, sends_done, sends,
  responds, Call, Attempt, StreamAnswer, refused, left_waiting, answers_error, streams, Ending,
  complete, client_gone, connect_error, broken, cancelled, noted, fallback_note, retry_or,
  keepalives, send_all, after_stream, with_engine, preceded, late_engine, is_empty, error_frames,
  stream_attempt, attempts, stream,
}

-- No attempt begins.
abbrev pub NoAsks : List Effect → Type 0
NoAsks [] = Unit {0}
NoAsks (asks m ∷ es) = ⊥
NoAsks (e ∷ es) = NoAsks es

-- The client gets nothing but keep-alive comments.
abbrev pub NoContent : List Effect → Type 0
NoContent [] = Unit {0}
NoContent (sends chunk ∷ es) = ⊥
NoContent (sends_error ∷ es) = ⊥
NoContent (sends_done ∷ es) = ⊥
NoContent (responds status ∷ es) = ⊥
NoContent (e ∷ es) = NoContent es

-- No attempt begins after the client has got something.
abbrev pub IsCommitted : List Effect → Type 0
IsCommitted [] = Unit {0}
IsCommitted (sends chunk ∷ es) = NoAsks es
IsCommitted (sends_error ∷ es) = NoAsks es
IsCommitted (sends_done ∷ es) = NoAsks es
IsCommitted (responds status ∷ es) = NoAsks es
IsCommitted (e ∷ es) = IsCommitted es

NoAsks-IsCommitted : (es : List Effect) → NoAsks es → IsCommitted es
NoAsks-IsCommitted [] h = tt
NoAsks-IsCommitted (asks m ∷ es) h = absurd h
NoAsks-IsCommitted (sends chunk ∷ es) h = h
NoAsks-IsCommitted (sends_error ∷ es) h = h
NoAsks-IsCommitted (sends_done ∷ es) h = h
NoAsks-IsCommitted (responds status ∷ es) h = h
NoAsks-IsCommitted (e ∷ es) h = NoAsks-IsCommitted es h

pub append-NoAsks : (es fs : List Effect) → NoAsks es → NoAsks fs → NoAsks (es ++ fs)
append-NoAsks [] fs a b = b
append-NoAsks (asks m ∷ es) fs a b = absurd a
append-NoAsks (e ∷ es) fs a b = append-NoAsks es fs a b

pub append-NoContent : (es fs : List Effect) → NoContent es → NoContent fs → NoContent (es ++ fs)
append-NoContent [] fs a b = b
append-NoContent (sends chunk ∷ es) fs a b = absurd a
append-NoContent (sends_error ∷ es) fs a b = absurd a
append-NoContent (sends_done ∷ es) fs a b = absurd a
append-NoContent (responds status ∷ es) fs a b = absurd a
append-NoContent (e ∷ es) fs a b = append-NoContent es fs a b

append-IsCommitted : (es fs : List Effect) → NoContent es → IsCommitted fs → IsCommitted (es ++ fs)
append-IsCommitted [] fs a b = b
append-IsCommitted (sends chunk ∷ es) fs a b = absurd a
append-IsCommitted (sends_error ∷ es) fs a b = absurd a
append-IsCommitted (sends_done ∷ es) fs a b = absurd a
append-IsCommitted (responds status ∷ es) fs a b = absurd a
append-IsCommitted (e ∷ es) fs a b = append-IsCommitted es fs a b

append-nothing : (es : List Effect) → IsCommitted es → IsCommitted (es ++ [])
append-nothing [] a = a
append-nothing (sends chunk ∷ es) a = append-NoAsks es [] a tt
append-nothing (sends_error ∷ es) a = append-NoAsks es [] a tt
append-nothing (sends_done ∷ es) a = append-NoAsks es [] a tt
append-nothing (responds status ∷ es) a = append-NoAsks es [] a tt
append-nothing (e ∷ es) a = append-nothing es a

-- An attempt begins once, and goes on to another only if the client has got nothing.
abbrev pub IsCareful : Attempt → Type 0
IsCareful a = IsCommitted a.effects × (a.again ≡ true → NoContent a.effects)

keepalives-quiet : (on : Bool) (n : ℕ) → NoAsks (keepalives on n) × NoContent (keepalives on n)
unfolding keepalives
keepalives-quiet on zero = (tt, tt)
keepalives-quiet true (suc n) = keepalives-quiet true n
keepalives-quiet false (suc n) = keepalives-quiet false n

pub send_all-NoAsks : (cs : List String) → NoAsks (send_all cs)
unfolding send_all
send_all-NoAsks [] = tt
send_all-NoAsks (c ∷ cs) = send_all-NoAsks cs

-- What a retry does is quiet, and what it does else asks for nothing.
abbrev pub IsQuiet : List Effect × Bool → Type 0
IsQuiet r = NoAsks r.0 × (r.1 ≡ true → NoContent r.0)

pub retry_or-IsQuiet :
    (c : Call) (last streamed : Bool) (mid : String) (reply : List Effect)
    → NoAsks reply
    → IsQuiet (retry_or c last streamed mid reply)
unfolding retry_or
retry_or-IsQuiet c last streamed mid reply h = elim (Bool-cases c.smart) [
  | inl e ↦ elim (Bool-cases (not last && not streamed)) [
    | inl f ↦ rw e (rw f (tt, λ g. tt))
    | inr f ↦ rw e (rw f (h, λ g. absurd (ground arith)))
  ]
  | inr e ↦ rw e (h, λ g. absurd (ground arith))
]

after_stream-IsQuiet :
    (c : Call) (last streamed : Bool) (mid : String) (e : Ending)
    → IsQuiet (after_stream c last streamed mid e)
unfolding after_stream noted error_frames
after_stream-IsQuiet c last streamed mid connect_error =
    retry_or-IsQuiet c last streamed mid error_frames tt
after_stream-IsQuiet c last streamed mid complete = elim (Bool-cases c.smart) [
  | inl e ↦ rw e (tt, λ g. tt)
  | inr e ↦ rw e (tt, λ g. tt)
]
after_stream-IsQuiet c last streamed mid client_gone = elim (Bool-cases c.smart) [
  | inl e ↦ rw e (tt, λ g. tt)
  | inr e ↦ rw e (tt, λ g. tt)
]
after_stream-IsQuiet c last streamed mid broken = elim (Bool-cases c.smart) [
  | inl e ↦ rw e (tt, λ g. absurd (ground arith))
  | inr e ↦ rw e (tt, λ g. absurd (ground arith))
]
after_stream-IsQuiet c last streamed mid cancelled = (tt, λ g. tt)

after_stream-final :
    (c : Call) (last streamed : Bool) (mid : String) (e : Ending)
    → streamed ≡ true
    → (after_stream c last streamed mid e).1 ≡ false
unfolding after_stream retry_or
after_stream-final c last streamed mid connect_error h = ground arith
after_stream-final c last streamed mid e h = refl

-- The chunks of a stream that may be tried again are none.
chunks-NoContent :
    (c : Call) (last streamed : Bool) (mid : String) (chunks : List String) (e : Ending)
    → (after_stream c last (streamed || not (is_empty chunks)) mid e).1 ≡ true
    → NoContent (send_all chunks)
unfolding send_all is_empty
chunks-NoContent c last streamed mid [] e h = tt
chunks-NoContent c last streamed mid (x ∷ xs) e h =
    absurd (ground (arith, after_stream-final c last (streamed || true) mid e (ground arith)))

pub late-NoAsks : (o : Option String) → NoAsks (late_engine o)
unfolding late_engine
late-NoAsks none = tt
late-NoAsks (some engine) = tt

error-NoAsks :
    (c : Call) (mid engine : String)
    → NoAsks ((noted c.smart (notes_failure mid) ++ error_frames) ++ (gives_back engine ∷ []))
unfolding noted error_frames
error-NoAsks c mid engine = elim (Bool-cases c.smart) [ inl e ↦ rw e tt | inr e ↦ rw e tt ]

-- An attempt waits, and then does what asks for nothing.
pub waited-IsCommitted :
    (on : Bool) (waits : ℕ) (mid : String) (es : List Effect)
    → NoAsks es
    → IsCommitted (asks mid ∷ (keepalives on waits ++ es))
waited-IsCommitted on waits mid es h =
    NoAsks-IsCommitted (keepalives on waits ++ es)
      (append-NoAsks (keepalives on waits) es (keepalives-quiet on waits).0 h)

pub waited-NoContent :
    (on : Bool) (waits : ℕ) (mid : String) (es : List Effect)
    → NoContent es
    → NoContent (asks mid ∷ (keepalives on waits ++ es))
waited-NoContent on waits mid es h =
    append-NoContent (keepalives on waits) es (keepalives-quiet on waits).1 h

stream_attempt-IsCareful :
    (c : Call) (last streamed : Bool) (mid : String) (a : StreamAnswer)
    → IsCareful (stream_attempt c last streamed mid a)
unfolding stream_attempt preceded with_engine
stream_attempt-IsCareful c last streamed mid (refused waits) =
    let r = retry_or c last streamed mid error_frames in
    let q = retry_or-IsQuiet c last streamed mid error_frames (unfold error_frames in tt) in
    (
      waited-IsCommitted c.keepalive_enabled waits mid r.0 q.0,
      λ g. waited-NoContent c.keepalive_enabled waits mid r.0 (q.1 g),
    )
stream_attempt-IsCareful c last streamed mid (left_waiting waits late) = (
  waited-IsCommitted c.keepalive_enabled waits mid (late_engine late) (late-NoAsks late),
  λ g. absurd (ground arith),
)
stream_attempt-IsCareful c last streamed mid (answers_error waits engine) = (
  waited-IsCommitted c.keepalive_enabled waits mid
      (takes engine
        ∷ ((noted c.smart (notes_failure mid) ++ error_frames) ++ (gives_back engine ∷ [])))
      (error-NoAsks c mid engine),
  λ g. absurd (ground arith),
)
stream_attempt-IsCareful c last streamed mid (streams waits engine chunks ending) =
    let r = after_stream c last (streamed || not (is_empty chunks)) mid ending in
    let q = after_stream-IsQuiet c last (streamed || not (is_empty chunks)) mid ending in
    let es = send_all chunks ++ r.0 in
    let all = takes engine ∷ (es ++ (gives_back engine ∷ [])) in
    (
      waited-IsCommitted c.keepalive_enabled waits mid all (
          append-NoAsks es (gives_back engine ∷ [])
            (append-NoAsks (send_all chunks) r.0 (send_all-NoAsks chunks) q.0) tt),
      λ g. waited-NoContent c.keepalive_enabled waits mid all (
          append-NoContent es (gives_back engine ∷ [])
            (append-NoContent (send_all chunks) r.0
              (chunks-NoContent c last streamed mid chunks ending g) (q.1 g))
            tt),
    )

fallback_note-NoContent :
    (c : Call) (first : Bool) (mid : String) → NoContent (fallback_note c first mid)
unfolding fallback_note
fallback_note-NoContent c first mid = elim (Bool-cases (not first && c.smart)) [
  | inl e ↦ rw e tt
  | inr e ↦ rw e tt
]

later-IsCommitted :
    (a : Attempt) (later : List Effect) (again : Bool)
    → a.again ≡ again
    → IsCareful a
    → IsCommitted later
    → IsCommitted (a.effects ++ (if again then later else []))
later-IsCommitted a later true e h l = append-IsCommitted a.effects later (h.1 e) l
later-IsCommitted a later false e h l = append-nothing a.effects h.0

pub attempts-IsCommitted :
    {A : Type 0} (once : Call → Bool → Bool → String → A → Attempt) (c : Call)
    (first streamed : Bool) (plan : List (String × A))
    → ((last now : Bool) (mid : String) (a : A) → IsCareful (once c last now mid a))
    → IsCommitted (attempts once c first streamed plan)
unfolding attempts
attempts-IsCommitted once c first streamed [] b = tt
attempts-IsCommitted once c first streamed ((mid, a) ∷ rest) b =
    let now : Attempt = once c (is_empty rest) streamed mid a in
    append-IsCommitted (fallback_note c first mid) _ (fallback_note-NoContent c first mid) (
      later-IsCommitted now (attempts once c false now.streamed rest) now.again refl
        (b (is_empty rest) streamed mid a) (attempts-IsCommitted once c false now.streamed rest b))

-- A streaming request never begins another attempt after it has sent the client a byte of an upstream
-- or an error: keep-alive comments are all that the client has got before any attempt.
pub stream-IsCommitted :
    (c : Call) (plan : List (String × StreamAnswer)) → IsCommitted (stream c plan)
unfolding stream
stream-IsCommitted c plan =
    attempts-IsCommitted stream_attempt c true false plan (stream_attempt-IsCareful c)

post_attempt-IsCareful :
    (c : Call) (last streamed : Bool) (mid : String) (a : PostAnswer)
    → IsCareful (post_attempt c last streamed mid a)
unfolding post_attempt noted retry_or
post_attempt-IsCareful c last streamed mid (post_refused unroutable) = elim (Bool-cases c.smart) [
  | inl e ↦ elim (Bool-cases last) [
    | inl f ↦ rw e (rw f (tt, λ g. absurd (ground arith)))
    | inr f ↦ rw e (rw f (tt, λ g. tt))
  ]
  | inr e ↦ rw e (tt, λ g. absurd (ground arith))
]
post_attempt-IsCareful c last streamed mid (post_connect_error engine) = elim (Bool-cases c.smart) [
  | inl e ↦ elim (Bool-cases last) [
    | inl f ↦ rw e (rw f (tt, λ g. absurd (ground arith)))
    | inr f ↦ rw e (rw f (tt, λ g. tt))
  ]
  | inr e ↦ rw e (tt, λ g. absurd (ground arith))
]
post_attempt-IsCareful c last streamed mid (post_broken engine) = elim (Bool-cases c.smart) [
  | inl e ↦ rw e (tt, λ g. absurd (ground arith))
  | inr e ↦ rw e (tt, λ g. absurd (ground arith))
]
post_attempt-IsCareful c last streamed mid (post_cancelled engine) = (tt, λ g. tt)
post_attempt-IsCareful c last streamed mid (post_answers engine status) =
    elim (Bool-cases c.smart) [
      | inl e ↦ elim (Bool-cases (ltb status 500)) [
        | inl f ↦ rw e (rw f (tt, λ g. absurd (ground arith)))
        | inr f ↦ rw e (rw f (tt, λ g. absurd (ground arith)))
      ]
      | inr e ↦ rw e (tt, λ g. absurd (ground arith))
    ]

-- A request that is not streamed never begins another attempt after its response.
pub post-IsCommitted : (c : Call) (plan : List (String × PostAnswer)) → IsCommitted (post c plan)
unfolding post
post-IsCommitted c plan =
    attempts-IsCommitted post_attempt c true false plan (post_attempt-IsCareful c)
