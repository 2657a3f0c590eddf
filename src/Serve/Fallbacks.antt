-- ===== src/Serve/Fallbacks.antt =====
-- router/app.py, `_handle_v1_post`: the body that each attempt sends. `body` is one object that every
-- attempt writes to, so it is passed from attempt to attempt; bytes are the object that they encode.
use local_engine_router.Common.{
  ℕ, ◌≡◌, ◌∙◌, refl, sym, ap, arith, eq_iff, String, Option, none, some, Bool, false, List, [], ◌∷◌,
  Dict, get, put, pop, get-put, get-pop, All, Option-cases, Bool-cases, inl, inr, if◌then◌else◌,
  ◌==◌,
}
use local_engine_router.Json.{Json, null, bool, num, str, arr, obj}
use local_engine_router.Serve.Bodies.{
  Raw, request, read_request, first_body, Names, first-Names, named_model,
}
use local_engine_router.Serve.Thinking.{present, apply_thinking_policy, policy-TurnsOff}

abbrev or_same : Option (Dict Json) → Dict Json → Dict Json
or_same none b = b
or_same (some b') b = b'

-- What `body_for` closes over.
pub record Closure : Type 0 where
  pub model : String
  pub raw_body : Dict Json
  -- client_ctk, none where it is None
  pub client_ctk : Option Json

-- body.pop("chat_template_kwargs", None), or the client's own
unfoldable pub restore_ctk : Option Json → Dict Json → Dict Json
restore_ctk none b = pop b "chat_template_kwargs"
restore_ctk (some v) b = put b "chat_template_kwargs" v

-- `thresholds` are the models' disable_thinking_below_max_tokens.
module _ (below : String → ℕ → Bool) (thresholds : String → Option ℕ) (path : String) where
  -- _apply_thinking_policy, with the bytes that it leaves alone
  unfoldable pub with_policy : String → Dict Json → Dict Json
  with_policy mid b = or_same (apply_thinking_policy below (thresholds mid) path b) b

  -- Before the attempts: the closure and the body as it is left.
  unfoldable pub prepare : Dict String → Option String → String → Dict Json → Closure × Dict Json
  unfolding with_policy
  prepare aliases picked m client =
      let (model, b) = first_body aliases picked m client in
      (
        record {
          model = model;
          raw_body = with_policy model b;
          client_ctk = present (get b "chat_template_kwargs");
        },
        with_policy model b,
      )

  -- body_for: the bytes for an attempt, and the body as it is left.
  unfoldable pub v1_body_for : Closure → Dict Json → String → Dict Json × Dict Json
  unfolding with_policy restore_ctk
  v1_body_for c b mid =
      if mid == c.model
      then (c.raw_body, b)
      else let sent : Dict Json =
          with_policy mid (restore_ctk c.client_ctk (put b "model" (str mid))) in
        (sent, sent)

  -- What the attempts of a plan send.
  unfoldable pub sent_bodies : Closure → Dict Json → List String → List (String × Dict Json)
  sent_bodies c b [] = []
  sent_bodies c b (mid ∷ mids) =
      let (sent, b') = v1_body_for c b mid in (mid, sent) ∷ sent_bodies c b' mids

  -- The bytes are what the thinking policy of the attempt's model makes of the client's body with the
  -- name of that model, where a null counts as missing.
  pub record IsOwn (client : Dict Json) (p : String × Dict Json) : Type 0 where
    pub named : Dict Json
    pub keys :
        (k : String)
        → present (get named k) ≡ (if "model" == k then some (str p.0) else present (get client k))
    pub policed : p.1 ≡ with_policy p.0 named

  -- Nothing but the model and the kwargs differs from the client's body.
  abbrev Kept : Dict Json → Dict Json → Type 0
  Kept client b =
      (k : String)
      → ("model" == k) ≡ false
      → ("chat_template_kwargs" == k) ≡ false
      → get b k ≡ get client k

  policy-Kept :
      (client b : Dict Json) (mid : String) → Kept client b → Kept client (with_policy mid b)
  unfolding with_policy
  policy-Kept client b mid h k n e =
      elim (Option-cases (apply_thinking_policy below (thresholds mid) path b)) [
        | inl same ↦ rw same (h k n e)
        | inr s ↦
            let (t, same, chat, off) = policy-TurnsOff below (thresholds mid) path b s.0 s.1 in
            rw s.1 (off.others k e ∙ h k n e)
      ]

  restored :
      (o : Option Json) (b : Dict Json)
      → present (get (restore_ctk (present o) b) "chat_template_kwargs") ≡ present o
  unfolding restore_ctk
  restored none b = rw (get-pop b "chat_template_kwargs" "chat_template_kwargs")
  restored (some null) b = rw (get-pop b "chat_template_kwargs" "chat_template_kwargs")
  restored (some (bool x)) b = rw (get-put b "chat_template_kwargs" "chat_template_kwargs" (bool x))
  restored (some (num z x)) b =
      rw (get-put b "chat_template_kwargs" "chat_template_kwargs" (num z x))
  restored (some (str x)) b = rw (get-put b "chat_template_kwargs" "chat_template_kwargs" (str x))
  restored (some (arr x)) b = rw (get-put b "chat_template_kwargs" "chat_template_kwargs" (arr x))
  restored (some (obj x)) b = rw (get-put b "chat_template_kwargs" "chat_template_kwargs" (obj x))

  get-restore_ctk :
      (o : Option Json) (b : Dict Json) (k : String)
      → ("chat_template_kwargs" == k) ≡ false
      → get (restore_ctk o b) k ≡ get b k
  unfolding restore_ctk
  get-restore_ctk none b k n = ground (arith, get-pop b "chat_template_kwargs" k)
  get-restore_ctk (some v) b k n = ground (arith, get-put b "chat_template_kwargs" k v)

  restored-keys :
      (client b : Dict Json) (mid k : String)
      → Kept client b
      → present (
          get
            (restore_ctk (present (get client "chat_template_kwargs")) (put b "model" (str mid)))
            k)
        ≡ (if "model" == k then some (str mid) else present (get client k))
  restored-keys client b mid k h = elim (Bool-cases ("chat_template_kwargs" == k)) [
    | inl y ↦
        rw (sym ((eq_iff "chat_template_kwargs" k).0 y))
          (restored (get client "chat_template_kwargs") (put b "model" (str mid)))
    | inr n ↦
        rw
          (get-restore_ctk (present (get client "chat_template_kwargs")) (put b "model" (str mid)) k
            n)
          (elim (Bool-cases ("model" == k)) [
            | inl y ↦ rw (get-put b "model" k (str mid), y) refl
            | inr x ↦ rw (get-put b "model" k (str mid), x) (ap present (h k x n))
          ])
  ]

  -- The closure fits the client's body: its own attempt is right, and it remembers the client's kwargs.
  pub record Fits (client : Dict Json) (c : Closure) : Type 0 where
    pub own : IsOwn client (c.model, c.raw_body)
    pub remembers : c.client_ctk ≡ present (get client "chat_template_kwargs")

  attempt-IsOwn :
      (client : Dict Json) (c : Closure) (b : Dict Json) (mid : String)
      → Fits client c
      → Kept client b
      → IsOwn client (mid, (v1_body_for c b mid).0) × Kept client (v1_body_for c b mid).1
  unfolding v1_body_for
  attempt-IsOwn client c b mid f h = elim (Bool-cases (mid == c.model)) [
    | inl y ↦ rw y (rw ((eq_iff mid c.model).0 y) f.own, h)
    | inr n ↦
        let fresh : Dict Json = restore_ctk c.client_ctk (put b "model" (str mid)) in
        rw n (
          record {
            named = fresh;
            keys = λ k. rw f.remembers (restored-keys client b mid k h);
            policed = refl;
          },
          policy-Kept client fresh mid (λ k m e.
              get-restore_ctk c.client_ctk (put b "model" (str mid)) k e
              ∙ ground (arith, get-put b "model" k (str mid), h k m e)),
        )
  ]

  sent-IsOwn :
      (client : Dict Json) (c : Closure) (b : Dict Json) (mids : List String)
      → Fits client c
      → Kept client b
      → All (IsOwn client) (sent_bodies c b mids)
  unfolding sent_bodies
  sent-IsOwn client c b [] f h = tt
  sent-IsOwn client c b (mid ∷ mids) f h =
      let (own, kept) = attempt-IsOwn client c b mid f h in
      (own, sent-IsOwn client c (v1_body_for c b mid).1 mids f kept)

  named-keys :
      (client : Dict Json) (p : String × Dict Json) (k : String)
      → Names client p
      → present (get p.1 k) ≡ (if "model" == k then some (str p.0) else present (get client k))
  named-keys client p k h = elim (Bool-cases ("model" == k)) [
    | inl y ↦ rw (h k, y) refl
    | inr n ↦ rw (h k, n) refl
  ]

  -- Whatever the plan, each attempt sends what the thinking policy of its own model makes of the
  -- client's body with the name of that model: no attempt inherits the model or the kwargs that an
  -- earlier one wrote to the shared body. A null counts as missing.
  pub sent_bodies-IsOwn :
      (raw : Raw) (aliases : Dict String) (picked : Option String) (m : String) (client : Dict Json)
      (mids : List String)
      → read_request raw ≡ request m client
      → All
          (IsOwn client)
          (sent_bodies (prepare aliases picked m client).0 (prepare aliases picked m client).1 mids)
  unfolding prepare
  sent_bodies-IsOwn raw aliases picked m client mids e =
      let p : String × Dict Json = first_body aliases picked m client in
      let names : Names client p =
        first-Names aliases picked m client (named_model raw m client e) in
      sent-IsOwn client _ (with_policy p.0 p.1) mids
        (record {
          own = record { named = p.1; keys = λ k. named-keys client p k names; policed = refl };
          remembers = ap present (names "chat_template_kwargs");
        })
        (policy-Kept client p.1 p.0 (λ k n x. rw n at (names k)))
