-- ===== src/Serve/Thinking.antt =====
-- router/app.py, `_apply_thinking_policy`. `below s t` says whether the number that is written s is less
-- than the threshold t. The answer is the rewritten body, or none where the bytes stay as they are.
use mathlib.Core.Option.{some-injective}
use local_engine_router.Common.{
  ℕ, zero, suc, ◌≡◌, ◌∙◌, refl, ap, subst, arith, String, Option, none, some, Bool, true, false, [],
  Dict, get, put, get-put, if◌then◌else◌, ◌==◌, Bool-cases, inl, inr,
}
use local_engine_router.Json.{
  Json, null, bool, num, str, arr, obj, fields, to_fields, fields-to_fields, strip_slashes,
  ends_with,
}

-- d.get(k), with None for a null
abbrev pub present : Option Json → Option Json
present none = none
present (some null) = none
present (some v) = some v

or_budget : Option Json → Option Json → Option Json
or_budget none o = o
or_budget (some v) o = some v

unfoldable pub budget : Dict Json → Option Json
unfolding or_budget
budget b = or_budget (present (get b "max_completion_tokens")) (present (get b "max_tokens"))

-- The entries of `chat_template_kwargs`, none where that is no dict.
abbrev pub entries_in : Option Json → Dict Json
entries_in (some (obj fs)) = fields fs
entries_in v = []

unfoldable pub kwargs_entries : Dict Json → Dict Json
kwargs_entries b = entries_in (get b "chat_template_kwargs")

with_kwargs : Dict Json → Dict Json → Dict Json
with_kwargs b d = put b "chat_template_kwargs" (obj (to_fields d))

-- if isinstance(ctk, dict) and "enable_thinking" in ctk
unless_chosen : Dict Json → Option Json → Option (Dict Json)
unfolding kwargs_entries with_kwargs
unless_chosen b (some v) = none
unless_chosen b none = some (with_kwargs b (put (kwargs_entries b) "enable_thinking" (bool false)))

-- Where the path is that of a chat.
unfoldable pub is_chat : String → Bool
is_chat path = ends_with "chat/completions" (strip_slashes path)

module _ (below : String → ℕ → Bool) where
  under_threshold : ℕ → Dict Json → Option Json → Option (Dict Json)
  unfolding unless_chosen kwargs_entries
  under_threshold t b (some (num z s)) =
      if below s t then unless_chosen b (get (kwargs_entries b) "enable_thinking") else none
  under_threshold t b v = none

  -- A threshold that is missing or 0 leaves the body alone.
  unfoldable pub apply_thinking_policy : Option ℕ → String → Dict Json → Option (Dict Json)
  unfolding under_threshold budget is_chat
  apply_thinking_policy none path b = none
  apply_thinking_policy (some zero) path b = none
  apply_thinking_policy (some (suc t)) path b =
      if is_chat path then under_threshold (suc t) b (budget b) else none

  -- The body `b'` is `b` with thinking turned off, which the client had not set.
  pub record TurnsOff (t : ℕ) (b b' : Dict Json) : Type 0 where
    pub is_zero : Bool
    pub text : String
    pub has_budget : budget b ≡ some (num is_zero text)
    pub small : below text t ≡ true
    pub not_chosen : get (kwargs_entries b) "enable_thinking" ≡ none
    pub kwargs :
        (k : String)
        → get (kwargs_entries b') k
          ≡ (if "enable_thinking" == k then some (bool false) else get (kwargs_entries b) k)
    pub others : (k : String) → ("chat_template_kwargs" == k) ≡ false → get b' k ≡ get b k

  kwargs-with_kwargs : (b d : Dict Json) → kwargs_entries (with_kwargs b d) ≡ d
  unfolding kwargs_entries with_kwargs
  kwargs-with_kwargs b d =
      rw (get-put b "chat_template_kwargs" "chat_template_kwargs" (obj (to_fields d)))
        (fields-to_fields d)

  others-with_kwargs :
      (b d : Dict Json) (k : String)
      → ("chat_template_kwargs" == k) ≡ false
      → get (with_kwargs b d) k ≡ get b k
  unfolding with_kwargs
  others-with_kwargs b d k n =
      ground (arith, get-put b "chat_template_kwargs" k (obj (to_fields d)))

  chosen-TurnsOff :
      (t : ℕ) (z : Bool) (s : String) (b b' : Dict Json) (o : Option Json)
      → get (kwargs_entries b) "enable_thinking" ≡ o
      → budget b ≡ some (num z s)
      → below s t ≡ true
      → unless_chosen b o ≡ some b'
      → TurnsOff t b b'
  unfolding unless_chosen
  chosen-TurnsOff t z s b b' (some v) g e l h = absurd (ground arith)
  chosen-TurnsOff t z s b b' none g e l h = subst (TurnsOff t b) (some-injective _ _ h) (record {
    is_zero = z;
    text = s;
    has_budget = e;
    small = l;
    not_chosen = g;
    kwargs = λ k.
        ap (λ d. get d k) (kwargs-with_kwargs b _)
        ∙ get-put (kwargs_entries b) "enable_thinking" k (bool false);
    others = λ k n. others-with_kwargs b _ k n;
  })

  under-TurnsOff :
      (t : ℕ) (b b' : Dict Json) (o : Option Json)
      → budget b ≡ o
      → under_threshold t b o ≡ some b'
      → TurnsOff t b b'
  unfolding under_threshold
  under-TurnsOff t b b' (some (num z s)) e h = elim (Bool-cases (below s t)) [
    | inl f ↦
        chosen-TurnsOff t z s b b' (get (kwargs_entries b) "enable_thinking") refl e f
          (ground arith)
    | inr f ↦ absurd (ground arith)
  ]
  under-TurnsOff t b b' none e h = absurd (ground arith)
  under-TurnsOff t b b' (some null) e h = absurd (ground arith)
  under-TurnsOff t b b' (some (bool x)) e h = absurd (ground arith)
  under-TurnsOff t b b' (some (str x)) e h = absurd (ground arith)
  under-TurnsOff t b b' (some (arr x)) e h = absurd (ground arith)
  under-TurnsOff t b b' (some (obj x)) e h = absurd (ground arith)

  -- Where the policy rewrites a body, the model has a threshold t, the path is that of a chat, and the
  -- body has a numeric budget below t and the client's kwargs no enable_thinking; the new body has it as
  -- false, every other kwarg as before, and every other key of the body, the budget's too, as before.
  pub policy-TurnsOff :
      (t : Option ℕ) (path : String) (b b' : Dict Json)
      → apply_thinking_policy t path b ≡ some b'
      → (n : ℕ) × (t ≡ some n) × (is_chat path ≡ true) × TurnsOff n b b'
  unfolding apply_thinking_policy
  policy-TurnsOff none path b b' h = absurd (ground arith)
  policy-TurnsOff (some zero) path b b' h = absurd (ground arith)
  policy-TurnsOff (some (suc t)) path b b' h = elim (Bool-cases (is_chat path)) [
    | inl y ↦ (suc t, refl, y, under-TurnsOff (suc t) b b' (budget b) refl (rw y at h))
    | inr n ↦ absurd (ground arith)
  ]
