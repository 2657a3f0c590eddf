-- ===== src/Smart/Classify/Rewrites.antt =====
-- What router/smart.py, `_decide`, takes from a body depends on the keys below alone, so not on the
-- model, which the handlers rewrite.
use local_engine_router.Common.{
  ℕ, ◌≡◌, refl, arith, eq_iff, String, true, false, List, [], ◌∷◌, Dict, get, put, get-put, pop,
  get-pop, elem, ◌==◌,
}
use local_engine_router.Json.{Json}
use local_engine_router.Smart.Gather.{messages_of, has_image_parts, parts_of, gather_text}
use local_engine_router.Smart.Classify.{
  Reading, structure_signs, size_signs, budget_of, scores_of, points_of, budget_tokens,
  classify_request, demand_of,
}

-- The keys that are read.
abbrev pub read_keys : List String
read_keys =
    "tools" ∷ "tool_choice" ∷ "response_format" ∷ "format" ∷ "system" ∷ "prompt" ∷ "input"
    ∷ "messages" ∷ "images" ∷ "max_completion_tokens" ∷ "max_tokens" ∷ "stream" ∷ []

elem-ne :
    (k j : String) (ks : List String) → elem k ks ≡ false → elem j ks ≡ true → (k == j) ≡ false
elem-ne k j [] h g = cc
elem-ne k j (i ∷ ks) h g = ground (arith, eq_iff i k, eq_iff i j, eq_iff k j, elem-ne k j ks)

-- The bodies have the same values at the keys that are read.
abbrev pub Agree : Dict Json → Dict Json → Type 0
Agree b body = (j : String) → elem j read_keys ≡ true → get b j ≡ get body j

module _ (b body : Dict Json) (same_get : Agree b body) where
  same_messages : messages_of b ≡ messages_of body
  unfolding messages_of
  same_messages = rw (same_get "messages" refl, messages_of)

  same_images : has_image_parts b ≡ has_image_parts body
  unfolding has_image_parts
  same_images = simp (same_messages, same_get "images" refl)

  same_gathered : gather_text b ≡ gather_text body
  unfolding gather_text parts_of
  same_gathered =
      simp (same_messages, same_get "system" refl, same_get "prompt" refl, same_get "input" refl)

  same_structure : structure_signs b ≡ structure_signs body
  unfolding structure_signs
  same_structure = simp (
    same_get "tools" refl,
    same_get "tool_choice" refl,
    same_get "response_format" refl,
    same_get "format" refl,
  )

  same_budget : budget_of b ≡ budget_of body
  unfolding budget_of
  same_budget = rw (same_get "max_completion_tokens" refl, same_get "max_tokens" refl, budget_of)

  same_size : (r : Reading) (n : ℕ) → size_signs r b n ≡ size_signs r body n
  unfolding size_signs
  same_size r n = simp (same_get "messages" refl, same_get "stream" refl, same_budget)

  same_scores : (r : Reading) (g : String × ℕ) → scores_of r b g ≡ scores_of r body g
  unfolding scores_of points_of
  same_scores r (text, n) = simp (same_structure, same_size)

  same_tokens : (r : Reading) → budget_tokens r b ≡ budget_tokens r body
  unfolding budget_tokens
  same_tokens r = rw (same_budget, budget_tokens)

  same_job {ℓ} :
      {F : Type ℓ} (share : ℕ → ℕ → F) (r : Reading) (path : String)
      → classify_request share r path b ≡ classify_request share r path body
  unfolding classify_request
  same_job share r path = simp (same_gathered, same_scores)

  -- What a decision takes from a request, its job, whether it has images, and the tokens it needs, is
  -- the same for two bodies that have the same values at the keys that are read, among which there is
  -- none for the model.
  pub demand_of-agree {ℓ} :
      {F : Type ℓ} (share : ℕ → ℕ → F) (r : Reading) (path : String)
      → demand_of share r path b ≡ demand_of share r path body
  unfolding demand_of
  demand_of-agree share r path = simp (same_job, same_gathered, same_images, same_tokens)

module _ (body : Dict Json) (k : String) (unread : elem k read_keys ≡ false) where
  pub put-Agree : (v : Json) → Agree (put body k v) body
  put-Agree v j h = ground (arith, get-put body k j v, elem-ne k j read_keys unread h)

  pub pop-Agree : Agree (pop body k) body
  pop-Agree j h = ground (arith, get-pop body k j, elem-ne k j read_keys unread h)
