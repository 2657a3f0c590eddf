-- ===== src/Smart/Request/Suits.antt =====
-- A pick of router/smart.py, `maybe_pick`, suits the request: from its body and path to the model.
use mathlib.Core.Option.{some-injective}
use local_engine_router.Common.{
  ℕ, ◌≤◌, ◌≡◌, refl, ap, ◌∙◌, subst, arith, String, Option, none, some, Bool, true, false, List, [],
  ◌∷◌, Dict, ◌||◌, ◌⊎◌, Bool-cases, is_after, insert_by, sort_by, inl, inr,
}
use local_engine_router.Json.{Json}
use local_engine_router.Smart.Candidates.{Sources, Eligibility, enumerate_candidates, is_eligible}
use local_engine_router.Smart.Checks.{Shape, JobFlags, shape_allows}
use local_engine_router.Smart.Classify.{
  Reading, Demand, has_key, demand_of, all_parts, is_embedding_path, classify_request,
}
use local_engine_router.Smart.Classify.Shares.{classify_request-embedding}
use local_engine_router.Smart.Floats.{Floats}
use local_engine_router.Smart.Pick.{Scored, Facts, Decision, Exclusion, shape, context, cooldown}
use local_engine_router.Smart.Pick.Fits.{Listed, Passed, LetIn, decide-LetIn}
use local_engine_router.Smart.Request.{
  Surroundings, sorted_items, shape_reason_of, smart_enabled_of, shape_of, job_flags, facts_of,
  engine_of, decide_request, Known, is_known_exact, PickConfig, eligibility_of, maybe_pick,
}
use local_engine_router.Smart.Score.{Spec, context_fit}

Listed-tail :
    (m k : String) (c : String × String) (cs ds : List (String × String))
    → (Listed m k cs → Listed m k ds)
    → Listed m k (c ∷ cs)
    → Listed m k (c ∷ ds)
Listed-tail m k c cs ds f (inl e) = inl e
Listed-tail m k c cs ds f (inr g) = inr (f g)

Listed-swap :
    (m k : String) (c d : String × String) (ds : List (String × String))
    → Listed m k (c ∷ d ∷ ds)
    → Listed m k (d ∷ c ∷ ds)
Listed-swap m k c d ds (inl e) = inr (inl e)
Listed-swap m k c d ds (inr (inl e)) = inl e
Listed-swap m k c d ds (inr (inr g)) = inr (inr g)

Listed-insert_by :
    (m k : String) (c : String × String) (cs : List (String × String))
    → Listed m k (insert_by (λ e. e.0) c cs)
    → Listed m k (c ∷ cs)
unfolding insert_by
Listed-insert_by m k c [] h = h
Listed-insert_by m k c (d ∷ ds) h = elim (Bool-cases (is_after c.0 d.0)) [
  | inl y ↦
      Listed-swap m k d c ds (Listed-tail m k d _ (c ∷ ds) (Listed-insert_by m k c ds) (rw y at h))
  | inr n ↦ rw n at h
]

Listed-sorted_items :
    (m k : String) (cs : List (String × String)) → Listed m k (sorted_items cs) → Listed m k cs
unfolding sorted_items sort_by
Listed-sorted_items m k [] h = h
Listed-sorted_items m k (c ∷ cs) h =
    Listed-tail m k c (sorted_items cs) cs (Listed-sorted_items m k cs)
      (Listed-insert_by m k c (sorted_items cs) h)

-- The shape check passed: the model is for embeddings exactly when the job is, and where a job that is
-- not has images, the model can see.
shape-allowed :
    (s : Shape) (j : JobFlags)
    → shape_reason_of (shape_allows s j) ≡ none
    → ((s.has_embedding || s.looks_embedding) ≡ j.embedding)
      × (j.embedding ≡ false → j.images ≡ true → (s.has_vision || s.looks_vision) ≡ true)
unfolding shape_reason_of shape_allows
shape-allowed s j h = ground arith

eligible-override :
    (e : Eligibility)
    → is_eligible e ≡ true
    → (e.smart_mode ≡ true) × (e.known_exact ≡ true → e.override_exact ≡ true)
unfolding is_eligible
eligible-override e h = ground arith

all_parts-job {ℓ} :
    {F : Type ℓ} (job : Option (Dict F)) (images : Option Bool) (gathered : Option (String × ℕ))
    (budget : Option ℕ) (d : Demand F)
    → all_parts job images gathered budget ≡ some d
    → job ≡ some d.job
unfolding all_parts
all_parts-job (some job) (some images) (some (text, tokens)) (some budget) d h =
    ap (λ e. some e.job) (some-injective _ _ h)
all_parts-job none images gathered budget d h = absurd (ground arith)
all_parts-job (some job) none gathered budget d h = absurd (ground arith)
all_parts-job (some job) (some images) none budget d h = absurd (ground arith)
all_parts-job (some job) (some images) (some (text, tokens)) none d h = absurd (ground arith)

module _ (fl : Floats) where
  open fl use {F}

  -- The model can take the request: it is for embeddings exactly when the path is, it can see where a
  -- request for no embeddings has images, and a configured window holds the tokens that are needed.
  pub record Takes (w : Surroundings fl) (path : String) (d : Demand F) (m : String) : Type 0 where
    pub enabled : smart_enabled_of fl (w.profile m).spec ≡ true
    pub embedding :
        ((shape_of fl (w.profile m)).has_embedding || (w.profile m).is_embedding)
        ≡ is_embedding_path path
    pub vision :
        is_embedding_path path ≡ false
        → d.has_images ≡ true
        → ((shape_of fl (w.profile m)).has_vision || (w.profile m).is_vision) ≡ true
    pub window : (s : Spec fl) → (w.profile m).spec ≡ some s → d.needed_tokens ≤ s.context_length

  no_reasons :
      (f : Facts fl) (o : Option Exclusion)
      → (o ≡ none) ⊎ (o ≡ some cooldown)
      → Passed fl f o
      → (f.shape_reason ≡ none) × (f.context_reason ≡ none)
  no_reasons f none e h = (h.0, h.1)
  no_reasons f (some cooldown) e h = (h.0, h.1)
  no_reasons f (some (shape reason)) (inl e) h = absurd (ground arith)
  no_reasons f (some (shape reason)) (inr e) h = absurd (ground arith)
  no_reasons f (some (context reason)) (inl e) h = absurd (ground arith)
  no_reasons f (some (context reason)) (inr e) h = absurd (ground arith)

  cooled :
      {o : Option Exclusion} {P : Type 0}
      → (o ≡ none) ⊎ ((o ≡ some cooldown) × P)
      → (o ≡ none) ⊎ (o ≡ some cooldown)
  cooled (inl e) = inl e
  cooled (inr e) = inr e.0

  fits-window : (s : Spec fl) (n : ℕ) → (context_fit fl (some s) n).1 ≡ none → n ≤ s.context_length
  unfolding context_fit
  fits-window s n h = ground arith

  facts-Takes :
      (w : Surroundings fl) (path : String) (d : Demand F) (m k : String)
      → has_key d.job "embedding" ≡ is_embedding_path path
      → (facts_of fl w d m k).smart_enabled ≡ true
      → (facts_of fl w d m k).shape_reason ≡ none
      → (facts_of fl w d m k).context_reason ≡ none
      → Takes w path d m
  unfolding facts_of shape_of job_flags
  facts-Takes w path d m k e on hs hc =
      let (same, sees) = shape-allowed (shape_of fl (w.profile m)) (job_flags fl d) hs in
      record {
        enabled = on;
        embedding = same ∙ e;
        vision = λ n images. sees (e ∙ n) images;
        window = λ s p.
            fits-window s d.needed_tokens
              (subst (λ o. (context_fit fl o d.needed_tokens).1 ≡ none) p hc);
      }

  -- A pick from a request: which demand it was made for, and that the model is a candidate on the
  -- engine it is picked with and can take the request.
  pub record Suits (w : Surroundings fl) (path : String) (demand : Option (Demand F))
      (candidates : Dict String) (p : Scored fl) : Type 0 where
    pub made_for : Demand F
    pub is_made_for : demand ≡ some made_for
    pub is_candidate : Listed p.model p.engine candidates
    pub takes : Takes w path made_for p.model

  decide_request-Suits :
      (w : Surroundings fl) (path : String) (o : Option (Demand F)) (candidates : Dict String)
      (dec : Decision fl)
      → ((d : Demand F) → o ≡ some d → has_key d.job "embedding" ≡ is_embedding_path path)
      → decide_request fl w o candidates ≡ some dec
      → Suits w path o candidates dec.pick
  unfolding decide_request
  decide_request-Suits w path none candidates dec f h = absurd (ground arith)
  decide_request-Suits w path (some d) candidates dec f h =
      let facts : String → Facts fl = λ m. facts_of fl w d m (engine_of fl candidates m) in
      let let_in : LetIn fl w.manager.active_engine facts (sorted_items candidates) dec.pick =
        decide-LetIn fl w.manager.active_engine facts (sorted_items candidates) w.settings w.engines
          dec h in
      let (no_shape, no_context) =
        no_reasons (facts dec.pick.model) dec.pick.excluded (cooled let_in.1) let_in.0.3 in
      record {
        made_for = d;
        is_made_for = refl;
        is_candidate = Listed-sorted_items _ _ candidates let_in.0.0;
        takes =
            facts-Takes w path d dec.pick.model (engine_of fl candidates dec.pick.model) (f d refl)
              let_in.0.1 no_shape no_context;
      }

  eligible :
      (c : PickConfig) (n : Known) (model : String)
      → is_eligible (eligibility_of c n model) ≡ true
      → (c.smart_mode ≡ true) × (is_known_exact n model ≡ true → c.override_exact_model_ids ≡ true)
  unfolding eligibility_of
  eligible c n model = eligible-override (eligibility_of c n model)

  job_of :
      (share : ℕ → ℕ → F) (r : Reading) (path : String) (body : Dict Json) (d : Demand F)
      → demand_of share r path body ≡ some d
      → classify_request share r path body ≡ some d.job
  unfolding demand_of
  job_of share r path body d = all_parts-job _ _ _ _ d

  -- Whatever `maybe_pick` picks is a candidate on the engine it is picked with, and can take the
  -- request: smart routing may use the model, it is for embeddings exactly when the path is, it can see
  -- where a request for no embeddings has images, and its configured window holds the tokens that the
  -- request needs. Smart mode is on, and an id that is known exactly is overridden by the configuration.
  pub maybe_pick-Suits :
      (share : ℕ → ℕ → F) (r : Reading) (c : PickConfig) (n : Known) (w : Surroundings fl)
      (sources : Sources) (model path : String) (body : Dict Json) (dec : Decision fl)
      → maybe_pick fl share r c n w sources model path body ≡ some dec
      → Suits w path (demand_of share r path body) (enumerate_candidates sources) dec.pick
        × (c.smart_mode ≡ true)
        × (is_known_exact n model ≡ true → c.override_exact_model_ids ≡ true)
  unfolding maybe_pick
  maybe_pick-Suits share r c n w sources model path body dec h =
      elim (Bool-cases (is_eligible (eligibility_of c n model))) [
        | inl y ↦
            let (mode, exact) = eligible c n model y in
            (
              decide_request-Suits w path (demand_of share r path body)
                  (enumerate_candidates sources) dec
                  (λ d e.
                    classify_request-embedding share r path body d.job
                      (job_of share r path body d e))
                  (rw y at h),
              mode,
              exact,
            )
        | inr x ↦ absurd (ground arith)
      ]
