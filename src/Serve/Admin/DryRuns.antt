-- ===== src/Serve/Admin/DryRuns.antt =====
-- router/app.py, `admin_smart_resolve`, asks router/smart.py about the request that it is sent.
use local_engine_router.Common.{
  ℕ, ◌≡◌, refl, ap, subst, ◌∙◌, String, some, false, List, Dict, get, pop, elem, Option-cases, inl,
  inr,
}
use local_engine_router.Json.{Json, str}
use local_engine_router.Smart.Classify.{Reading, demand_of}
use local_engine_router.Smart.Classify.Rewrites.{
  read_keys, Agree, demand_of-agree, put-Agree, pop-Agree,
}
use local_engine_router.Serve.Admin.{
  DryRun, set_absent, dry_run_of, text_or, first_alias, admin_smart_resolve, Admin, calls, rejects,
  read_json_object, on_object,
}
use local_engine_router.Serve.Bodies.{Raw}

set_absent-Agree :
    (d : Dict Json) (k : String) (v : Json) → elem k read_keys ≡ false → Agree (set_absent d k v) d
set_absent-Agree d k v h = elim (Option-cases (get d k)) [
  | inl e ↦ rw (e, set_absent) (put-Agree d k h v)
  | inr s ↦ rw (s.1, set_absent) (λ j g. refl)
]

dry_run-Agree :
    (shown : Json → String) (aliases : List String) (body : Dict Json)
    → Agree (dry_run_of shown aliases body).synthetic body
unfolding dry_run_of
dry_run-Agree shown aliases body j h =
    set_absent-Agree (pop body "endpoint") "model"
      (str (text_or shown (get body "model") (first_alias aliases))) refl j h
    ∙ pop-Agree body "endpoint" refl j h

call_or : DryRun → Admin DryRun → DryRun
call_or d (calls c) = c
call_or d (rejects status) = d

-- The dry run keeps what a decision reads of the body, so it classifies the request that it is asked
-- about as the POST handlers would on the same path: the same job, the same images and the same
-- tokens, whatever the endpoint and the model that it adds or takes out.
pub admin_smart_resolve-demand {ℓ} :
    {F : Type ℓ} (share : ℕ → ℕ → F) (r : Reading) (shown : Json → String) (aliases : List String)
    (raw : Raw) (body : Dict Json) (d : DryRun) (path : String)
    → read_json_object raw ≡ some body
    → admin_smart_resolve shown aliases raw ≡ calls d
    → demand_of share r path d.synthetic ≡ demand_of share r path body
unfolding admin_smart_resolve call_or
admin_smart_resolve-demand share r shown aliases raw body d path e h =
    let asked : dry_run_of shown aliases body ≡ d = ap (call_or d) (rw (e, on_object) at h) in
    demand_of-agree d.synthetic body
      (subst (λ (x : DryRun). Agree x.synthetic body) asked (dry_run-Agree shown aliases body))
      share r path
