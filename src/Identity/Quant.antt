-- ===== src/Identity/Quant.antt =====
-- Which tokens the canonical id of router/model_identity.py, `identify`, depends on; and
-- `quant_quality_penalty`, in hundredths.
use local_engine_router.Common.{
  ℕ, ◌≡◌, refl, ap, arith, String, Option, none, some, Bool, true, false, List, [], ◌∷◌, ◌++◌, elem,
  any_of, Option-cases, inl, inr, if◌then◌else◌, ◌||◌,
}
use local_engine_router.Json.{is_text, after_prefix}
use local_engine_router.Identity.Tokens.{tokenize, is_version}
use local_engine_router.Identity.{
  Patterns, first_token, parse_size, variant_of, family_slug, base_slug, with_family, parsed,
  norm_of, detect_family, identify, vision_tokens, code_tokens, instruct_tokens, base_tokens,
  abliterated_tokens, fine_tune_tokens,
}

-- q.startswith(prefixes)
abbrev starts_with_any : List String → String → Bool
starts_with_any [] s = false
starts_with_any (p ∷ ps) s = elim (after_prefix p s) [ some r ↦ true | none ↦ starts_with_any ps s ]

penalty_of : String → ℕ
penalty_of q =
    if starts_with_any ("iq1" ∷ "iq2" ∷ "q2" ∷ []) q
    then 12
    else if starts_with_any ("iq3" ∷ "q3" ∷ "3bit" ∷ []) q
    then 8
    else if starts_with_any ("q4" ∷ "iq4" ∷ "int4" ∷ "4bit" ∷ "nf4" ∷ "w4" ∷ []) q
        || elem q ("awq" ∷ "gptq" ∷ "exl2" ∷ "exl3" ∷ "fp4" ∷ "mxfp4" ∷ [])
    then 4
    else if starts_with_any ("q5" ∷ "5bit" ∷ []) q
    then 2
    else if starts_with_any ("q6" ∷ "q8" ∷ "int8" ∷ "8bit" ∷ "fp8" ∷ "w8" ∷ "6bit" ∷ []) q
    then 1
    else 0

-- quant_quality_penalty
unfoldable pub quant_quality_penalty : (String → String) → Option String → ℕ
unfolding penalty_of
quant_quality_penalty lower none = 0
quant_quality_penalty lower (some q) = if is_text q then penalty_of (lower q) else 0

first_token-append :
    (test : String → Bool) (t : String) (ts us : List String)
    → test t ≡ false
    → first_token test (ts ++ t ∷ us) ≡ first_token test (ts ++ us)
unfolding first_token
first_token-append test t [] us h = rw h
first_token-append test t (s ∷ ts) us h = ground (arith, first_token-append test t ts us h)

any_of-append :
    (test : String → Bool) (t : String) (ts us : List String)
    → test t ≡ false
    → any_of test (ts ++ t ∷ us) ≡ any_of test (ts ++ us)
any_of-append test t [] us h = rw h
any_of-append test t (s ∷ ts) us h = ground (arith, any_of-append test t ts us h)

module _ {ℓ} {F : Type ℓ} (ps : Patterns F) where
  -- The token is no size, no version, and in none of the tables that the variant, the fine-tune and the
  -- abliterated mark are read from.
  pub record IsUnread (t : String) : Type ℓ where
    pub no_size : ps.size_of t ≡ none
    pub no_version : is_version t ≡ false
    pub no_vision : elem t vision_tokens ≡ false
    pub no_code : elem t code_tokens ≡ false
    pub no_instruct : elem t instruct_tokens ≡ false
    pub no_base : elem t base_tokens ≡ false
    pub no_mark : elem t abliterated_tokens ≡ false
    pub no_fine_tune : elem t fine_tune_tokens ≡ false

  parse_size-append :
      (t : String) (ts us : List String)
      → ps.size_of t ≡ none
      → parse_size ps (ts ++ t ∷ us) ≡ parse_size ps (ts ++ us)
  unfolding parse_size
  parse_size-append t [] us h = rw h
  parse_size-append t (s ∷ ts) us h = elim (Option-cases (ps.size_of s)) [
    | inl e ↦ rw e (parse_size-append t ts us h)
    | inr x ↦ rw x.1 refl
  ]

  module _ (t : String) (ts us : List String) (u : IsUnread t) (norm norm' : String)
      (same_sight : ps.looks_vision norm ≡ ps.looks_vision norm') where
    variant-append :
        (fine_tune : Option String)
        → variant_of ps (ts ++ t ∷ us) norm fine_tune ≡ variant_of ps (ts ++ us) norm' fine_tune
    unfolding variant_of
    variant-append fine_tune = rw (
      any_of-append (λ x. elem x vision_tokens) t ts us u.no_vision,
      any_of-append (λ x. elem x code_tokens) t ts us u.no_code,
      any_of-append (λ x. elem x instruct_tokens) t ts us u.no_instruct,
      any_of-append (λ x. elem x base_tokens) t ts us u.no_base,
      same_sight,
    )

    family_slug-append :
        (family : String)
        → family_slug ps family (ts ++ t ∷ us) norm ≡ family_slug ps family (ts ++ us) norm'
    unfolding family_slug
    family_slug-append family = rw (
      first_token-append (λ x. elem x fine_tune_tokens) t ts us u.no_fine_tune,
      first_token-append is_version t ts us u.no_version,
      any_of-append (λ x. elem x abliterated_tokens) t ts us u.no_mark,
      parse_size-append t ts us u.no_size,
      variant-append (first_token (λ x. elem x fine_tune_tokens) (ts ++ us)),
    )

    base_slug-append :
        (family : String)
        → base_slug ps family (ts ++ t ∷ us) norm ≡ base_slug ps family (ts ++ us) norm'
    unfolding base_slug
    base_slug-append family = rw (
      first_token-append (λ x. elem x fine_tune_tokens) t ts us u.no_fine_tune,
      parse_size-append t ts us u.no_size,
      variant-append (first_token (λ x. elem x fine_tune_tokens) (ts ++ us)),
    )

  canonical_lem :
      (id family : String)
      → detect_family ps.families (norm_of ps id) ≡ some family
      → ((identify ps id).canonical
          ≡ family_slug ps family (tokenize (norm_of ps id)) (norm_of ps id))
        × ((identify ps id).base_canonical
            ≡ some (base_slug ps family (tokenize (norm_of ps id)) (norm_of ps id)))
  unfolding identify
  canonical_lem id family h = (
    ap (λ o. (with_family ps o (parsed ps id) (norm_of ps id)).canonical) h,
    ap (λ o. (with_family ps o (parsed ps id) (norm_of ps id)).base_canonical) h,
  )

  -- Two ids of one known family, whose names agree on the vision pattern, and of which one has a token
  -- more that is in none of the tables and no size and no version, such as a quantisation, have the
  -- same canonical id, the key of the benchmarks, and the same canonical id of their base model.
  pub identify-unread :
      (a b family t : String) (ts us : List String)
      → detect_family ps.families (norm_of ps a) ≡ some family
      → detect_family ps.families (norm_of ps b) ≡ some family
      → ps.looks_vision (norm_of ps a) ≡ ps.looks_vision (norm_of ps b)
      → tokenize (norm_of ps a) ≡ ts ++ t ∷ us
      → tokenize (norm_of ps b) ≡ ts ++ us
      → IsUnread t
      → ((identify ps a).canonical ≡ (identify ps b).canonical)
        × ((identify ps a).base_canonical ≡ (identify ps b).base_canonical)
  identify-unread a b family t ts us fa fb v ta tb u =
      rw
        (
          (canonical_lem a family fa).0,
          (canonical_lem b family fb).0,
          (canonical_lem a family fa).1,
          (canonical_lem b family fb).1,
          ta,
          tb,
          family_slug-append t ts us u (norm_of ps a) (norm_of ps b) v family,
          base_slug-append t ts us u (norm_of ps a) (norm_of ps b) v family,
        )
        (refl, refl)
