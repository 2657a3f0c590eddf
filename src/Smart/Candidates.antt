-- ===== src/Smart/Candidates.antt =====
-- router/engines.py, `EngineManager._discovered_index`; router/smart.py, `_enumerate_candidates` and
-- the eligibility tests of `maybe_pick`. An engine whose tags cannot be read has none.
use local_engine_router.Common.{
  ◌≡◌, arith, String, Option, none, some, Bool, true, false, List, [], ◌∷◌, elem, Dict, get, put,
  pop, get-put, get-pop, if◌then◌else◌, ◌==◌, ◌&&◌, ◌||◌, not, eq_iff, Bool-cases, Option-cases,
  inl, inr,
}
use local_engine_router.Routing.{ModelSpec}

-- The claims of one engine of the engine table: its key, whether it takes part, and the ids of its
-- start command, of its past and of its hints.
pub record Claim : Type 0 where
  pub key : String
  pub discover_models : Bool
  pub ids : List String

-- out.setdefault(id, key)
unfoldable pub set_default : Dict String → String → String → Dict String
set_default d id key = elim (get d id) [ none ↦ put d id key | some j ↦ d ]

unfoldable pub claim_ids : Dict String → String → List String → Dict String
unfolding set_default
claim_ids d key [] = d
claim_ids d key (id ∷ ids) = claim_ids (set_default d id key) key ids

unfoldable pub claim_all : Dict String → List Claim → Dict String
unfolding claim_ids
claim_all d [] = d
claim_all d (c ∷ cs) = claim_all (if c.discover_models then claim_ids d c.key c.ids else d) cs

-- _discovered_index; the claims are in the order of `cfg.engines`
unfoldable pub discovered_index : (enabled : Bool) → List Claim → Dict String
unfolding claim_all
discovered_index enabled claims = if enabled then claim_all [] claims else []

set_default_all : Dict String → Dict String → Dict String
unfolding set_default
set_default_all d [] = d
set_default_all d ((id, key) ∷ rest) = set_default_all (set_default d id key) rest

-- The catalog's entry: its id, engine, and whether it is an alias.
pub record Listing : Type 0 where
  pub id : String
  pub engine : String
  pub is_alias : Bool

add_listings : Dict String → List Listing → Dict String
add_listings d [] = d
add_listings d (l ∷ ls) = add_listings (if l.is_alias then d else put d l.id l.engine) ls

add_static : List String → Dict String → List ModelSpec → Dict String
add_static engines d [] = d
add_static engines d (s ∷ ss) =
    add_static engines (if elem s.engine engines then put d s.id s.engine else d) ss

unfoldable pub pop_all : Dict String → List String → Dict String
pop_all d [] = d
pop_all d (k ∷ ks) = pop_all (pop d k) ks

-- for alias in self.scfg.aliases: only those that no model has
unfoldable pub pop_unknown : (String → Bool) → Dict String → List String → Dict String
pop_unknown known d [] = d
pop_unknown known d (k ∷ ks) = pop_unknown known (if known k then d else pop d k) ks

-- What `_enumerate_candidates` reads: `tags` are each API engine's tags, `known` says whether an id is
-- in the registry or the catalog.
pub record Sources : Type 0 where
  pub engines : List String
  pub tags : List Claim
  pub discovered : Dict String
  pub listings : List Listing
  pub models : List ModelSpec
  pub aliases : List String
  pub smart_aliases : List String
  pub known : String → Bool

-- _enumerate_candidates
unfoldable pub enumerate_candidates : Sources → Dict String
unfolding claim_all set_default_all add_listings add_static pop_all pop_unknown
enumerate_candidates s =
    pop_unknown s.known
      (pop_all
        (add_static s.engines
          (add_listings (set_default_all (claim_all [] s.tags) s.discovered) s.listings) s.models)
        s.aliases)
      s.smart_aliases

-- The tests of maybe_pick, in its order; true where it goes on to `_decide`.
pub record Eligibility : Type 0 where
  pub smart_mode : Bool
  pub known_exact : Bool
  pub is_smart_alias : Bool
  pub override_exact : Bool
  pub is_cloud : Bool
  pub catch_cloud : Bool
  pub catch_unknown : Bool

past_aliases : Eligibility → Bool
past_aliases e =
    if e.known_exact
    then e.override_exact
    else if e.is_cloud
    then e.catch_cloud
    else e.catch_unknown

unfoldable pub is_eligible : Eligibility → Bool
unfolding past_aliases
is_eligible e =
    if e.smart_mode
    then (if e.is_smart_alias
        then (if e.known_exact then past_aliases e else true)
        else past_aliases e)
    else false

-- The reference: the first engine that takes part and claims the id.
abbrev pub first_claim : List Claim → String → Option String
first_claim [] m = none
first_claim (c ∷ cs) m = if c.discover_models && elem m c.ids then some c.key else first_claim cs m

abbrev or_first : Option String → Option String → Option String
or_first none o = o
or_first (some k) o = some k

get-set_default :
    (d : Dict String) (id key m : String)
    → get (set_default d id key) m ≡ or_first (get d m) (if id == m then some key else none)
unfolding set_default
get-set_default d id key m = elim (Option-cases (get d id)) [
  | inl e ↦ ground (arith, get-put d id m key, eq_iff id m)
  | inr (k, e) ↦ ground (arith, eq_iff id m)
]

get-claim_ids :
    (d : Dict String) (key m : String) (ids : List String)
    → get (claim_ids d key ids) m ≡ or_first (get d m) (if elem m ids then some key else none)
unfolding claim_ids
get-claim_ids d key m [] = ground arith
get-claim_ids d key m (id ∷ ids) =
    ground (arith, get-claim_ids (set_default d id key) key m ids, get-set_default d id key m)

get-claim_all :
    (d : Dict String) (m : String) (cs : List Claim)
    → get (claim_all d cs) m ≡ or_first (get d m) (first_claim cs m)
unfolding claim_all
get-claim_all d m [] = ground arith
get-claim_all d m (c ∷ cs) = elim (Bool-cases c.discover_models) [
  | inl e ↦
      ground (arith, get-claim_all (claim_ids d c.key c.ids) m cs, get-claim_ids d c.key m c.ids)
  | inr e ↦ ground (arith, get-claim_all d m cs)
]

-- With discovery on, the discovered index names for each id the first engine, in the order of the
-- configuration, that takes part and claims the id, and no engine where none does.
pub discovered_index-first :
    (claims : List Claim) (m : String) → get (discovered_index true claims) m ≡ first_claim claims m
unfolding discovered_index
discovered_index-first claims m = get-claim_all [] m claims

get-pop_all-in :
    (ks : List String) (d : Dict String) (m : String)
    → (elem m ks ≡ true → get (pop_all d ks) m ≡ none)
      × (get d m ≡ none → get (pop_all d ks) m ≡ none)
unfolding pop_all
get-pop_all-in [] d m = (λ e. absurd (ground arith), λ e. e)
get-pop_all-in (k ∷ ks) d m =
    let r = get-pop_all-in ks (pop d k) m in
    (λ e. ground (arith, get-pop d k m, r.0, r.1), λ e. ground (arith, get-pop d k m, r.1))

get-pop_unknown :
    (known : String → Bool) (ks : List String) (d : Dict String) (m : String)
    → (elem m ks ≡ true → known m ≡ false → get (pop_unknown known d ks) m ≡ none)
      × (get d m ≡ none → get (pop_unknown known d ks) m ≡ none)
unfolding pop_unknown
get-pop_unknown known [] d m = (λ e n. absurd (ground arith), λ e. e)
get-pop_unknown known (k ∷ ks) d m = elim (Bool-cases (known k)) [
  | inl y ↦
      let r = get-pop_unknown known ks d m in
      rw y (λ e n. ground (arith, r.0, eq_iff k m), λ e. r.1 e)
  | inr y ↦
      let r = get-pop_unknown known ks (pop d k) m in
      rw y (λ e n. ground (arith, get-pop d k m, r.0, r.1), λ e. ground (arith, get-pop d k m, r.1))
]

-- No alias is a candidate: neither a configured alias nor a smart alias that no model has.
pub enumerate_candidates-aliases :
    (s : Sources) (m : String)
    → (elem m s.aliases || (elem m s.smart_aliases && not (s.known m))) ≡ true
    → get (enumerate_candidates s) m ≡ none
unfolding enumerate_candidates
enumerate_candidates-aliases s m e =
    let all : Dict String =
      add_static s.engines
        (add_listings (set_default_all (claim_all [] s.tags) s.discovered) s.listings) s.models in
    let popped = get-pop_all-in s.aliases all m in
    let shadowed = get-pop_unknown s.known s.smart_aliases (pop_all all s.aliases) m in
    ground (arith, popped.0, shadowed.0, shadowed.1)
