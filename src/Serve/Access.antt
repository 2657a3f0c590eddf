-- ===== src/Serve/Access.antt =====
-- router/app.py, the API-key middleware; router/proxy.py, the filters of headers. Header names are ASCII,
-- those of a request in lower case, and the texts of keys are compared as they are.
use Prim.Native.Char.{code}
use mathlib.Core.Option.{some-injective}
use local_engine_router.Common.{
  ◌≡◌, refl, sym, ap, ◌∙◌, arith, eq_iff, String, Option, none, some, Bool, true, false, Bool-cases,
  Option-cases, inl, inr, ◌⊎◌, ◌&&◌, ◌||◌, List, [], ◌∷◌, ◌++◌, if◌then◌else◌, ◌==◌, Dict, get,
  elem, any_of, eqb,
}
use local_engine_router.Json.{is_text, strip}
use local_engine_router.Engines.StartCmd.{lower, lower_codes, same}

-- auth[len(scheme):] where auth.lower().startswith(scheme)
unfoldable pub after_scheme : String → String → Option String
unfolding lower
after_scheme String.[] s = some s
after_scheme (String.◌∷◌ p ps) String.[] = none
after_scheme (String.◌∷◌ p ps) (String.◌∷◌ c s) =
    let rest = after_scheme ps s in if eqb (code p) (lower (code c)) then rest else none

bearer_or : Option String → Option String → Option String
bearer_or (some token) other = some (strip token)
bearer_or none other = other

auth_key : Option String → Option String → Option String
unfolding after_scheme bearer_or
auth_key none other = other
auth_key (some auth) other = bearer_or (after_scheme "bearer " auth) other

-- _extract_api_key
unfoldable pub extract_api_key : Dict String → Option String
unfolding auth_key
extract_api_key headers = auth_key (get headers "authorization") (get headers "x-api-key")

-- if not provided or not _api_key_valid(provided, keys)
key_accepted : List String → Option String → Bool
key_accepted keys none = false
key_accepted keys (some provided) = is_text provided && elem provided keys

abbrev pub is_open : (method path : String) → Bool
is_open method path = method == "OPTIONS" || elem path ("/health" ∷ "/metrics" ∷ [])

-- _auth_middleware, which is installed when keys are configured: whether the request goes on
unfoldable pub auth_middleware : List String → (method path : String) → Dict String → Bool
unfolding key_accepted extract_api_key
auth_middleware [] method path headers = true
auth_middleware (k ∷ keys) method path headers =
    if is_open method path then true else key_accepted (k ∷ keys) (extract_api_key headers)

-- The request carries the key, as a bearer token or in X-API-Key.
abbrev pub IsPresented : Dict String → String → Type 0
IsPresented headers k =
    ((auth : String) × ((token : String) × ((get headers "authorization" ≡ some auth)
          × ((after_scheme "bearer " auth ≡ some token) × (strip token ≡ k)))))
    ⊎ (get headers "x-api-key" ≡ some k)

extract-IsPresented :
    (headers : Dict String) (k : String) → extract_api_key headers ≡ some k → IsPresented headers k
unfolding extract_api_key
extract-IsPresented headers k e = elim (Option-cases (get headers "authorization")) [
  | inl n ↦ inr (rw n at e)
  | inr (auth, given) ↦ elim (Option-cases (after_scheme "bearer " auth)) [
    | inl n ↦ inr (rw n at (rw given at e))
    | inr (token, split) ↦
        inl (auth, (token, (given, (split, some-injective _ _ (rw split at (rw given at e))))))
  ]
]

-- Where API keys are configured, a request that is no OPTIONS request and is not for /health or /metrics
-- goes on only if it carries one of them, as a bearer token or in X-API-Key.
pub auth_middleware-IsPresented :
    (first : String) (keys : List String) (method path : String) (headers : Dict String)
    → is_open method path ≡ false
    → auth_middleware (first ∷ keys) method path headers ≡ true
    → (k : String) × (elem k (first ∷ keys) ≡ true) × IsPresented headers k
unfolding auth_middleware
auth_middleware-IsPresented first keys method path headers shut e =
    elim (Option-cases (extract_api_key headers)) [
      | inl n ↦ absurd (ground arith)
      | inr (k, given) ↦ (k, ground arith, extract-IsPresented headers k given)
    ]

-- for token in value.split(",")
abbrev split_first : List String → String × List String
split_first [] = (String.[], [])
split_first (w ∷ ws) = (w, ws)

unfoldable pub split_commas : String → List String
split_commas String.[] = String.[] ∷ []
split_commas (String.◌∷◌ c s) =
    let ws = split_commas s in
    let (w, rest) = split_first ws in
    if eqb (code c) b',' then String.[] ∷ ws else String.◌∷◌ c w ∷ rest

-- if token.strip()
stripped : List String → List String
stripped [] = []
stripped (w ∷ ws) = let rest = stripped ws in if is_text (strip w) then strip w ∷ rest else rest

-- key.lower() == name.lower()
abbrev pub same_header : String → String → Bool
same_header key n = same (lower_codes key) (lower_codes n)

-- _connection_headers, in the letters that they are written in
unfoldable pub connection_headers : Dict String → List String
unfolding split_commas stripped
connection_headers [] = []
connection_headers ((key, value) ∷ headers) =
    let rest = connection_headers headers in
    if same_header key "connection" then stripped (split_commas value) ++ rest else rest

-- _DROP_REQUEST_HEADERS and _DROP_RESPONSE_HEADERS
abbrev pub request_dropped : List String
request_dropped =
    "host" ∷ "content-length" ∷ "connection" ∷ "transfer-encoding" ∷ "keep-alive"
    ∷ "proxy-authenticate" ∷ "proxy-authorization" ∷ "proxy-connection" ∷ "te" ∷ "trailer"
    ∷ "upgrade" ∷ "accept-encoding" ∷ []

abbrev pub response_dropped : List String
response_dropped =
    "connection" ∷ "keep-alive" ∷ "proxy-authenticate" ∷ "proxy-authorization" ∷ "proxy-connection"
    ∷ "te" ∷ "trailer" ∷ "transfer-encoding" ∷ "upgrade" ∷ "content-length" ∷ "content-encoding"
    ∷ []

-- k.lower() in dropped
abbrev pub is_dropped : List String → String → Bool
is_dropped dropped k = any_of (same_header k) dropped

keep_headers : List String → Dict String → Dict String
keep_headers dropped [] = []
keep_headers dropped ((k, v) ∷ headers) =
    let rest = keep_headers dropped headers in if is_dropped dropped k then rest else (k, v) ∷ rest

unfoldable pub filter_request_headers : Dict String → Dict String
unfolding keep_headers connection_headers
filter_request_headers headers =
    keep_headers (request_dropped ++ connection_headers headers) headers

unfoldable pub filter_response_headers : Dict String → Dict String
unfolding keep_headers connection_headers
filter_response_headers headers =
    keep_headers (response_dropped ++ connection_headers headers) headers

get-keep_headers :
    (dropped : List String) (headers : Dict String) (k : String)
    → get (keep_headers dropped headers) k ≡ (if is_dropped dropped k then none else get headers k)
unfolding keep_headers
get-keep_headers dropped [] k = ground arith
get-keep_headers dropped ((j, v) ∷ headers) k = elim (Bool-cases (is_dropped dropped j)) [
  | inl y ↦ elim (Bool-cases (j == k)) [
    | inl e ↦ rw y (get-keep_headers dropped headers k ∙ hidden dropped j k headers v y e)
    | inr e ↦ rw y (rw e (get-keep_headers dropped headers k))
  ]
  | inr n ↦ elim (Bool-cases (j == k)) [
    | inl e ↦ rw n (rw e (sym (shown dropped j k v n e)))
    | inr e ↦ rw n (rw e (get-keep_headers dropped headers k))
  ]
]
  where
    same_name :
        (dropped : List String) (j k : String)
        → (j == k) ≡ true
        → is_dropped dropped j ≡ is_dropped dropped k
    same_name dropped j k e = ap (is_dropped dropped) ((eq_iff j k).0 e)

    hidden :
        (dropped : List String) (j k : String) (headers : Dict String) (v : String)
        → is_dropped dropped j ≡ true
        → (j == k) ≡ true
        → (if is_dropped dropped k then none else get headers k)
          ≡ (if is_dropped dropped k then none else get ((j, v) ∷ headers) k)
    hidden dropped j k headers v y e = rw (sym (same_name dropped j k e) ∙ y) refl

    shown :
        (dropped : List String) (j k v : String)
        → is_dropped dropped j ≡ false
        → (j == k) ≡ true
        → (if is_dropped dropped k then none else some v) ≡ some v
    shown dropped j k v n e = rw (sym (same_name dropped j k e) ∙ n) refl

any_of-append :
    (p : String → Bool) (xs ys : List String) → any_of p (xs ++ ys) ≡ (any_of p xs || any_of p ys)
any_of-append p [] ys = refl
any_of-append p (x ∷ xs) ys = ground (arith, any_of-append p xs ys)

-- A header is forwarded with its value just when it is neither one that is always dropped nor named by
-- a Connection header of the same message, for requests and for responses.
pub get-filter_headers :
    (headers : Dict String) (k : String)
    → (get (filter_request_headers headers) k ≡ (
        if is_dropped request_dropped k || is_dropped (connection_headers headers) k
        then none
        else get headers k))
      × (get (filter_response_headers headers) k ≡ (
          if is_dropped response_dropped k || is_dropped (connection_headers headers) k
          then none
          else get headers k))
unfolding filter_request_headers filter_response_headers
get-filter_headers headers k = (
  get-keep_headers (request_dropped ++ connection_headers headers) headers k
      ∙ ap (λ b. if b then none else get headers k)
          (any_of-append (same_header k) request_dropped (connection_headers headers)),
  get-keep_headers (response_dropped ++ connection_headers headers) headers k
      ∙ ap (λ b. if b then none else get headers k)
          (any_of-append (same_header k) response_dropped (connection_headers headers)),
)
