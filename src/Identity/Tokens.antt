-- ===== src/Identity/Tokens.antt =====
-- router/model_identity.py, `_strip_org`, `_normalize`, `_tokenize` and the patterns of tokens.
use Prim.Native.Char.{code}
use Prim.Native.String.{◌++◌, count}
use local_engine_router.Common.{
  ℕ, ◌-◌, String, Option, none, some, Bool, true, false, List, [], ◌∷◌, elem, eqb, leb,
  if◌then◌else◌, ◌&&◌, ◌||◌, not,
}
use local_engine_router.Json.{is_text, ends_with}
use local_engine_router.Smart.Gather.{take_text}

abbrev add_piece : String → List String → List String
add_piece w ws = if is_text w then w ∷ ws else ws

-- The piece before the first separator, and the pieces after it that are not empty.
split_first : (ℕ → Bool) → String → String × List String
split_first p String.[] = (String.[], [])
split_first p (String.◌∷◌ c s) =
    let rest = split_first p s in
    if p (code c) then (String.[], add_piece rest.0 rest.1) else (String.◌∷◌ c rest.0, rest.1)

-- [t for t in re.split("[...]+", s) if t]
unfoldable pub pieces : (ℕ → Bool) → String → List String
unfolding split_first
pieces p s = let (w, ws) = split_first p s in add_piece w ws

abbrev last_or : String → List String → String
last_or p [] = p
last_or p (q ∷ qs) = last_or q qs

org_and_name : (String → String) → List String → Option String × String
org_and_name lower [] = (none, "")
org_and_name lower (p ∷ []) = (none, p)
org_and_name lower (p ∷ q ∷ qs) = (some (lower p), last_or q qs)

abbrev has_slash : String → Bool
has_slash String.[] = false
has_slash (String.◌∷◌ c s) = if eqb (code c) b'/' then true else has_slash s

-- _strip_org
unfoldable pub strip_org : (String → String) → String → Option String × String
unfolding pieces org_and_name
strip_org lower s =
    if has_slash s then org_and_name lower (pieces (λ c. eqb c b'/') s) else (none, s)

-- name[:-n]
abbrev drop_last : ℕ → String → String
drop_last n s = take_text (count s - n) s

-- The name without its file extension, and the format that this marks.
unfoldable pub strip_extension : (String → String) → String → String × Option String
unfolding take_text
strip_extension lower name =
    let lowered : String = lower name in
    if ends_with ".gguf" lowered
    then (drop_last 5 name, some "gguf")
    else if ends_with ".safetensors" lowered
    then (drop_last 12 name, some "safetensors")
    else if ends_with ".onnx" lowered
    then (drop_last 5 name, some "onnx")
    else (name, none)

-- s.replace("_", "-")
dashed : String → String
dashed String.[] = String.[]
dashed (String.◌∷◌ c s) = String.◌∷◌ (if eqb (code c) b'_' then "-" else c) (dashed s)

lstrip_dashes : String → String
lstrip_dashes String.[] = String.[]
lstrip_dashes (String.◌∷◌ c s) =
    let rest = lstrip_dashes s in if eqb (code c) b'-' then rest else String.◌∷◌ c s

rstrip_dashes : String → String
rstrip_dashes String.[] = String.[]
rstrip_dashes (String.◌∷◌ c s) =
    let rest = rstrip_dashes s in
    if eqb (code c) b'-' && not (is_text rest) then String.[] else String.◌∷◌ c rest

-- _normalize
unfoldable pub normalize : (String → String) → String → String
unfolding dashed lstrip_dashes rstrip_dashes
normalize lower s = rstrip_dashes (lstrip_dashes (dashed (lower s)))

abbrev is_digit : ℕ → Bool
is_digit c = leb b'0' c && leb c b'9'

abbrev is_alnum : ℕ → Bool
is_alnum c = is_digit c || (leb b'a' c && leb c b'z')

-- What follows "i?q", none where the text does not begin with it.
abbrev after_q : String → Option String
after_q String.[] = none
after_q (String.◌∷◌ c s) = if eqb (code c) b'q' then some s else none

after_iq : String → Option String
after_iq String.[] = none
after_iq (String.◌∷◌ c s) =
    let tail : Option String = after_q s in
    if eqb (code c) b'i' then tail else after_q (String.◌∷◌ c s)

abbrev only_digits : String → Bool
only_digits String.[] = true
only_digits (String.◌∷◌ c s) = is_digit (code c) && only_digits s

-- \d+
abbrev digits : String → Bool
digits s = is_text s && only_digits s

-- re.fullmatch(r"i?q\d+", t)
unfoldable pub is_quant_head : String → Bool
unfolding after_iq
is_quant_head t = elim (after_iq t) [ none ↦ false | some s ↦ digits s ]

abbrev pub quant_fragments : List String
quant_fragments = "0" ∷ "1" ∷ "k" ∷ "l" ∷ "s" ∷ "m" ∷ "xxs" ∷ "xs" ∷ "nl" ∷ []

-- A run of `[sep][item]+`: what may come next.
pub data Place : Type 0 where
  between opened inside : Place

may_end : Place → Bool
may_end opened = false
may_end p = true

-- (?:sep item+)* to the end of the text
unfoldable pub is_run : ℕ → (ℕ → Bool) → Place → String → Bool
unfolding may_end
is_run sep item p String.[] = may_end p
is_run sep item between (String.◌∷◌ c s) = eqb (code c) sep && is_run sep item opened s
is_run sep item opened (String.◌∷◌ c s) = item (code c) && is_run sep item inside s
is_run sep item inside (String.◌∷◌ c s) =
    let again = is_run sep item opened s in
    let further = is_run sep item inside s in
    if eqb (code c) sep then again else item (code c) && further

after_digit : String → Bool
unfolding is_run
after_digit String.[] = false
after_digit (String.◌∷◌ c s) = is_digit (code c) && is_run b'_' is_alnum between s

-- _GGUF_QUANT_RE
unfoldable pub is_gguf_quant : String → Bool
unfolding after_iq after_digit
is_gguf_quant t = elim (after_iq t) [ none ↦ false | some s ↦ after_digit s ]

-- _VERSION_RE
unfoldable pub is_version : String → Bool
unfolding is_run
is_version String.[] = false
is_version (String.◌∷◌ c s) = eqb (code c) b'v' && is_run b'.' is_digit opened s

-- The quant's fragments after its head, joined.
unfoldable pub join_quants : Option String → List String → List String
unfolding is_quant_head
join_quants none [] = []
join_quants (some q) [] = q ∷ []
join_quants none (t ∷ ts) =
    let opened = join_quants (some t) ts in
    let others = join_quants none ts in if is_quant_head t then opened else t ∷ others
join_quants (some q) (t ∷ ts) =
    let joined = join_quants (some (q ++ ("_" ++ t))) ts in
    let opened = join_quants (some t) ts in
    let others = join_quants none ts in
    if elem t quant_fragments then joined else q ∷ (if is_quant_head t then opened else t ∷ others)

-- _tokenize
unfoldable pub tokenize : String → List String
unfolding pieces join_quants
tokenize name = join_quants none (pieces (λ c. eqb c b'-' || eqb c b':') name)
