-- ===== src/Smart/Gather/Bounds.antt =====
-- The excerpt of router/smart.py, `_gather_text`, is bounded, and its token estimate is not.
use Prim.Native.String.{◌++◌, count}
use mathlib.Core.Option.{some-injective}
use text.Mathlib.TextLemmas.{length-append, length-cons, length-nil}
use local_engine_router.Common.{
  ℕ, zero, suc, ◌+◌, ◌-◌, ◌*◌, ◌≤◌, ◌<◌, ◌≡◌, refl, arith, String, some, List, Dict, Bool-cases,
  inl, inr, ltb, subst,
}
use local_engine_router.Json.{Json}
use local_engine_router.Smart.Gather.{
  take_text, drop_text, join_lines, total_chars, excerpt, token_estimate, gather_text, messages_of,
  parts_of, scan_chars,
}

count-take_text : (n : ℕ) (s : String) → count (take_text n s) ≤ n
unfolding take_text
count-take_text zero s = omega arith
count-take_text (suc n) String.[] = omega (arith, length-nil)
count-take_text (suc n) (String.◌∷◌ c s) =
    omega (arith, count-take_text n s, length-cons c (take_text n s))

count-drop_text : (n : ℕ) (s : String) → count (drop_text n s) ≡ count s - n
unfolding drop_text
count-drop_text zero s = omega arith
count-drop_text (suc n) String.[] = omega (arith, length-nil)
count-drop_text (suc n) (String.◌∷◌ c s) = omega (arith, count-drop_text n s, length-cons c s)

-- `excerpt` keeps a short text, and cuts a long one to its two ends and the line break between them.
excerpt_bounds :
    (s : String) → (count (excerpt s) ≤ scan_chars + 1) × (count s ≤ scan_chars → excerpt s ≡ s)
unfolding excerpt
excerpt_bounds s = elim (Bool-cases (ltb scan_chars (count s))) [
  | inl long ↦ rw long (
    omega (
      arith,
      length-append (take_text 4000 s) ("\n" ++ drop_text (count s - 4000) s),
      length-append "\n" (drop_text (count s - 4000) s),
      count-take_text 4000 s,
      count-drop_text (count s - 4000) s,
    ),
    λ short. absurd (ground arith),
  )
  | inr short ↦ rw short (ground arith, λ h. refl)
]

-- What the answer says of the text and of its number of characters.
abbrev Bounded : String → ℕ → String × ℕ → Type 0
Bounded joined chars (scan, tokens) =
    (count scan ≤ 8001)
    × (count joined ≤ 8000 → scan ≡ joined)
    × (1 ≤ tokens)
    × (chars < 4 * tokens + 4)
    × (4 ≤ chars → 4 * tokens ≤ chars)

answer-Bounded :
    (joined : String) (chars : ℕ) → Bounded joined chars (excerpt joined, token_estimate chars)
unfolding token_estimate
answer-Bounded joined chars =
    let (short, whole) = excerpt_bounds joined in
    (short, whole, ground arith, ground arith, λ h. ground arith)

-- The excerpt that is scanned has at most 8,001 characters, and is the whole text if that has at most
-- 8,000; the token estimate is at least 1, no less than the number of whole groups of four among all
-- characters of the fragments, and no more than that where there is one.
pub gather_text-bounds :
    (body : Dict Json) (ms : List (Dict Json)) (scan : String) (tokens : ℕ)
    → messages_of body ≡ some ms
    → gather_text body ≡ some (scan, tokens)
    → (count scan ≤ 8001)
      × (count (join_lines (parts_of body ms)) ≤ 8000 → scan ≡ join_lines (parts_of body ms))
      × (1 ≤ tokens)
      × (total_chars (parts_of body ms) < 4 * tokens + 4)
      × (4 ≤ total_chars (parts_of body ms) → 4 * tokens ≤ total_chars (parts_of body ms))
unfolding gather_text
gather_text-bounds body ms scan tokens hm hg =
    subst (Bounded (join_lines (parts_of body ms)) (total_chars (parts_of body ms)))
      (some-injective _ _ (rw hm at hg))
      (answer-Bounded (join_lines (parts_of body ms)) (total_chars (parts_of body ms)))
