-- ===== src/Smart/Gather.antt =====
-- router/smart.py, `_iter_text_parts`, `_has_image_parts` and `_gather_text`: what the classifier reads
-- of a request's body. A text is counted by code points. Where `messages` is a number or true, the code
-- raises, which the answer none stands for.
pub mod Bounds
use Prim.Native.String
use Prim.Native.String.{◌++◌, count}
use mathlib.Core.Option.{map as map_option}
use local_engine_router.Common.{
  ℕ, zero, suc, ◌+◌, ◌-◌, ◌/◌, String, Option, none, some, Bool, true, false, List, [], ◌∷◌, Dict,
  get, any_of, elem, ltb, if◌then◌else◌, ◌||◌,
}
use local_engine_router.Json.{Json, null, bool, num, str, arr, obj, items, fields, truthy}

-- s[:n]
unfoldable pub take_text : ℕ → String → String
take_text zero s = String.[]
take_text (suc n) String.[] = String.[]
take_text (suc n) (String.◌∷◌ c s) = String.◌∷◌ c (take_text n s)

-- s[n:]
unfoldable pub drop_text : ℕ → String → String
drop_text zero s = s
drop_text (suc n) String.[] = String.[]
drop_text (suc n) (String.◌∷◌ c s) = drop_text n s

abbrev if_text : Json → List String → List String
if_text (str s) rest = s ∷ rest
if_text v rest = rest

abbrev or_null : Option Json → Json
or_null none = null
or_null (some v) = v

-- The text of one item of a list: a string itself, or the "text" of a dict.
unfoldable pub text_of_part : Json → List String → List String
text_of_part (str s) rest = s ∷ rest
text_of_part (obj fs) rest = if_text (or_null (get (fields fs) "text")) rest
text_of_part v rest = rest

unfoldable pub texts_of_parts : List Json → List String
unfolding text_of_part
texts_of_parts [] = []
texts_of_parts (v ∷ vs) = text_of_part v (texts_of_parts vs)

-- _iter_text_parts
unfoldable pub iter_text_parts : Option Json → List String
unfolding texts_of_parts
iter_text_parts (some (str s)) = s ∷ []
iter_text_parts (some (arr vs)) = texts_of_parts (items vs)
iter_text_parts v = []

-- The dicts of `body.get("messages") or []`; the characters of a text and the keys of a dict are none.
messages_of_items : List Json → List (Dict Json)
messages_of_items [] = []
messages_of_items (obj fs ∷ vs) = fields fs ∷ messages_of_items vs
messages_of_items (v ∷ vs) = messages_of_items vs

unfoldable pub messages_of : Dict Json → Option (List (Dict Json))
unfolding messages_of_items
messages_of body = elim (get body "messages") [
  | none ↦ some []
  | some (arr vs) ↦ some (messages_of_items (items vs))
  | some (bool true) ↦ none
  | some (num false s) ↦ none
  | some v ↦ some []
]

abbrev is_image_type : Option Json → Bool
is_image_type (some (str t)) = elem t ("image_url" ∷ "image" ∷ "input_image" ∷ [])
is_image_type v = false

unfoldable pub is_image_part : Json → Bool
is_image_part (obj fs) = is_image_type (get (fields fs) "type")
is_image_part v = false

abbrev any_part : Option Json → Bool
any_part (some (arr vs)) = any_of is_image_part (items vs)
any_part v = false

-- isinstance(images, list) and images
abbrev is_full_list : Option Json → Bool
is_full_list (some (arr vs)) = truthy (arr vs)
is_full_list v = false

unfoldable pub message_has_image : Dict Json → Bool
unfolding is_image_part
message_has_image m = any_part (get m "content") || is_full_list (get m "images")

abbrev pub is_truthy : Option Json → Bool
is_truthy none = false
is_truthy (some v) = truthy v

-- _has_image_parts
unfoldable pub has_image_parts : Dict Json → Option Bool
unfolding messages_of message_has_image
has_image_parts body =
    map_option (λ ms. any_of message_has_image ms || is_truthy (get body "images"))
      (messages_of body)

-- "\n".join(parts)
unfoldable pub join_lines : List String → String
join_lines [] = String.[]
join_lines (s ∷ []) = s
join_lines (s ∷ t ∷ ts) = s ++ ("\n" ++ join_lines (t ∷ ts))

unfoldable pub total_chars : List String → ℕ
total_chars [] = 0
total_chars (s ∷ ts) = count s + total_chars ts

abbrev append_all : List String → List String → List String
append_all [] ys = ys
append_all (x ∷ xs) ys = x ∷ append_all xs ys

message_texts : List (Dict Json) → List String
unfolding iter_text_parts
message_texts [] = []
message_texts (m ∷ ms) = append_all (iter_text_parts (get m "content")) (message_texts ms)

-- The fragments, in the order in which they are read.
unfoldable pub parts_of : Dict Json → List (Dict Json) → List String
unfolding iter_text_parts message_texts
parts_of body ms = append_all (iter_text_parts (get body "system")) (
    append_all (iter_text_parts (get body "prompt"))
      (append_all (iter_text_parts (get body "input")) (message_texts ms)))

-- _SCAN_CHARS
abbrev pub scan_chars : ℕ
scan_chars = 8000

-- The head and the tail of a text that is too long.
unfoldable pub excerpt : String → String
unfolding take_text drop_text
excerpt s =
    let half : ℕ = scan_chars / 2 in
    if ltb scan_chars (count s)
    then take_text half s ++ ("\n" ++ drop_text (count s - half) s)
    else s

-- max(1, chars // 4)
unfoldable pub token_estimate : ℕ → ℕ
token_estimate chars = if ltb 1 (chars / 4) then chars / 4 else 1

-- _gather_text
unfoldable pub gather_text : Dict Json → Option (String × ℕ)
unfolding messages_of parts_of join_lines total_chars excerpt token_estimate
gather_text body =
    map_option
      (λ ms.
        (excerpt (join_lines (parts_of body ms)), token_estimate (total_chars (parts_of body ms))))
      (messages_of body)
