-- ===== src/Engines/StartCmd.antt =====
-- router/engines.py and router/catalog.py, `served_ids_from_start_cmd`: the model ids that a launch
-- command serves. The catalog has the same text again. A set of ids is a list in the order of adding.
pub mod RoundTrip
mod Examples
use Prim.Native.Char.{Char, code}
use local_engine_router.Common.{
  ℕ, zero, suc, ◌-◌, ◌+◌, Bool, true, false, not, ◌&&◌, ◌||◌, ◌==◌, List, [], ◌∷◌, String, Option,
  none, some, if◌then◌else◌, eqb, leb, elem, ◌++◌,
}

-- val.lower(), of the code points; letters outside ASCII do not matter to the test that uses it
unfoldable pub lower : ℕ → ℕ
lower c = if leb b'A' c && leb c b'Z' then c + 32 else c

unfoldable pub lower_codes : String → List ℕ
unfolding lower
lower_codes String.[] = []
lower_codes (String.◌∷◌ c s) = lower (code c) ∷ lower_codes s

unfoldable pub same : List ℕ → List ℕ → Bool
same [] [] = true
same (x ∷ xs) (y ∷ ys) = eqb x y && same xs ys
same _ _ = false

ends : List ℕ → List ℕ → Bool
unfolding same
ends suffix [] = same suffix []
ends suffix (c ∷ cs) = same suffix (c ∷ cs) || ends suffix cs

-- val.lower().endswith(".gguf")
unfoldable pub is_gguf : String → Bool
unfolding ends lower_codes
is_gguf val = ends (lower_codes ".gguf") (lower_codes val)

-- chr(c) in val
unfoldable pub has_char : ℕ → String → Bool
has_char n String.[] = false
has_char n (String.◌∷◌ c s) = eqb (code c) n || has_char n s

-- _is_python_module; the empty value has no dot
unfoldable pub is_python_module : String → Bool
unfolding is_gguf has_char
is_python_module val = not (has_char b'/' val) && not (is_gguf val) && has_char b'.' val

-- os.path.basename
basename : String → String
unfolding has_char
basename String.[] = String.[]
basename (String.◌∷◌ c s) =
    let after = basename s in if has_char b'/' (String.◌∷◌ c s) then after else String.◌∷◌ c s

count_chars : String → ℕ
count_chars String.[] = 0
count_chars (String.◌∷◌ c s) = suc (count_chars s)

take_chars : ℕ → String → String
take_chars zero s = String.[]
take_chars (suc n) String.[] = String.[]
take_chars (suc n) (String.◌∷◌ c s) = String.◌∷◌ c (take_chars n s)

-- os.path.basename(val)[: -len(".gguf")]
gguf_base : String → String
unfolding take_chars count_chars basename
gguf_base val = take_chars (count_chars (basename val) - 5) (basename val)

-- ids.add(val)
abbrev pub set_add : List String → String → List String
set_add ids val = if elem val ids then ids else ids ++ (val ∷ [])

abbrev pub is_empty : String → Bool
is_empty String.[] = true
is_empty (String.◌∷◌ c s) = false

-- _add_model_id
unfoldable pub add_model_id : List String → String → List String
unfolding is_gguf gguf_base
add_model_id ids val =
    if is_empty val
    then ids
    else if is_gguf val && not (is_empty (gguf_base val))
    then set_add (set_add ids val) (gguf_base val)
    else set_add ids val

-- tok.partition("="): none where there is no "="
unfoldable pub partition : String → String × Option String
partition String.[] = (String.[], none)
partition (String.◌∷◌ c s) =
    let (flag, val) = partition s in
    if eqb (code c) b'=' then (String.[], some s) else (String.◌∷◌ c flag, val)

-- tok.startswith("-")
abbrev pub is_dashed : String → Bool
is_dashed String.[] = false
is_dashed (String.◌∷◌ c s) = eqb (code c) b'-'

-- What the next word is: a flag or a stray word, one more served name if it has no dash, or the value
-- of a flag if it has no dash.
pub data Mode : Type 0 where
  scan names : Mode
  value : String → Mode

-- The value of -m, --model or --model-path
unfoldable pub add_value : String → List String → String → List String
unfolding is_python_module add_model_id
add_value flag ids val =
    if (flag == "-m") && is_python_module val then ids else add_model_id ids val

abbrev pub is_model_flag : String → Bool
is_model_flag flag = (flag == "-m") || (flag == "--model") || (flag == "--model-path")

served_flag : List String → Option String → List String × Mode
unfolding add_model_id
served_flag ids none = (ids, names)
served_flag ids (some val) = (add_model_id ids val, scan)

model_flag : String → List String → Option String → List String × Mode
unfolding add_value
model_flag flag ids none = (ids, value flag)
model_flag flag ids (some val) = (add_value flag ids val, scan)

at_flag : List String → String × Option String → List String × Mode
unfolding served_flag model_flag
at_flag ids (flag, val) =
    if flag == "--served-model-name"
    then served_flag ids val
    else if is_model_flag flag
    then model_flag flag ids val
    else (ids, scan)

-- One word of the loop over argv
unfoldable pub read_word : List String → Mode → String → List String × Mode
unfolding at_flag partition add_model_id add_value
read_word ids scan tok = at_flag ids (partition tok)
read_word ids names tok =
    if is_dashed tok then at_flag ids (partition tok) else (add_model_id ids tok, names)
read_word ids (value flag) tok =
    if is_dashed tok then at_flag ids (partition tok) else (add_value flag ids tok, scan)

unfoldable pub read_words : List String × Mode → List String → List String
unfolding read_word
read_words (ids, m) [] = ids
read_words (ids, m) (tok ∷ argv) = read_words (read_word ids m tok) argv

-- A list argv, or a string for the shell
pub data StartCmd : Type 0 where
  words : List String → StartCmd
  shell : String → StartCmd

or_split : Option (List String) → List String → List String
or_split (some argv) rough = argv
or_split none rough = rough

-- served_ids_from_start_cmd, with shlex.split, none where it raises, and str.split
unfoldable pub served_ids_from_start_cmd :
    (shlex_split : String → Option (List String)) (str_split : String → List String)
    → StartCmd
    → List String
unfolding read_words or_split
served_ids_from_start_cmd shlex_split str_split (words argv) = read_words ([], scan) argv
served_ids_from_start_cmd shlex_split str_split (shell line) =
    read_words ([], scan) (or_split (shlex_split line) (str_split line))
