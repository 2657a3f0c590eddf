-- ===== src/Engines/StartCmd/RoundTrip.antt =====
-- A launch command written from its settings is read back.
use local_engine_router.Common.{
  ◌≡◌, refl, ap, ◌∙◌, true, false, ◌||◌, ◌==◌, List, [], ◌∷◌, ◌++◌, String, Option, All, arith,
}
use local_engine_router.Engines.StartCmd.{
  Mode, scan, names, value, read_word, read_words, partition, is_dashed, add_model_id, add_value,
  is_model_flag, served_ids_from_start_cmd, words,
}

-- The flags of one path
pub data ModelFlag : Type 0 where
  short long path : ModelFlag

abbrev pub text : ModelFlag → String
text short = "-m"
text long = "--model"
text path = "--model-path"

-- One part of a command: names after their flag or joined to it, a path likewise, or another flag with
-- its values.
pub data Setting : Type 0 where
  served : List String → Setting
  served_joined : String → Setting
  model model_joined : ModelFlag → String → Setting
  other : String → List String → Setting

abbrev joined : String → String → String
joined String.[] v = v
joined (String.◌∷◌ c s) v = String.◌∷◌ c (joined s v)

abbrev flag_joined : ModelFlag → String → String
flag_joined short val = joined "-m=" val
flag_joined long val = joined "--model=" val
flag_joined path val = joined "--model-path=" val

abbrev pub written : Setting → List String
written (served ns) = "--served-model-name" ∷ ns
written (served_joined n) = joined "--served-model-name=" n ∷ []
written (model f val) = text f ∷ val ∷ []
written (model_joined f val) = flag_joined f val ∷ []
written (other flag ws) = flag ∷ ws

abbrev pub command : List Setting → List String
command [] = []
command (s ∷ ss) = written s ++ command ss

-- Values that stand alone have no dash in front; other words name none of the flags.
abbrev pub IsValue : String → Type 0
IsValue v = is_dashed v ≡ false

abbrev pub IsOther : String → Type 0
IsOther w = ((partition w).0 == "--served-model-name" || is_model_flag (partition w).0) ≡ false

abbrev pub IsSetting : Setting → Type 0
IsSetting (served ns) = All IsValue ns
IsSetting (served_joined n) = Unit
IsSetting (model f val) = IsValue val
IsSetting (model_joined f val) = Unit
IsSetting (other flag ws) = (is_dashed flag ≡ true) × All IsOther (flag ∷ ws)

abbrev pub add_all : List String → List String → List String
add_all ids [] = ids
add_all ids (n ∷ ns) = add_all (add_model_id ids n) ns

abbrev pub ids_of : List String → Setting → List String
ids_of ids (served ns) = add_all ids ns
ids_of ids (served_joined n) = add_model_id ids n
ids_of ids (model f val) = add_value (text f) ids val
ids_of ids (model_joined f val) = add_value (text f) ids val
ids_of ids (other flag ws) = ids

abbrev pub all_ids : List String → List Setting → List String
all_ids ids [] = ids
all_ids ids (s ∷ ss) = all_ids (ids_of ids s) ss

-- A word with a dash is read the same in every mode.
read_word-dashed :
    (ids : List String) (m : Mode) (tok : String)
    → is_dashed tok ≡ true
    → read_word ids m tok ≡ read_word ids scan tok
unfolding read_word
read_word-dashed ids scan tok e = refl
read_word-dashed ids names tok e = rw e refl
read_word-dashed ids (value flag) tok e = rw e refl

read_words-dashed :
    (ids : List String) (m : Mode) (tok : String) (ws : List String)
    → is_dashed tok ≡ true
    → read_words (ids, m) (tok ∷ ws) ≡ read_words (read_word ids scan tok) ws
unfolding read_words
read_words-dashed ids m tok ws e = ap (λ r. read_words r ws) (read_word-dashed ids m tok e)

read_words-names :
    (ids ns ws : List String)
    → All IsValue ns
    → read_words (ids, names) (ns ++ ws) ≡ read_words (add_all ids ns, names) ws
unfolding read_words read_word
read_words-names ids [] ws h = refl
read_words-names ids (n ∷ ns) ws (plain, h) =
    rw plain (read_words-names (add_model_id ids n) ns ws h)

read_word-other : (ids : List String) (w : String) → IsOther w → read_word ids scan w ≡ (ids, scan)
unfolding read_word
read_word-other ids w h = ground arith

read_words-other :
    (ids ws rest : List String)
    → All IsOther ws
    → read_words (ids, scan) (ws ++ rest) ≡ read_words (ids, scan) rest
unfolding read_words
read_words-other ids [] rest h = refl
read_words-other ids (w ∷ ws) rest (plain, h) =
    rw (read_word-other ids w plain) (read_words-other ids ws rest h)

read_value :
    (ids : List String) (flag val : String) (rest : List String)
    → IsValue val
    → read_words (ids, value flag) (val ∷ rest) ≡ read_words (add_value flag ids val, scan) rest
unfolding read_words read_word
read_value ids flag val rest h = rw h refl

model_flag-dashed : (f : ModelFlag) → is_dashed (text f) ≡ true
model_flag-dashed short = refl
model_flag-dashed long = refl
model_flag-dashed path = refl

read_model_flag :
    (ids : List String) (f : ModelFlag) → read_word ids scan (text f) ≡ (ids, value (text f))
unfolding read_word
read_model_flag ids short = refl
read_model_flag ids long = refl
read_model_flag ids path = refl

joined_flag-dashed : (f : ModelFlag) (val : String) → is_dashed (flag_joined f val) ≡ true
joined_flag-dashed short val = refl
joined_flag-dashed long val = refl
joined_flag-dashed path val = refl

read_joined_flag :
    (ids : List String) (f : ModelFlag) (val : String)
    → read_word ids scan (flag_joined f val) ≡ (add_value (text f) ids val, scan)
unfolding read_word
read_joined_flag ids short val = refl
read_joined_flag ids long val = refl
read_joined_flag ids path val = refl

read_setting :
    (ids : List String) (m : Mode) (s : Setting) (rest : List String)
    → IsSetting s
    → (n : Mode) × (read_words (ids, m) (written s ++ rest) ≡ read_words (ids_of ids s, n) rest)
unfolding read_words read_word
read_setting ids m (served ns) rest h = (
  names,
  read_words-dashed ids m "--served-model-name" (ns ++ rest) refl ∙ read_words-names ids ns rest h,
)
read_setting ids m (served_joined n) rest h =
    (scan, read_words-dashed ids m (joined "--served-model-name=" n) rest refl)
read_setting ids m (model f val) rest h = (
  scan,
  read_words-dashed ids m (text f) (val ∷ rest) (model_flag-dashed f)
      ∙ ap (λ r. read_words r (val ∷ rest)) (read_model_flag ids f)
      ∙ read_value ids (text f) val rest h,
)
read_setting ids m (model_joined f val) rest h = (
  scan,
  read_words-dashed ids m (flag_joined f val) rest (joined_flag-dashed f val)
      ∙ ap (λ r. read_words r rest) (read_joined_flag ids f val),
)
read_setting ids m (other flag ws) rest (dashed, (plain, h)) = (
  scan,
  read_words-dashed ids m flag (ws ++ rest) dashed
      ∙ ap (λ r. read_words r (ws ++ rest)) (read_word-other ids flag plain)
      ∙ read_words-other ids ws rest h,
)

read_command :
    (ids : List String) (m : Mode) (ss : List Setting)
    → All IsSetting ss
    → read_words (ids, m) (command ss) ≡ all_ids ids ss
unfolding read_words
read_command ids m [] h = refl
read_command ids m (s ∷ ss) (first, h) =
    let (n, e) = read_setting ids m s (command ss) first in e ∙ read_command (ids_of ids s) n ss h

read_program :
    (program : List String) (ss : List Setting)
    → All IsOther program
    → All IsSetting ss
    → read_words ([], scan) (program ++ command ss) ≡ all_ids [] ss
unfolding read_words
read_program program ss plain h =
    read_words-other [] program (command ss) plain ∙ read_command [] scan ss h

-- A launch command of a program and its settings, written in any of the forms that the engines take, is
-- read back: the ids are those of its served names and its model paths, in their order, with a base
-- name for each .gguf file and without the module that -m runs. The names and paths that stand alone
-- must not begin with a dash, other flags do, and no other word names one of the flags.
pub served_ids_from_start_cmd-command :
    (shlex_split : String → Option (List String)) (str_split : String → List String)
    (program : List String) (ss : List Setting)
    → All IsOther program
    → All IsSetting ss
    → served_ids_from_start_cmd shlex_split str_split (words (program ++ command ss))
      ≡ all_ids [] ss
unfolding served_ids_from_start_cmd
served_ids_from_start_cmd-command shlex_split str_split program ss plain h =
    read_program program ss plain h
