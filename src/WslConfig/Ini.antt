-- ===== src/WslConfig/Ini.antt =====
-- src/main/wsl/wsl-config.ts: the tolerant reader of .wslconfig and /etc/wsl.conf.
pub mod Lines
pub mod Found
use wslpad.Base.{
  ℕ, suc, Bool, ◌&&◌, ◌||◌, Text, List, [], ◌∷◌, Option, none, some, ◌==◌, if◌then◌else◌, is_empty,
  is_space, trim, to_lower, split,
}

pub record IniEntry : Type 0 where
  pub section : Text
  pub key : Text
  pub value : Text
  pub line : ℕ

abbrev pub is_marker : ℕ → Bool
is_marker c = c == b';' || c == b'#'

-- Up to the first white space before a marker.
unfoldable pub strip_from : Text → Text
strip_from [] = []
strip_from (c ∷ []) = c ∷ []
strip_from (c ∷ d ∷ s) =
    let rest = strip_from (d ∷ s) in if is_space c && is_marker d then [] else c ∷ rest

unfoldable pub strip_comment : Text → Text
unfolding strip_from
strip_comment [] = []
strip_comment (c ∷ s) = if is_marker c then [] else strip_from (c ∷ s)

-- `replace(/\r$/, '')`.
unfoldable pub drop_return : Text → Text
drop_return [] = []
drop_return (c ∷ []) = if c == 13 then [] else c ∷ []
drop_return (c ∷ d ∷ s) = c ∷ drop_return (d ∷ s)

-- What `.` does not match.
abbrev is_terminator : ℕ → Bool
is_terminator c = c == 10 || c == 13 || c == 0x2028 || c == 0x2029

-- The text before a closing bracket that ends the line.
unfoldable pub before_bracket : Text → Option Text
before_bracket [] = none
before_bracket (c ∷ []) = if c == b']' then some [] else none
before_bracket (c ∷ d ∷ s) = elim (before_bracket (d ∷ s)) [
  | none ↦ none
  | some inner ↦ if is_terminator c then none else some (c ∷ inner)
]

-- `/^\[(.*)\]$/`.
unfoldable pub header : Text → Option Text
unfolding before_bracket
header [] = none
header (c ∷ s) = if c == b'[' then before_bracket s else none

-- The texts before and after the first `=`.
unfoldable pub cut : Text → Option (Text × Text)
cut [] = none
cut (c ∷ s) = elim (cut s) [
  | none ↦ if c == b'=' then some ([], s) else none
  | some (before, after) ↦ if c == b'=' then some ([], s) else some (c ∷ before, after)
]

-- `key=value`, unless the sign is missing or stands first, or nothing is left of the key.
unfoldable pub assignment : Text → Option (Text × Text)
unfolding cut
assignment line = elim (cut line) [
  | none ↦ none
  | some (before, after) ↦
      if is_empty before || is_empty (trim before) then none else some (trim before, trim after)
]

abbrev pub content : Text → Text
content raw = trim (strip_comment (drop_return raw))

abbrev pub emit : Text → ℕ → Option (Text × Text) → List IniEntry → List IniEntry
emit section n none rest = rest
emit section n (some (key, value)) rest =
    record { section = section; key = key; value = value; line = n } ∷ rest

-- The loop, in section `section` and before line `n`.
unfoldable pub parse_lines : Text → ℕ → List Text → List IniEntry
parse_lines section n [] = []
parse_lines section n (raw ∷ lines) =
    let line = content raw in
    let same_section = parse_lines section (suc n) lines in
    let read : List IniEntry = elim (header line) [
      | some name ↦ parse_lines (to_lower (trim name)) (suc n) lines
      | none ↦ emit section n (assignment line) same_section
    ] in
    if is_empty line then same_section else read

abbrev pub drop_mark : Text → Text
drop_mark [] = []
drop_mark (c ∷ s) = if c == 0xfeff then s else c ∷ s

unfoldable pub parse_ini : Text → List IniEntry
unfolding parse_lines header assignment strip_comment drop_return
parse_ini text = parse_lines [] 1 (split 10 (drop_mark text))
