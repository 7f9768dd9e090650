-- ===== src/Shell.antt =====
-- src/main/wsl/escape.ts: quoting of shell words, and the guards on names and paths.
pub mod Words
pub mod Quote
pub mod Names
use wslpad.Base.{
  ℕ, Bool, ◌&&◌, ◌||◌, not, Text, lit, List, [], ◌∷◌, ◌++◌, map, join, starts_with, has, length,
  leb, ltb, ◌==◌, every, is_digit, is_letter, if◌then◌else◌, is_empty,
}
use wslpad.Base.Results.{Result, require}

abbrev pub quote : ℕ
quote = 39

abbrev pub backslash : ℕ
backslash = 92

-- `value.replace(/'/g, …)`: each quote closes the string, stands escaped, and opens it again.
unfoldable pub escape_quotes : Text → Text
escape_quotes [] = []
escape_quotes (c ∷ s) =
    let rest = escape_quotes s in
    if c == quote then quote ∷ backslash ∷ quote ∷ quote ∷ rest else c ∷ rest

unfoldable pub shell_quote : Text → Text
unfolding escape_quotes
shell_quote value =
    if is_empty value then quote ∷ quote ∷ [] else quote ∷ (escape_quotes value ++ quote ∷ [])

unfoldable pub shell_quote_all : List Text → Text
unfolding shell_quote
shell_quote_all values = join (b' ' ∷ []) (map shell_quote values)

abbrev pub is_alphanumeric : ℕ → Bool
is_alphanumeric c = is_letter c || is_digit c

abbrev pub is_name_unit : ℕ → Bool
is_name_unit c = is_alphanumeric c || c == b'.' || c == b'_' || c == b'-'

-- `DISTRO_NAME_RE`.
abbrev pub matches_distro_name : Text → Bool
matches_distro_name [] = Bool.false
matches_distro_name (c ∷ s) = is_alphanumeric c && every is_name_unit s

unfoldable pub is_valid_distro_name : Text → Bool
is_valid_distro_name name = ltb 0 (length name) && leb (length name) 128 && matches_distro_name name

pub data Refusal : Type 0 where
  invalid_distro_name : Text → Refusal
  invalid_linux_path : Text → Refusal

unfoldable pub assert_valid_distro_name : Text → Result Refusal (Unit {0})
unfolding is_valid_distro_name
assert_valid_distro_name name = require (is_valid_distro_name name) (invalid_distro_name name)

unfoldable pub is_valid_linux_path : Text → Bool
is_valid_linux_path path =
    ltb 0 (length path)
    && leb (length path) 4096
    && starts_with path (b'/' ∷ [])
    && not (has 0 path)
    && not (has b'\n' path)

unfoldable pub assert_valid_linux_path : Text → Result Refusal (Unit {0})
unfolding is_valid_linux_path
assert_valid_linux_path path = require (is_valid_linux_path path) (invalid_linux_path path)
