-- ===== src/Masking.antt =====
-- src/shared/masking.ts and src/main/mcp/masking.ts: which names and files are secret, and the text that
-- is shown in the place of a secret.
pub mod Assigned
pub mod Lines
pub mod Secrets
use wslpad.Base.{
  ends_line, ℕ, Bool, true, false, not, ◌&&◌, ◌||◌, Text, lit, List, [], ◌∷◌, ◌++◌, Option, none,
  some, any, drop, has, includes, is_digit, is_empty, is_letter, is_space, length, one_of, same,
  span, starts_with, to_lower, to_upper, within, if◌then◌else◌, ◌==◌,
}

abbrev pub masked_value : Text
masked_value = lit "••••••••"

abbrev pub secret_name_patterns : List Text
secret_name_patterns =
    lit "KEY"
    ∷ lit "TOKEN"
    ∷ lit "SECRET"
    ∷ lit "PASSWORD"
    ∷ lit "PASS"
    ∷ lit "AUTH"
    ∷ lit "CREDENTIAL"
    ∷ lit "COOKIE"
    ∷ lit "PRIVATE"
    ∷ lit "SESSION"
    ∷ lit "BEARER"
    ∷ []

unfoldable pub is_secret_name : Text → Bool
is_secret_name name = any (λ p. includes (to_upper name) p) secret_name_patterns

unfoldable pub mask_env_value : Text → Text → Text
mask_env_value name value = if is_secret_name name then masked_value else value

abbrev path_like_names : List Text
path_like_names =
    lit "PATH"
    ∷ lit "MANPATH"
    ∷ lit "INFOPATH"
    ∷ lit "LD_LIBRARY_PATH"
    ∷ lit "PYTHONPATH"
    ∷ lit "GOPATH"
    ∷ lit "CDPATH"
    ∷ []

unfoldable pub ends_with : Text → Text → Bool
ends_with [] p = is_empty p
ends_with (c ∷ s) p = same (c ∷ s) p || ends_with s p

unfoldable pub is_path_like_name : Text → Bool
unfolding ends_with
is_path_like_name name =
    let upper = to_upper name in
    one_of upper path_like_names || ends_with upper (lit "_PATH") || ends_with upper (lit "PATH")

abbrev starts_with_drive : Text → Bool
starts_with_drive (c ∷ d ∷ e ∷ s) = is_letter c && d == b':' && e == 92
starts_with_drive _ = false

unfoldable pub looks_windows_originated : Text → Text → Bool
looks_windows_originated name value =
    one_of name (lit "WSLENV" ∷ lit "WSL_DISTRO_NAME" ∷ lit "WSL_INTEROP" ∷ [])
    || starts_with_drive value
    || includes value (lit "\\Program Files")
    || includes value (lit "/mnt/c/")

abbrev is_label_unit : ℕ → Bool
is_label_unit c = within b'A' b'Z' c || is_digit c || c == 32

-- `[A-Z0-9 ]*PRIVATE KEY-----` at the start of a text.
unfoldable key_label : Text → Bool
key_label [] = false
key_label (c ∷ s) =
    let later = key_label s in
    starts_with (c ∷ s) (lit "PRIVATE KEY-----") || (is_label_unit c && later)

unfoldable pub looks_like_private_key : Text → Bool
unfolding key_label
looks_like_private_key [] = false
looks_like_private_key (c ∷ s) =
    (starts_with (c ∷ s) (lit "-----BEGIN ") && key_label (drop 11 (c ∷ s)))
    || looks_like_private_key s

unfoldable pub slashed : Text → Text
slashed [] = []
slashed (c ∷ s) = (if c == 92 then b'/' else c) ∷ slashed s

-- `(id_[^/]+|[^/]*_key|authorized_keys|known_hosts)?$` after the directory.
abbrev is_ssh_file : Text → Bool
is_ssh_file s =
    is_empty s
    || (not (has b'/' s)
        && ((starts_with s (lit "id_") && not (is_empty (drop 3 s)))
            || ends_with s (lit "_key")
            || same s (lit "authorized_keys")
            || same s (lit "known_hosts")))

unfoldable in_ssh : Text → Bool
in_ssh [] = false
in_ssh (c ∷ s) = (starts_with (c ∷ s) (lit "/.ssh/") && is_ssh_file (drop 6 (c ∷ s))) || in_ssh s

abbrev is_ssh_dir : Text → Bool
is_ssh_dir p = ends_with p (lit "/.ssh") || ends_with p (lit "/.ssh/")

abbrev ends_with_one : Text → List Text → Bool
ends_with_one p endings = any (ends_with p) endings

abbrev is_credential_file : Text → Bool
is_credential_file p =
    ends_with_one (to_lower p) (lit ".pem" ∷ lit ".p12" ∷ lit ".pfx" ∷ lit ".key" ∷ [])
    || ends_with_one p (lit "/.netrc" ∷ lit "/.npmrc" ∷ lit "/.pgpass" ∷ [])
    || ends_with_one (to_lower p) (lit "credentials" ∷ lit "credentials.json" ∷ [])

unfoldable pub is_sensitive_path : Text → Bool
unfolding ends_with in_ssh slashed
is_sensitive_path path =
    let p = slashed path in
    if in_ssh p && not (ends_with p (lit ".pub")) then not (is_ssh_dir p) else is_credential_file p

abbrev pub is_name_start : ℕ → Bool
is_name_start c = is_letter c || c == b'_'

abbrev pub is_name_unit : ℕ → Bool
is_name_unit c = is_name_start c || is_digit c

-- A name and an equals sign at the start of a text: the name, and what follows the sign.
abbrev pub after_name : Text × Text → Option (Text × Text)
after_name (name, []) = none
after_name (name, c ∷ value) = if c == b'=' then some (name, value) else none

abbrev pub named_value : Text → Option (Text × Text)
named_value [] = none
named_value (c ∷ s) = if is_name_start c then after_name (span is_name_unit (c ∷ s)) else none

abbrev pub with_prefix : Text → Option (Text × Text) → Option (Text × Text × Text)
with_prefix prefix none = none
with_prefix prefix (some (name, value)) = some (prefix, name, value)

-- `export\s+` at the start of a text: it, and what follows.
abbrev pub after_export : Text → Option (Text × Text)
after_export s =
    let spaces = span is_space (drop 6 s) in
    if starts_with s (lit "export") && not (is_empty spaces.0)
    then some (lit "export" ++ spaces.0, spaces.1)
    else none

abbrev pub either :
    Option (Text × Text × Text) → Option (Text × Text × Text) → Option (Text × Text × Text)
either (some a) b = some a
either none b = b

abbrev pub exported : Text → Option (Text × Text) → Option (Text × Text × Text)
exported spaces none = none
exported spaces (some (word, rest)) = with_prefix (spaces ++ word) (named_value rest)

-- The three groups of `ENV_ASSIGNMENT_RE` on one line: with `export`, or else without. An `export` on
-- the line before, which its white space may reach, changes no group but the first.
unfoldable pub env_assignment : Text → Option (Text × Text × Text)
env_assignment line =
    let spaces = span is_space line in
    either (exported spaces.0 (after_export spaces.1)) (with_prefix spaces.0 (named_value spaces.1))

abbrev pub masked_groups : Text → Option (Text × Text × Text) → Text
masked_groups line none = line
masked_groups line (some (prefix, name, value)) =
    if is_secret_name name then prefix ++ (name ++ b'=' ∷ masked_value) else line

unfoldable pub mask_line : Text → Text
unfolding env_assignment
mask_line line = masked_groups line (env_assignment line)

-- The lines of a text with what is on the current one so far; the ends of lines stay.
unfoldable pub mask_from : Text → Text → Text
unfolding mask_line
mask_from line [] = mask_line line
mask_from line (c ∷ s) =
    let next = mask_from [] s in
    let more = mask_from (line ++ c ∷ []) s in
    if ends_line c then mask_line line ++ c ∷ next else more

pub record MaskedContent : Type 0 where
  pub content : Text
  pub warning : Option Text

unfoldable pub mask_text_file_content : Text → Text → MaskedContent
unfolding mask_from
mask_text_file_content path content =
    if looks_like_private_key content
    then record {
      content = lit "[private key content withheld]";
      warning = some (lit "private key content withheld");
    }
    else record {
      content = mask_from [] content;
      warning = if is_sensitive_path path then some (lit "sensitive file") else none;
    }
