-- ===== src/Explorer/Outcomes.antt =====
-- What a command run in a distribution answers, and the messages of failures: parts of
-- src/main/wsl/contracts.ts, src/main/wsl/escape.ts and src/main/explorer/listing.ts.
use wslpad.Base.{
  ℕ, ◌+◌, ◌/◌, ◌%◌, Bool, false, ◌&&◌, ◌||◌, not, Text, lit, [], ◌∷◌, ◌++◌, Option, none, some,
  includes, to_lower, ◌==◌, ltb, within, if◌then◌else◌, is_empty,
}
use wslpad.Shell.{Refusal, invalid_distro_name, invalid_linux_path}

pub record RunResult : Type 0 where
  pub stdout : Text
  pub stderr : Text
  pub code : Option ℕ
  pub timed_out : Bool

pub data ExplorerErrorCode : Type 0 where
  eacces enoent eexist eisdir enotdir timeout too_large binary cancelled unknown : ExplorerErrorCode

abbrev code_text : ExplorerErrorCode → Text
code_text eacces = lit "EACCES"
code_text enoent = lit "ENOENT"
code_text eexist = lit "EEXIST"
code_text eisdir = lit "EISDIR"
code_text enotdir = lit "ENOTDIR"
code_text timeout = lit "TIMEOUT"
code_text too_large = lit "TOO_LARGE"
code_text binary = lit "BINARY"
code_text cancelled = lit "CANCELLED"
code_text unknown = lit "UNKNOWN"

abbrev pub exit_eexist : ℕ
exit_eexist = 41

-- `EXIT_CODE_MAP[code]`.
unfoldable pub exit_code_map : ℕ → Option ExplorerErrorCode
exit_code_map code =
    if code == 40
    then some enoent
    else if code == exit_eexist
    then some eexist
    else if code == 42
    then some eisdir
    else if code == 43
    then some eacces
    else if code == 44
    then some unknown
    else if code == 45
    then some enotdir
    else none

unfoldable pub sniff_stderr : Text → ExplorerErrorCode
sniff_stderr stderr =
    let text = to_lower stderr in
    if includes text (lit "permission denied")
    then eacces
    else if includes text (lit "no such file or directory")
    then enoent
    else if includes text (lit "not a directory")
    then enotdir
    else if includes text (lit "is a directory")
    then eisdir
    else if includes text (lit "file exists")
    then eexist
    else unknown

pub record ExplorerError : Type 0 where
  pub error_code : ExplorerErrorCode
  pub path : Text
  pub message : Text
  pub stderr : Option Text

abbrev mapped_code : Option ℕ → Option ExplorerErrorCode
mapped_code none = none
mapped_code (some code) = exit_code_map code

abbrev code_of : RunResult → ExplorerErrorCode
code_of result = elim (mapped_code result.code) [
  | some mapped ↦ mapped
  | none ↦ sniff_stderr result.stderr
]

unfoldable pub explorer_error_from_result : Text → RunResult → ExplorerError
unfolding exit_code_map sniff_stderr
explorer_error_from_result path result =
    let detail = if is_empty result.stderr then none else some result.stderr in
    let code : ExplorerErrorCode = code_of result in
    if result.timed_out
    then record {
      error_code = timeout;
      path = path;
      message = lit "TIMEOUT: " ++ path;
      stderr = detail;
    }
    else record {
      error_code = code;
      path = path;
      message = code_text code ++ (lit ": " ++ path);
      stderr = detail;
    }

-- `result.code !== 0 || result.timedOut`.
abbrev is_zero : Option ℕ → Bool
is_zero none = false
is_zero (some code) = code == 0

abbrev pub exits_with : ℕ → RunResult → Bool
exits_with code result = elim result.code [ none ↦ false | some c ↦ c == code ]

unfoldable pub failed : RunResult → Bool
failed result = not (is_zero result.code) || result.timed_out

abbrev hex_digit : ℕ → ℕ
hex_digit n = if ltb n 10 then b'0' + n else 87 + n

abbrev hex : ℕ → Text
hex c =
    92
    ∷ b'u'
    ∷ hex_digit (c / 4096)
    ∷ hex_digit (c / 256 % 16)
    ∷ hex_digit (c / 16 % 16)
    ∷ hex_digit (c % 16)
    ∷ []

abbrev json_unit : ℕ → Text
json_unit c =
    if c == b'"' || c == 92
    then 92 ∷ c ∷ []
    else if c == 8
    then lit "\\b"
    else if c == 9
    then lit "\\t"
    else if c == 10
    then lit "\\n"
    else if c == 12
    then lit "\\f"
    else if c == 13
    then lit "\\r"
    else if ltb c 32 || within 0xd800 0xdfff c
    then hex c
    else c ∷ []

-- A pair of surrogates stays, and a lone one is written in hexadecimal.
unfoldable pub json_units : Text → Text
json_units [] = []
json_units (c ∷ []) = json_unit c
json_units (c ∷ d ∷ s) =
    let rest = json_units (d ∷ s) in
    let after = json_units s in
    if within 0xd800 0xdbff c && within 0xdc00 0xdfff d then c ∷ d ∷ after else json_unit c ++ rest

-- `JSON.stringify` of a text.
unfoldable pub json_text : Text → Text
unfolding json_units
json_text s = b'"' ∷ (json_units s ++ b'"' ∷ [])

-- The message of the thrown `Error`.
unfoldable pub refusal_message : Refusal → Text
unfolding json_text
refusal_message (invalid_distro_name name) = lit "Invalid WSL distro name: " ++ json_text name
refusal_message (invalid_linux_path path) = lit "Invalid Linux path: " ++ json_text path
