-- ===== src/WslConfig/Values.antt =====
-- src/main/wsl/wsl-config.ts: comparison of declared with observed values. Sizes with a decimal
-- fraction are read exactly, where the program goes through a double.
use wslpad.Base.{
  span, ℕ, ◌+◌, ◌*◌, ◌/◌, ◌%◌, ◌^◌, Bool, false, ◌&&◌, ◌||◌, not, Text, lit, List, [], ◌∷◌, ◌++◌,
  Option, none, some, leb, ◌==◌, if◌then◌else◌, is_empty, is_space, is_digit, trim, to_lower, lower,
  same, one_of, show, read, length,
}

abbrev pub kib : ℕ
kib = 1024

abbrev pub mib : ℕ
mib = 1048576

abbrev pub gib : ℕ
gib = 1073741824

abbrev true_words : List Text
true_words = lit "true" ∷ lit "1" ∷ lit "yes" ∷ lit "on" ∷ lit "enabled" ∷ []

abbrev false_words : List Text
false_words = lit "false" ∷ lit "0" ∷ lit "no" ∷ lit "off" ∷ lit "disabled" ∷ []

unfoldable pub normalize_bool : Text → Option Text
normalize_bool value =
    let word = to_lower (trim value) in
    if one_of word true_words
    then some (lit "true")
    else if one_of word false_words
    then some (lit "false")
    else none

-- `([kmgt]?)b?$`, without regard to case: the factor of the unit.
unfoldable pub unit_of : Text → Option ℕ
unit_of [] = some 1
unit_of (c ∷ []) =
    if lower c == b'b'
    then some 1
    else if lower c == b'k'
    then some kib
    else if lower c == b'm'
    then some mib
    else if lower c == b'g'
    then some gib
    else if lower c == b't'
    then some (gib * 1024)
    else none
unit_of (c ∷ d ∷ []) =
    if not (lower d == b'b')
    then none
    else if lower c == b'k'
    then some kib
    else if lower c == b'm'
    then some mib
    else if lower c == b'g'
    then some gib
    else if lower c == b't'
    then some (gib * 1024)
    else none
unit_of (c ∷ d ∷ e ∷ s) = none

-- `(?:\.\d+)?`: the digits behind a point, and what follows.
unfoldable pub fraction : Text → Text × Text
unfolding span
fraction [] = ([], [])
fraction (c ∷ s) =
    let digits = span is_digit s in
    if c == b'.' && not (is_empty digits.0) then digits else ([], c ∷ s)

-- `Math.round(n / 10 ** k * unit)`.
abbrev pub scaled : ℕ → ℕ → ℕ → ℕ
scaled n k unit = (2 * n * unit + 10 ^ k) / (2 * 10 ^ k)

abbrev pub sized : Text → Text × Text → Option ℕ
sized digits (decimals, rest) = elim (unit_of (span is_space rest).1) [
  | none ↦ none
  | some unit ↦ some (scaled (read (digits ++ decimals)) (length decimals) unit)
]

unfoldable pub parse_size : Text → Option ℕ
unfolding span fraction unit_of
parse_size value =
    let digits = span is_digit (trim value) in
    if is_empty digits.0 then none else sized digits.0 (fraction digits.1)

-- `(bytes / GIB).toFixed(1)`.
abbrev to_fixed_gib : ℕ → Text
to_fixed_gib bytes =
    let tenths = (20 * bytes + gib) / (2 * gib) in show (tenths / 10) ++ (b'.' ∷ show (tenths % 10))

unfoldable pub format_size : ℕ → Text
format_size bytes =
    if bytes == 0
    then lit "0"
    else if leb gib bytes
    then (if bytes % gib == 0
        then show (bytes / gib) ++ lit "GB"
        else to_fixed_gib bytes ++ lit "GB")
    else if bytes % mib == 0
    then show (bytes / mib) ++ lit "MB"
    else show ((2 * bytes + mib) / (2 * mib)) ++ lit "MB"

-- `effective <= declared * 1.02 && effective >= declared * 0.8`.
unfoldable pub size_matches : ℕ → ℕ → Bool
size_matches declared effective =
    leb (effective * 100) (declared * 102) && leb (declared * 8) (effective * 10)

abbrev both_sizes : Option ℕ → Option ℕ → Bool
both_sizes (some a) (some b) = if a == 0 then b == 0 else size_matches a b
both_sizes none _ = false
both_sizes (some a) none = false

abbrev both_words : Option Text → Option Text → Bool → Bool
both_words (some a) (some b) otherwise = same a b
both_words none _ otherwise = otherwise
both_words (some a) none otherwise = otherwise

unfoldable pub values_match : Text → Text → Text → Bool
unfolding normalize_bool size_matches parse_size
values_match key declared effective =
    if same (to_lower key) (lit "memory") || same (to_lower key) (lit "swap")
    then both_sizes (parse_size declared) (parse_size effective)
    else both_words (normalize_bool declared) (normalize_bool effective)
        (same (to_lower (trim declared)) (to_lower (trim effective)))
