-- ===== src/Explorer/Listing.antt =====
-- src/main/explorer/listing.ts: the entries of a directory, read from what `find -printf` prints. An
-- instant, which the source prints in ISO 8601, is its count of milliseconds since 1970.
pub mod Printed
pub mod Requests
use wslpad.Base.{
  ℕ, suc, ◌+◌, ◌-◌, ◌*◌, ◌/◌, ◌%◌, ◌^◌, Bool, true, false, not, ◌&&◌, ◌||◌, Text, lit, List, [],
  ◌∷◌, ◌++◌, Option, none, some, drop, is_digit, is_empty, join, leb, length, ltb, read, same,
  select, span, split, starts_with, trim_start, within, if◌then◌else◌, ◌==◌, ◌≡◌, refl, is_space,
}
use wslpad.Base.Int.{ℤ, pos, negsuc, abs}
use wslpad.Base.Results.{Result, ok, err}
use wslpad.Explorer.Paths.{join_linux_path, linux_basename}
use wslpad.WslConfig.Versions.{parse_int}

pub data FileEntryType : Type 0 where
  file directory symlink other : FileEntryType

pub record FileEntry : Type 0 where
  pub name : Text
  pub path : Text
  pub type : FileEntryType
  pub size_bytes : Option ℤ
  pub mtime : Option ℤ
  pub owner : Text
  pub group : Text
  pub permissions : Text
  pub permissions_octal : Text
  pub is_hidden : Bool
  pub symlink_target : Option Text
  pub target_type : Option FileEntryType

-- `TYPE_MAP[part] ?? 'other'`.
unfoldable pub type_of : Text → FileEntryType
type_of part =
    if same part (lit "d")
    then directory
    else if same part (lit "f")
    then file
    else if same part (lit "l")
    then symlink
    else other

abbrev has_bit : ℕ → ℕ → Bool
has_bit bit n = n / bit % 2 == 1

-- The three characters of one digit, where `special` says whether its special bit is set.
abbrev rwx : ℕ → Bool → ℕ → ℕ → Text
rwx bits special mark plain =
    (if has_bit 4 bits then b'r' else b'-')
    ∷ (if has_bit 2 bits then b'w' else b'-')
    ∷ (if special
        then (if has_bit 1 bits then mark else mark - 32)
        else (if has_bit 1 bits then plain else b'-'))
    ∷ []

abbrev rwx_of : List ℕ → Text
rwx_of (s ∷ u ∷ g ∷ o ∷ []) =
    rwx u (has_bit 4 s) b's' b'x'
    ++ (rwx g (has_bit 2 s) b's' b'x' ++ rwx o (has_bit 1 s) b't' b'x')
rwx_of _ = []

abbrev digits_of : Text → List ℕ
digits_of [] = []
digits_of (c ∷ s) = (c - b'0') ∷ digits_of s

-- `slice(-4).padStart(4, '0')`.
abbrev last_four : Text → Text
last_four digits = drop (length digits) (lit "0000" ++ digits)

unfoldable pub octal_to_rwx : Text → Text
octal_to_rwx octal =
    let digits = select (within b'0' b'7') octal in
    if is_empty digits then lit "---------" else rwx_of (digits_of (last_four digits))

pub record ParsedFindLine : Type 0 where
  pub type : FileEntryType
  pub octal : Text
  pub owner : Text
  pub group : Text
  pub size : Option ℤ
  pub mtime : Option ℤ
  pub name_field : Text
  pub link_target : Option Text

-- `Number.parseFloat` of digits with a fraction, as its sign, its digits in one, and the count of those
-- after the point. An exponent, which neither find nor stat prints, is not read.
abbrev fraction_of : Text → Text
fraction_of [] = []
fraction_of (c ∷ s) = if c == b'.' then (span is_digit s).0 else []

abbrev unsigned_float : Bool → Text → Option (Bool × ℕ × ℕ)
unsigned_float negative s =
    let whole = span is_digit s in
    let fraction = fraction_of whole.1 in
    if is_empty (whole.0 ++ fraction)
    then none
    else some (negative, read (whole.0 ++ fraction), length fraction)

abbrev signed_float : Text → Option (Bool × ℕ × ℕ)
signed_float [] = none
signed_float (c ∷ s) =
    if c == b'-'
    then unsigned_float true s
    else if c == b'+'
    then unsigned_float false s
    else unsigned_float false (c ∷ s)

abbrev minus : ℕ → ℤ
minus ℕ.zero = pos 0
minus (suc n) = negsuc n

-- `Math.round(seconds * 1000)`: half a millisecond goes up.
abbrev milliseconds : Bool → ℕ → ℕ → ℤ
milliseconds false digits places = pos ((2000 * digits + 10 ^ places) / (2 * 10 ^ places))
milliseconds true digits places = minus ((2000 * digits + 10 ^ places - 1) / (2 * 10 ^ places))

abbrev invalid_time : Text
invalid_time = lit "Invalid time value"

-- `toISOString` throws on an instant that a date cannot hold.
abbrev iso_of : ℤ → Result Text (Option ℤ)
iso_of instant = if leb (abs instant) 8640000000000000 then ok (some instant) else err invalid_time

abbrev instant_of : Option (Bool × ℕ × ℕ) → Result Text (Option ℤ)
instant_of none = ok none
instant_of (some (negative, digits, places)) = iso_of (milliseconds negative digits places)

unfoldable pub epoch_to_iso : Text → Result Text (Option ℤ)
epoch_to_iso raw = instant_of (signed_float (trim_start raw))

-- `x || null`.
abbrev pub or_null : Text → Option Text
or_null [] = none
or_null (c ∷ s) = some (c ∷ s)

unfoldable pub drop_last : List Text → List Text
drop_last [] = []
drop_last (t ∷ []) = []
drop_last (t ∷ u ∷ ts) = t ∷ drop_last (u ∷ ts)

abbrev pub is_link : FileEntryType → Bool
is_link type = elim type [ symlink ↦ true | _ ↦ false ]

-- The name and the target, from the fields that follow the time.
abbrev pub name_and_target : FileEntryType → Text → List Text → Text × Option Text
name_and_target type field fields =
    if is_link type
    then (field, or_null (join (lit "|") fields))
    else (join (lit "|") (drop_last (field ∷ fields)), none)

abbrev pub timed :
    FileEntryType
    → Text
    → Text
    → Text
    → Text
    → Text × Option Text
    → Result Text (Option ℤ)
    → Result Text (Option ParsedFindLine)
timed type octal owner group size named (err e) = err e
timed type octal owner group size named (ok mtime) = ok (
    some (record {
      type = type;
      octal = octal;
      owner = owner;
      group = group;
      size = parse_int size;
      mtime = mtime;
      name_field = named.0;
      link_target = named.1;
    }))

abbrev pub parsed_fields :
    FileEntryType
    → Text
    → Text
    → Text
    → Text
    → Text
    → Text × Option Text
    → Result Text (Option ParsedFindLine)
parsed_fields type octal owner group size stamp named =
    if is_empty named.0
    then ok none
    else timed type octal owner group size named (epoch_to_iso stamp)

abbrev pub tail_fields : FileEntryType → List Text → Option (Text × Option Text)
tail_fields type (name ∷ target ∷ rest) = some (name_and_target type name (target ∷ rest))
tail_fields type _ = none

abbrev pub with_tail :
    FileEntryType
    → Text
    → Text
    → Text
    → Text
    → Text
    → Option (Text × Option Text)
    → Result Text (Option ParsedFindLine)
with_tail type octal owner group size stamp none = ok none
with_tail type octal owner group size stamp (some named) =
    parsed_fields type octal owner group size stamp named

-- At least eight fields.
abbrev pub from_parts : List Text → Result Text (Option ParsedFindLine)
from_parts (kind ∷ octal ∷ owner ∷ group ∷ size ∷ stamp ∷ tail) =
    with_tail (type_of kind) octal owner group size stamp (tail_fields (type_of kind) tail)
from_parts _ = ok none

unfoldable pub parse_find_line : Text → Result Text (Option ParsedFindLine)
unfolding epoch_to_iso drop_last
parse_find_line line = from_parts (split b'|' line)

abbrev pub size_for : FileEntryType → Option ℤ → Option ℤ
size_for directory size = none
size_for _ size = size

unfoldable pub to_entry : Text → Text → ParsedFindLine → FileEntry
unfolding octal_to_rwx
to_entry name path parsed = record {
  name = name;
  path = path;
  type = parsed.type;
  size_bytes = size_for parsed.type parsed.size;
  mtime = parsed.mtime;
  owner = parsed.owner;
  group = parsed.group;
  permissions = octal_to_rwx parsed.octal;
  permissions_octal = parsed.octal;
  is_hidden = starts_with name (lit ".");
  symlink_target = parsed.link_target;
  target_type = none;
}

module _ (entry_of : ParsedFindLine → FileEntry) where
  abbrev pub add_entry :
      Result Text (Option ParsedFindLine)
      → Result Text (List FileEntry)
      → Result Text (List FileEntry)
  add_entry (err e) rest = err e
  add_entry (ok none) rest = rest
  add_entry (ok (some parsed)) (err e) = err e
  add_entry (ok (some parsed)) (ok entries) = ok (entry_of parsed ∷ entries)

  -- The loop over the lines; the first throw ends it.
  unfoldable pub entries_of_lines : List Text → Result Text (List FileEntry)
  unfolding parse_find_line
  entries_of_lines [] = ok []
  entries_of_lines (line ∷ lines) =
      let rest = entries_of_lines lines in
      if is_empty line then rest else add_entry (parse_find_line line) rest

abbrev pub entry_in : Text → ParsedFindLine → FileEntry
entry_in dir_path parsed =
    to_entry parsed.name_field (join_linux_path dir_path parsed.name_field) parsed

unfoldable pub parse_find_listing : Text → Text → Result Text (List FileEntry)
unfolding entries_of_lines to_entry
parse_find_listing dir_path text = entries_of_lines (entry_in dir_path) (split 10 text)

abbrev pub entry_at : ParsedFindLine → FileEntry
entry_at parsed = to_entry (linux_basename parsed.name_field) parsed.name_field parsed

unfoldable pub parse_find_path_listing : Text → Result Text (List FileEntry)
unfolding entries_of_lines to_entry
parse_find_path_listing text = entries_of_lines entry_at (split 10 text)

octal_run :
    (octal_to_rwx (lit "755") ≡ lit "rwxr-xr-x")
    × (octal_to_rwx (lit "4644") ≡ lit "rwSr--r--")
    × (octal_to_rwx (lit "1777") ≡ lit "rwxrwxrwt")
    × (octal_to_rwx (lit "0") ≡ lit "---------")
unfolding octal_to_rwx lit
octal_run = (refl, refl, refl, refl)

epoch_run :
    (epoch_to_iso (lit "1700000000.1234567890") ≡ ok (some (pos 1700000000123)))
    × (epoch_to_iso (lit "-1.5") ≡ ok (some (negsuc 1499)))
    × (epoch_to_iso (lit "9000000000000") ≡ err invalid_time)
unfolding epoch_to_iso lit trim_start span read is_space
epoch_run = (refl, refl, refl)
