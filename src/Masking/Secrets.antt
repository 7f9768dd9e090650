-- ===== src/Masking/Secrets.antt =====
-- What a masked text still shows.
use wslpad.Base.{
  ap, ◌∙◌, ◌≡◌, refl, sym, true, false, Text, List, [], ◌∷◌, ◌++◌, Option, none, some, All, if_elim,
}
use wslpad.Masking.{masked_value, is_secret_name, env_assignment, masked_groups, mask_line}
use wslpad.Masking.Assigned.{Assigns, Assigns-env_assignment}
use wslpad.Masking.Lines.{Splits, env_assignment-Splits}

-- A line that gives no value to a secret name.
abbrev pub IsPlain : Text → Type 0
IsPlain line =
    (prefix name value : Text) → Assigns line prefix name value → is_secret_name name ≡ false

-- What is shown for a line: the line, if it is plain, or its name with the mask in the place of the value.
pub data Shows (line : Text) : Text → Type 0 where
  plain : IsPlain line → Shows line line
  hidden :
      (prefix name value : Text)
      → line ≡ prefix ++ (name ++ b'=' ∷ value)
      → is_secret_name name ≡ true
      → Shows line (prefix ++ (name ++ b'=' ∷ masked_value))

abbrev name_in : Option (Text × Text × Text) → Text
name_in none = []
name_in (some (prefix, name, value)) = name

IsPlain-none : (line : Text) → env_assignment line ≡ none → IsPlain line
IsPlain-none line e prefix name value a =
    let found = sym e ∙ Assigns-env_assignment line prefix name value a in cc

IsPlain-some :
    (line : Text) (groups : Text × Text × Text)
    → env_assignment line ≡ some groups
    → is_secret_name (name_in (some groups)) ≡ false
    → IsPlain line
IsPlain-some line groups e h prefix name value a =
    let found = sym e ∙ Assigns-env_assignment line prefix name value a in
    sym (ap (λ g. is_secret_name (name_in g)) found) ∙ h

masked_groups-Shows :
    (line : Text) (groups : Option (Text × Text × Text))
    → env_assignment line ≡ groups
    → Splits line groups
    → Shows line (masked_groups line groups)
masked_groups-Shows line none e h = Shows.plain (IsPlain-none line e)
masked_groups-Shows line (some (prefix, name, value)) e h =
    if_elim (Shows line) (is_secret_name name) (λ secret. Shows.hidden prefix name value h secret)
      (λ open_name. Shows.plain (IsPlain-some line (prefix, name, value) e open_name))

mask_line-Shows : (line : Text) → Shows line (mask_line line)
unfolding mask_line
mask_line-Shows line =
    masked_groups-Shows line (env_assignment line) refl (env_assignment-Splits line)

all_lines : (lines : List Text) → All (λ line. Shows line (mask_line line)) lines
all_lines [] = tt
all_lines (line ∷ lines) = (mask_line-Shows line, all_lines lines)
