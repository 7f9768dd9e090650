-- ===== src/WslConfig/Reconcile/Notes.antt =====
-- src/main/wsl/wsl-config.ts: the notes of the rows.
use wslpad.Base.{
  ℕ, Bool, not, Text, lit, List, [], ◌∷◌, ◌++◌, Option, none, some, ltb, if◌then◌else◌, is_empty,
  same, one_of, join, show,
}
use wslpad.Settings.{Scope, windows, linux}
use wslpad.WslConfig.Ini.{IniEntry}
use wslpad.WslConfig.Catalog.{KnownKey}
use wslpad.WslConfig.Distance.{same_scope}

abbrev pub file_label : Scope → Text
file_label windows = lit ".wslconfig"
file_label linux = lit "/etc/wsl.conf"

abbrev pub present : List (Option Text) → List Text
present [] = []
present (none ∷ ps) = present ps
present (some p ∷ ps) = if is_empty p then present ps else p ∷ present ps

-- `join`: the notes that are there, with a space between them.
unfoldable pub join_notes : List (Option Text) → Option Text
join_notes ps =
    let text = join (b' ' ∷ []) (present ps) in if is_empty text then none else some text

unfoldable pub wrong_section_note : KnownKey → IniEntry → Scope → Text
wrong_section_note known entry scope =
    if not (same_scope known.scope scope)
    then known.section
      ++ (lit "."
          ++ (known.key
              ++ (lit " belongs in "
                  ++ (file_label known.scope ++ (lit ", not " ++ (file_label scope ++ lit "."))))))
    else if is_empty entry.section
    then known.key
      ++ (lit " sits above every section heading; WSL reads it from ["
          ++ (known.section ++ lit "]."))
    else if one_of entry.section known.moved_from
    then lit "Current WSL releases read "
      ++ (known.key
          ++ (lit " from ["
              ++ (known.section
                  ++ (lit "], not ["
                      ++ (entry.section ++ lit "] — the value in this file does nothing.")))))
    else known.key
      ++ (lit " belongs under ["
          ++ (known.section ++ (lit "], not [" ++ (entry.section ++ lit "]."))))

abbrev pub duplicate_note : IniEntry → ℕ → Option Text
duplicate_note entry duplicates =
    if ltb 1 duplicates
    then some (
        lit "Declared "
        ++ (show duplicates
            ++ (lit " times under [" ++ (entry.section ++ lit "]; only one value can apply."))))
    else none

abbrev pub suggestion_note : Option Text → Option Text
suggestion_note none = none
suggestion_note (some suggestion) = some (lit "Did you mean " ++ (suggestion ++ lit "?"))

abbrev pub case_note : KnownKey → IniEntry → Option Text
case_note known entry =
    if not (same known.key entry.key)
    then some (lit "The documented spelling is " ++ (known.key ++ lit "."))
    else none

abbrev pub mismatch_note : Bool → Bool → Text → Text → Text
mismatch_note newer known_start declared effective =
    if newer
    then lit "The running VM still reports " ++ (effective ++ lit ". Applies after wsl --shutdown.")
    else if known_start
    then lit "The VM started after this file was saved and still reports "
      ++ (effective ++ (lit ", so WSL did not honour " ++ (declared ++ lit " here.")))
    else lit "Declared "
      ++ (declared
          ++ (lit " but the system reports "
              ++ (effective ++ lit "; WSLPad cannot tell whether a restart is pending.")))
