-- ===== src/Tests/WslConfig.antt =====
-- Runs of src/main/wsl/wsl-config.ts.
use mathlib.Core.List.{Perm}
use wslpad.Base.{
  ℕ, ◌≤◌, ◌≡◌, ◌↔◌, ◌⊎◌, inl, refl, true, Text, lit, [], ◌∷◌, none, some, In, All, to_lower,
  is_space, trim, split, trim_start, read,
}
use wslpad.Base.Int.{ℤ, pos, negsuc}
use wslpad.Settings.{WslSettingInfo, windows}
use wslpad.WslConfig.Ini.{
  IniEntry, parse_ini, drop_mark, assignment, header, content, strip_comment, drop_return,
}
use wslpad.WslConfig.Ini.Lines.{IsRead, section_at, parse_ini-IsRead}
use wslpad.WslConfig.Ini.Found.{IsRead-In}
use wslpad.WslConfig.Catalog.{known_keys, KnownKey}
use wslpad.WslConfig.Distance.{edit_distance, suggest_key}
use wslpad.WslConfig.Distance.Scripts.{Script, edits}
use wslpad.WslConfig.Distance.Correct.{edit_distance_least}
use wslpad.WslConfig.Distance.Suggestion.{NoneNearer, IsNearest, suggest_key-IsNearest}
use wslpad.WslConfig.Versions.{compare_versions, parts}
use wslpad.WslConfig.Versions.Order.{part, FirstLess, compare_versions_iff}
use wslpad.WslConfig.Observe.{empty_observations}
use wslpad.WslConfig.Reconcile.{DeclaredContext, ReconcileInput, collapse_duplicates}
use wslpad.WslConfig.Reconcile.Collapse.{
  looked_up, declarations, summary, looked_up-collapse_duplicates,
}
use wslpad.WslConfig.Reconcile.Table.{reconcile_settings}
use wslpad.WslConfig.Reconcile.Sorted.{IsOrdered}
use wslpad.WslConfig.Reconcile.Rows.{expected, reconcile_settings-rows}
use wslpad.WslConfig.Reconcile.Complete.{Answers, reconcile_settings_complete}

abbrev file : Text
file = lit "# limits\n[WSL2]\nmemory = 8GB ; half\nmemroy=1\nkernelCommandLine=a#b\n[ x\n=3\n"

abbrev entry : Text → Text → ℕ → IniEntry
entry key value line = record { section = lit "wsl2"; key = key; value = value; line = line }

parse_run :
    parse_ini file
    ≡ entry (lit "memory") (lit "8GB") 3
      ∷ entry (lit "memroy") (lit "1") 4
      ∷ entry (lit "kernelCommandLine") (lit "a#b") 5
      ∷ []
unfolding parse_ini split is_space trim to_lower lit
parse_run = refl

distance_run : edit_distance (lit "memroy") (lit "memory") ≡ 2
unfolding edit_distance lit
distance_run = refl

version_run :
    (compare_versions (lit "2.0.9") (lit "2.0.14") ≡ negsuc 0)
    × (compare_versions (lit "2.1") (lit "2.1.0.0") ≡ pos 0)
unfolding compare_versions split trim_start is_space read lit
version_run = (refl, refl)

edit_distance_least_example :
    ((k : Script (lit "swap") (lit "swp")) × (edits k ≡ edit_distance (lit "swap") (lit "swp")))
    × ((k : Script (lit "swap") (lit "swp")) → edit_distance (lit "swap") (lit "swp") ≤ edits k)
edit_distance_least_example = edit_distance_least (lit "swap") (lit "swp")

suggest_key-IsNearest_example :
    ((suggest_key (lit "memroy") windows ≡ none)
      × NoneNearer (to_lower (lit "memroy")) windows 3 known_keys)
    ⊎ ((name : Text) × (suggest_key (lit "memroy") windows ≡ some name)
        × IsNearest (to_lower (lit "memroy")) windows 3 known_keys name)
suggest_key-IsNearest_example = suggest_key-IsNearest (lit "memroy") windows

compare_versions_iff_example :
    ((compare_versions (lit "2.0.9") (lit "2.1") ≡ negsuc 0)
      ↔ FirstLess (parts (lit "2.0.9")) (parts (lit "2.1")))
    × ((compare_versions (lit "2.0.9") (lit "2.1") ≡ pos 1)
        ↔ FirstLess (parts (lit "2.1")) (parts (lit "2.0.9")))
    × ((compare_versions (lit "2.0.9") (lit "2.1") ≡ pos 0)
        ↔ ((i : ℕ) → part (parts (lit "2.0.9")) i ≡ part (parts (lit "2.1")) i))
compare_versions_iff_example = compare_versions_iff (lit "2.0.9") (lit "2.1")

abbrev memory : IniEntry
memory = entry (lit "memory") (lit "8GB") 3

abbrev context : DeclaredContext
context = record {
  scope = windows;
  wsl_version = some (lit "2.4.1");
  file_newer_than_vm = true;
  vm_start_known = true;
  observations = empty_observations;
}

looked_up-collapse_duplicates_example :
    looked_up memory (collapse_duplicates (memory ∷ memory ∷ []))
    ≡ summary (declarations memory (memory ∷ memory ∷ []))
looked_up-collapse_duplicates_example = looked_up-collapse_duplicates memory (memory ∷ memory ∷ [])

abbrev input : ReconcileInput
input = record {
  wslconfig_entries = memory ∷ [];
  wsl_conf_entries = [];
  observations = empty_observations;
  wsl_version = none;
  vm_started_at_ms = none;
  wslconfig_mtime_ms = none;
  wsl_conf_mtime_ms = none;
}

-- A collation that takes all texts for equal.
abbrev flat : Text → Text → ℤ
flat a b = pos 0

abbrev first_known : KnownKey
first_known = record {
  key = lit "kernel";
  section = lit "wsl2";
  scope = windows;
  default_value = none;
  moved_from = [];
  since = none;
  note =
      some
        (lit "Absolute Windows path to a custom kernel; WSL uses its bundled kernel when unset.");
}

first_known-In : In first_known known_keys
unfolding known_keys
first_known-In = inl refl

reconcile_settings_complete_example :
    (row : WslSettingInfo) × In row (reconcile_settings flat input).settings
    × Answers first_known input row
reconcile_settings_complete_example =
    reconcile_settings_complete flat input first_known first_known-In

parse_ini-IsRead_example : All (IsRead [] 1 (split 10 (drop_mark file))) (parse_ini file)
parse_ini-IsRead_example = parse_ini-IsRead file

unfoldable memory_read : IsRead [] 1 (split 10 (drop_mark file)) memory
unfolding split section_at assignment strip_comment drop_return header trim is_space to_lower lit
memory_read = record {
  index = 2;
  raw = lit "memory = 8GB ; half";
  line = refl;
  at = refl;
  assigned = refl;
  section_in_force = refl;
}

memory_plain : header (content memory_read.raw) ≡ none
unfolding memory_read header strip_comment drop_return trim is_space lit
memory_plain = refl

IsRead-In_example : In memory (parse_ini file)
IsRead-In_example = IsRead-In file memory memory_read memory_plain

reconcile_settings-rows_example :
    Perm (reconcile_settings flat input).settings (expected input)
    × IsOrdered (reconcile_settings flat input).settings
reconcile_settings-rows_example = reconcile_settings-rows flat input
