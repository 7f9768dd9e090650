-- ===== src/WslConfig/Reconcile.antt =====
-- src/main/wsl/wsl-config.ts: one row for each setting, with its verdict.
pub mod Notes
pub mod Collapse
pub mod Table
pub mod Complete
pub mod Sorted
pub mod Rows
pub mod Verdicts
use wslpad.Base.{
  ℕ, suc, ◌+◌, Bool, true, false, ◌&&◌, ◌||◌, not, Text, lit, List, [], ◌∷◌, ◌++◌, Option, none,
  some, ltb, ◌==◌, if◌then◌else◌, is_empty, to_lower, same, one_of, join, select, find, any, map,
  show, last?, head?, or_else, is_some, is_none, length,
}
use wslpad.Base.Int.{ℤ, pos, negsuc}
use wslpad.Settings.{
  Scope, windows, linux, WslSettingInfo, SettingOrigin, SettingProvenance, SettingVerdict, applied,
  pending_restart, not_set, unknown_key, wrong_section, unsupported,
}
use wslpad.WslConfig.Ini.{IniEntry}
use wslpad.WslConfig.Catalog.{KnownKey, known_keys, find_known_keys, section_order}
use wslpad.WslConfig.Distance.{suggest_key, same_scope}
use wslpad.WslConfig.Versions.{compare_versions, lt_ℤ}
use wslpad.WslConfig.Values.{values_match}
use wslpad.WslConfig.Observe.{WslObservations, Effective, observe_effective}
use wslpad.WslConfig.Reconcile.Notes.{
  file_label, join_notes, wrong_section_note, duplicate_note, suggestion_note, case_note,
  mismatch_note,
}

abbrev pub restart_grace_ms : ℕ
restart_grace_ms = 5000

pub record ReconcileInput : Type 0 where
  pub wslconfig_entries : List IniEntry
  pub wsl_conf_entries : List IniEntry
  pub observations : WslObservations
  pub wsl_version : Option Text
  pub vm_started_at_ms : Option ℕ
  pub wslconfig_mtime_ms : Option ℕ
  pub wsl_conf_mtime_ms : Option ℕ

pub record ReconcileResult : Type 0 where
  pub settings : List WslSettingInfo
  pub restart_pending : Bool
  pub networking_mode_declared : Option Text
  pub networking_mode_effective : Option Text

pub record DeclaredContext : Type 0 where
  pub scope : Scope
  pub wsl_version : Option Text
  pub file_newer_than_vm : Bool
  pub vm_start_known : Bool
  pub observations : WslObservations

abbrev pub same_entry : IniEntry → IniEntry → Bool
same_entry a b = same a.section b.section && same (to_lower a.key) (to_lower b.key)

-- `byKey.set(id, …)`: the place of the first declaration, the entry of this one.
unfoldable pub count_entry : IniEntry → List (IniEntry × ℕ) → List (IniEntry × ℕ)
count_entry entry [] = (entry, 1) ∷ []
count_entry entry ((e, n) ∷ rest) =
    if same_entry entry e then (entry, suc n) ∷ rest else (e, n) ∷ count_entry entry rest

unfoldable pub collapse_from : List (IniEntry × ℕ) → List IniEntry → List (IniEntry × ℕ)
unfolding count_entry
collapse_from by_key [] = by_key
collapse_from by_key (entry ∷ entries) = collapse_from (count_entry entry by_key) entries

unfoldable pub collapse_duplicates : List IniEntry → List (IniEntry × ℕ)
unfolding collapse_from
collapse_duplicates entries = collapse_from [] entries

-- `a ?? b` where `b` may be missing too.
abbrev otherwise {ℓ} : {A : Type ℓ} → Option A → Option A → Option A
otherwise none b = b
otherwise (some a) b = some a

unfoldable pub resolve_known : List KnownKey → Text → Scope → Option KnownKey
resolve_known candidates section scope =
    otherwise (find (λ c. same c.section section && same_scope c.scope scope) candidates) (
      otherwise (find (λ c. same c.section section) candidates)
        (otherwise (find (λ c. same_scope c.scope scope) candidates) (head? candidates)))

-- A declared row: what `base` holds, with the three fields that the verdict decides.
abbrev pub declared_row :
    IniEntry → Scope → Option Text → SettingVerdict → Option Text → WslSettingInfo
declared_row entry scope effective verdict note = record {
  key = entry.key;
  section = entry.section;
  scope = scope;
  declared_value = some entry.value;
  effective_value = effective;
  origin = elim scope [ windows ↦ SettingOrigin.wslconfig | linux ↦ SettingOrigin.wsl_conf ];
  provenance = SettingProvenance.user;
  verdict = verdict;
  note = note;
}

-- The version that the key needs and the version that runs, if the one is newer than the other.
unfoldable pub too_old : Option Text → Option Text → Option (Text × Text)
too_old none version = none
too_old (some since) none = none
too_old (some since) (some version) =
    if lt_ℤ (compare_versions version since) (pos 0) then some (since, version) else none

unfoldable pub mismatch_verdict : Bool → Bool → SettingVerdict
mismatch_verdict newer known_start =
    if newer then pending_restart else if known_start then unsupported else SettingVerdict.unknown

-- The value was read back.
abbrev observed_setting :
    IniEntry
    → DeclaredContext
    → KnownKey
    → Option Text
    → Option Text
    → Option Text
    → Text
    → WslSettingInfo
observed_setting entry ctx known case duplicate evidence effective =
    if values_match known.key entry.value effective
    then declared_row entry ctx.scope (some effective) applied
        (join_notes (evidence ∷ case ∷ duplicate ∷ []))
    else declared_row entry ctx.scope (some effective)
        (mismatch_verdict ctx.file_newer_than_vm ctx.vm_start_known)
        (join_notes (
          some (mismatch_note ctx.file_newer_than_vm ctx.vm_start_known entry.value effective)
          ∷ evidence
          ∷ case
          ∷ duplicate
          ∷ []))

-- The value was not read back.
abbrev unobserved_setting :
    IniEntry → DeclaredContext → Option Text → Option Text → Option Text → WslSettingInfo
unobserved_setting entry ctx case duplicate evidence =
    if ctx.file_newer_than_vm
    then declared_row entry ctx.scope none pending_restart (
        join_notes (
          some (
            file_label ctx.scope
            ++ lit " changed after the VM started; this value is not in force yet.")
          ∷ case
          ∷ duplicate
          ∷ []))
    else declared_row entry ctx.scope none SettingVerdict.unknown (
        join_notes (
          some (
            lit
              "WSLPad cannot read this value back from a running system, so it cannot confirm it applied.")
          ∷ evidence
          ∷ case
          ∷ duplicate
          ∷ []))

abbrev effective_setting :
    IniEntry → DeclaredContext → KnownKey → Option Text → Option Text → Effective → WslSettingInfo
effective_setting entry ctx known case duplicate effective = elim effective.value [
  | none ↦ unobserved_setting entry ctx case duplicate effective.evidence
  | some value ↦ observed_setting entry ctx known case duplicate effective.evidence value
]

abbrev placed_setting :
    IniEntry → DeclaredContext → KnownKey → Option Text → Option (Text × Text) → WslSettingInfo
placed_setting entry ctx known duplicate (some (since, version)) =
    declared_row entry ctx.scope none unsupported (
      join_notes (
        some (
          known.key
          ++ (lit " needs WSL "
              ++ (since ++ (lit " or newer; this machine runs " ++ (version ++ lit ".")))))
        ∷ case_note known entry
        ∷ duplicate
        ∷ []))
placed_setting entry ctx known duplicate none =
    effective_setting entry ctx known (case_note known entry) duplicate
      (observe_effective known.section known.key ctx.observations)

abbrev pub is_misplaced : KnownKey → IniEntry → Scope → Bool
is_misplaced known entry scope =
    not (same known.section entry.section) || not (same_scope known.scope scope)

abbrev known_setting : IniEntry → DeclaredContext → KnownKey → Option Text → WslSettingInfo
known_setting entry ctx known duplicate =
    if is_misplaced known entry ctx.scope
    then declared_row entry ctx.scope none wrong_section
        (join_notes (some (wrong_section_note known entry ctx.scope) ∷ duplicate ∷ []))
    else placed_setting entry ctx known duplicate (too_old known.since ctx.wsl_version)

-- The row of a declared entry, and the catalog entry that it covers.
unfoldable pub declared_setting : IniEntry → ℕ → DeclaredContext → WslSettingInfo × Option KnownKey
declared_setting entry duplicates ctx =
    elim (resolve_known (find_known_keys entry.key) entry.section ctx.scope) [
      | none ↦ (
        declared_row entry ctx.scope none unknown_key (
            join_notes (
              some (lit "WSL ignores this key.")
              ∷ suggestion_note (suggest_key entry.key ctx.scope)
              ∷ duplicate_note entry duplicates
              ∷ [])),
        none,
      )
      | some known ↦ (known_setting entry ctx known (duplicate_note entry duplicates), some known)
    ]
