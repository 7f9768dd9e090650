-- ===== src/WslConfig/Reconcile/Table.antt =====
-- src/main/wsl/wsl-config.ts: the default rows, the order of the table, and `reconcileSettings`.
use wslpad.Base.{
  ℕ, suc, ◌+◌, Bool, false, ◌&&◌, ◌||◌, not, Text, lit, List, [], ◌∷◌, ◌++◌, Option, none, some,
  ltb, if◌then◌else◌, to_lower, same, select, any, map, last?, is_some,
}
use wslpad.Base.Int.{ℤ, pos, negsuc}
use wslpad.Settings.{
  Scope, windows, linux, WslSettingInfo, SettingOrigin, SettingProvenance, not_set, wsl_default,
}
use wslpad.WslConfig.Ini.{IniEntry}
use wslpad.WslConfig.Catalog.{KnownKey, known_keys, section_order}
use wslpad.WslConfig.Distance.{same_scope}
use wslpad.WslConfig.Versions.{lt_ℤ}
use wslpad.WslConfig.Values.{values_match}
use wslpad.WslConfig.Observe.{WslObservations, observe_effective}
use wslpad.WslConfig.Reconcile.Notes.{join_notes}
use wslpad.WslConfig.Reconcile.{
  ReconcileInput, ReconcileResult, DeclaredContext, restart_grace_ms, collapse_duplicates,
  declared_setting,
}

unfoldable pub default_provenance : KnownKey → Option Text → SettingProvenance
default_provenance known none = elim known.default_value [
  | none ↦ SettingProvenance.unknown
  | some _ ↦ wsl_default
]
default_provenance known (some observed) = elim known.default_value [
  | none ↦ SettingProvenance.computed
  | some value ↦
      if values_match known.key value observed then wsl_default else SettingProvenance.unknown
]

abbrev if_observed {ℓ} : {A : Type ℓ} → Option Text → A → A → A
if_observed none a b = b
if_observed (some _) a b = a

unfoldable pub default_setting : KnownKey → WslObservations → WslSettingInfo
unfolding default_provenance
default_setting known obs =
    let effective = observe_effective known.section known.key obs in
    let observed = effective.value in
    record {
      key = known.key;
      section = known.section;
      scope = known.scope;
      declared_value = none;
      effective_value = if_observed observed observed known.default_value;
      origin = if_observed observed SettingOrigin.computed SettingOrigin.default;
      provenance = default_provenance known observed;
      verdict = not_set;
      note = join_notes (known.note ∷ if_observed observed effective.evidence none ∷ []);
    }

-- The rows of the declared entries, and the catalog entries that they cover.
unfoldable pub declared_rows :
    DeclaredContext → List (IniEntry × ℕ) → List (WslSettingInfo × Option KnownKey)
declared_rows ctx [] = []
declared_rows ctx ((entry, count) ∷ rest) =
    declared_setting entry count ctx ∷ declared_rows ctx rest

-- Catalog entries are one object each: they are told apart by section, key and file.
abbrev pub same_known : KnownKey → KnownKey → Bool
same_known a b = same a.section b.section && same a.key b.key && same_scope a.scope b.scope

abbrev pub covers : KnownKey → WslSettingInfo × Option KnownKey → Bool
covers known (row, none) = false
covers known (row, some covered) = same_known known covered

unfoldable pub default_rows :
    List KnownKey → List (WslSettingInfo × Option KnownKey) → WslObservations → List WslSettingInfo
unfolding default_setting
default_rows [] declared obs = []
default_rows (known ∷ keys) declared obs =
    if any (covers known) declared
    then default_rows keys declared obs
    else default_setting known obs ∷ default_rows keys declared obs

unfoldable pub index_of : Text → List Text → ℕ
index_of s [] = 0
index_of s (t ∷ ts) = if same s t then 0 else suc (index_of s ts)

-- The index in the display order; one past the end if it is missing.
unfoldable pub section_rank : Text → ℕ
unfolding index_of
section_rank section = index_of section section_order

abbrev scope_first : Scope → ℤ
scope_first windows = negsuc 0
scope_first linux = pos 1

-- The file changed clearly after the utility VM started.
unfoldable pub newer_than_vm : Option ℕ → Option ℕ → Bool
newer_than_vm none vm_started_at_ms = false
newer_than_vm (some mtime) none = false
newer_than_vm (some mtime) (some started) = ltb (started + restart_grace_ms) mtime

abbrev pub context : ReconcileInput → Scope → Option ℕ → DeclaredContext
context input scope mtime = record {
  scope = scope;
  wsl_version = input.wsl_version;
  file_newer_than_vm = newer_than_vm mtime input.vm_started_at_ms;
  vm_start_known = is_some input.vm_started_at_ms;
  observations = input.observations;
}

-- Both files' declared rows, in the order in which they are pushed.
abbrev pub all_declared : ReconcileInput → List (WslSettingInfo × Option KnownKey)
all_declared input =
    declared_rows (context input windows input.wslconfig_mtime_ms)
      (collapse_duplicates input.wslconfig_entries)
    ++ declared_rows (context input linux input.wsl_conf_mtime_ms)
        (collapse_duplicates input.wsl_conf_entries)

abbrev pub unsorted : ReconcileInput → List WslSettingInfo
unsorted input =
    map (λ r. r.0) (all_declared input)
    ++ default_rows known_keys (all_declared input) input.observations

abbrev declared_modes : List IniEntry → List Text
declared_modes entries =
    map (λ e. to_lower e.value) (select (λ e. same (to_lower e.key) (lit "networkingmode")) entries)

-- `localeCompare` is the host's collation.
module _ (locale_compare : Text → Text → ℤ) where
  unfoldable pub compare_settings : WslSettingInfo → WslSettingInfo → ℤ
  unfolding section_rank
  compare_settings a b =
      if not (same_scope a.scope b.scope)
      then scope_first a.scope
      else if ltb (section_rank a.section) (section_rank b.section)
      then negsuc 0
      else if ltb (section_rank b.section) (section_rank a.section)
      then pos 1
      else if not (same a.section b.section)
      then locale_compare a.section b.section
      else locale_compare a.key b.key

  -- A stable sort: a row goes before the first that compares greater.
  unfoldable pub insert_setting : WslSettingInfo → List WslSettingInfo → List WslSettingInfo
  unfolding compare_settings
  insert_setting a [] = a ∷ []
  insert_setting a (b ∷ rest) =
      if lt_ℤ (pos 0) (compare_settings a b) then b ∷ insert_setting a rest else a ∷ b ∷ rest

  unfoldable pub sort_settings : List WslSettingInfo → List WslSettingInfo
  unfolding insert_setting
  sort_settings [] = []
  sort_settings (a ∷ rest) = insert_setting a (sort_settings rest)

  unfoldable pub reconcile_settings : ReconcileInput → ReconcileResult
  unfolding sort_settings newer_than_vm
  reconcile_settings input = record {
    settings = sort_settings (unsorted input);
    restart_pending =
        newer_than_vm input.wslconfig_mtime_ms input.vm_started_at_ms
        || newer_than_vm input.wsl_conf_mtime_ms input.vm_started_at_ms;
    networking_mode_declared = last? (declared_modes input.wslconfig_entries);
    networking_mode_effective = input.observations.networking_mode;
  }
