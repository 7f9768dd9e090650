-- ===== src/WslConfig/Reconcile/Verdicts.antt =====
-- What the verdict of a declared row says.
use wslpad.Base.{
  ℕ, ◌≡◌, ◌⊎◌, refl, true, false, ◌&&◌, Option-cases, Text, List, [], ◌∷◌, none, some, arith, find,
  same,
}
use wslpad.Settings.{Scope, WslSettingInfo, SettingProvenance}
use wslpad.WslConfig.Ini.{IniEntry}
use wslpad.WslConfig.Catalog.{KnownKey, find_known_keys}
use wslpad.WslConfig.Distance.{same_scope}
use wslpad.WslConfig.Values.{values_match}
use wslpad.WslConfig.Observe.{observe_effective}
use wslpad.WslConfig.Reconcile.{
  DeclaredContext, resolve_known, declared_setting, is_misplaced, too_old,
}

-- Some candidate is chosen as soon as there is one.
pub resolve_known-none :
    (candidates : List KnownKey) (section : Text) (scope : Scope)
    → resolve_known candidates section scope ≡ none
    → candidates ≡ []
unfolding resolve_known
resolve_known-none [] section scope h = refl
resolve_known-none (k ∷ ks) section scope h = ground (
  arith,
  Option-cases (find (λ c. same c.section section && same_scope c.scope scope) (k ∷ ks)),
  Option-cases (find (λ c. same c.section section) (k ∷ ks)),
  Option-cases (find (λ c. same_scope c.scope scope) (k ∷ ks)),
)

-- The value of the catalog entry is read back and agrees.
pub record IsApplied (entry : IniEntry) (ctx : DeclaredContext) : Type 0 where
  pub known : KnownKey
  pub value : Text
  pub resolved : resolve_known (find_known_keys entry.key) entry.section ctx.scope ≡ some known
  pub placed : is_misplaced known entry ctx.scope ≡ false
  pub recent : too_old known.since ctx.wsl_version ≡ none
  pub observed : (observe_effective known.section known.key ctx.observations).value ≡ some value
  pub agrees : values_match known.key entry.value value ≡ true

module _ (entry : IniEntry) (duplicates : ℕ) (ctx : DeclaredContext) where
  abbrev row : WslSettingInfo
  row = (declared_setting entry duplicates ctx).0

  keeps :
      (row.key ≡ entry.key)
      × (row.section ≡ entry.section)
      × (row.scope ≡ ctx.scope)
      × (row.declared_value ≡ some entry.value)
      × (row.provenance ≡ SettingProvenance.user)
  unfolding declared_setting
  keeps = ground arith

-- The file is newer than the VM, and the catalog entry's value is not read back as declared.
pub record AwaitsRestart (entry : IniEntry) (ctx : DeclaredContext) : Type 0 where
  pub known : KnownKey
  pub resolved : resolve_known (find_known_keys entry.key) entry.section ctx.scope ≡ some known
  pub placed : is_misplaced known entry ctx.scope ≡ false
  pub recent : too_old known.since ctx.wsl_version ≡ none
  pub newer : ctx.file_newer_than_vm ≡ true
  pub differs :
      ((observe_effective known.section known.key ctx.observations).value ≡ none)
      ⊎ ((value : Text) × ((observe_effective known.section known.key ctx.observations).value
            ≡ some value)
          × (values_match known.key entry.value value ≡ false))

-- A row keeps the key, the section and the value as the file writes them and counts as the user's,
-- whatever its verdict.
pub declared_setting-keeps :
    (entry : IniEntry) (duplicates : ℕ) (ctx : DeclaredContext)
    → let row : WslSettingInfo = (declared_setting entry duplicates ctx).0 in
      (row.key ≡ entry.key)
      × (row.section ≡ entry.section)
      × (row.scope ≡ ctx.scope)
      × (row.declared_value ≡ some entry.value)
      × (row.provenance ≡ SettingProvenance.user)
declared_setting-keeps = keeps
