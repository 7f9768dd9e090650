-- ===== src/WslConfig/Reconcile/Rows.antt =====
-- Which rows the table has, and how often.
use mathlib.Core.List.{Perm}
use wslpad.Base.{
  ℕ, ◌≡◌, refl, sym, ap, ap₂, ◌∙◌, Bool, false, not, ◌&&◌, ◌||◌, Bool-cases, Option-cases, inl, inr,
  Text, List, [], ◌∷◌, ◌++◌, Option, none, some, arith, any, any-append, map, same, select, subst,
}
use wslpad.Base.Int.{ℤ}
use wslpad.Settings.{WslSettingInfo}
use wslpad.WslConfig.Ini.{IniEntry}
use wslpad.WslConfig.Catalog.{KnownKey, known_keys, find_known_keys}
use wslpad.WslConfig.Distance.{same_scope}
use wslpad.WslConfig.Reconcile.{
  ReconcileInput, DeclaredContext, resolve_known, declared_setting, collapse_duplicates,
}
use wslpad.WslConfig.Reconcile.Table.{
  default_setting, declared_rows, default_rows, covers, sort_settings, all_declared, unsorted,
  reconcile_settings,
}
use wslpad.WslConfig.Reconcile.Sorted.{IsOrdered, sort_settings-Perm, sort_settings-IsOrdered}
use wslpad.WslConfig.Reconcile.Complete.{rows_of, rows_of-append, windows_context, linux_context}

-- The setting that an entry of a file is attributed to is this one: section, key and file agree.
abbrev is_setting : KnownKey → Option KnownKey → Bool
is_setting known none = false
is_setting known (some k) =
    same known.section k.section && (same known.key k.key && same_scope known.scope k.scope)

-- Some entry of the file is attributed to the setting.
abbrev pub is_declared : KnownKey → DeclaredContext → List (IniEntry × ℕ) → Bool
is_declared known ctx entries =
    any (λ e. is_setting known (resolve_known (find_known_keys e.0.key) e.0.section ctx.scope))
      entries

-- The judgments of the entries of a file, one row each.
abbrev pub judged : DeclaredContext → List (IniEntry × ℕ) → List WslSettingInfo
judged ctx entries = map (λ e. (declared_setting e.0 e.1 ctx).0) entries

declared_setting-attributed :
    (entry : IniEntry) (n : ℕ) (ctx : DeclaredContext)
    → (declared_setting entry n ctx).1
      ≡ resolve_known (find_known_keys entry.key) entry.section ctx.scope
unfolding declared_setting
declared_setting-attributed entry n ctx =
    elim (Option-cases (resolve_known (find_known_keys entry.key) entry.section ctx.scope)) [
      | inl e ↦ ground arith
      | inr (k, e) ↦ ground arith
    ]

covers-is_setting :
    (known : KnownKey) (row : WslSettingInfo) (k : Option KnownKey)
    → covers known (row, k) ≡ is_setting known k
covers-is_setting known row none = refl
covers-is_setting known row (some k) = ground arith

any-is_declared :
    (known : KnownKey) (ctx : DeclaredContext) (entries : List (IniEntry × ℕ))
    → any (covers known) (declared_rows ctx entries) ≡ is_declared known ctx entries
unfolding declared_rows
any-is_declared known ctx [] = refl
any-is_declared known ctx ((entry, n) ∷ rest) =
    ap₂ (λ a b. a || b)
      (covers-is_setting known (declared_setting entry n ctx).0 (declared_setting entry n ctx).1
        ∙ ap (is_setting known) (declared_setting-attributed entry n ctx))
      (any-is_declared known ctx rest)

rows_of-judged :
    (ctx : DeclaredContext) (entries : List (IniEntry × ℕ))
    → rows_of (declared_rows ctx entries) ≡ judged ctx entries
unfolding declared_rows
rows_of-judged ctx [] = refl
rows_of-judged ctx ((entry, n) ∷ rest) =
    ap (λ rows. (declared_setting entry n ctx).0 ∷ rows) (rows_of-judged ctx rest)

-- The documented settings that neither file declares.
abbrev pub is_left : ReconcileInput → KnownKey → Bool
is_left input known = not (
    is_declared known (windows_context input) (collapse_duplicates input.wslconfig_entries)
    || is_declared known (linux_context input) (collapse_duplicates input.wsl_conf_entries))

left-covers :
    (input : ReconcileInput) (known : KnownKey)
    → is_left input known ≡ not (any (covers known) (all_declared input))
left-covers input known =
    let here =
      declared_rows (windows_context input) (collapse_duplicates input.wslconfig_entries) in
    let there = declared_rows (linux_context input) (collapse_duplicates input.wsl_conf_entries) in
    ap not (
      sym (
        any-append (covers known) here there
        ∙ ap₂ (λ a b. a || b)
            (any-is_declared known (windows_context input)
              (collapse_duplicates input.wslconfig_entries))
            (any-is_declared known (linux_context input)
              (collapse_duplicates input.wsl_conf_entries))))

default_rows-left :
    (input : ReconcileInput) (keys : List KnownKey)
    → default_rows keys (all_declared input) input.observations
      ≡ map (λ k. default_setting k input.observations) (select (is_left input) keys)
unfolding default_rows
default_rows-left input [] = refl
default_rows-left input (known ∷ keys) =
    let rest = default_rows-left input keys in
    elim (Bool-cases (any (covers known) (all_declared input))) [
      | inl h ↦ rw (h, left-covers input known ∙ ap not h) rest
      | inr h ↦ rw (h, left-covers input known ∙ ap not h, rest) refl
    ]

abbrev pub expected : ReconcileInput → List WslSettingInfo
expected input =
    (judged (windows_context input) (collapse_duplicates input.wslconfig_entries)
      ++ judged (linux_context input) (collapse_duplicates input.wsl_conf_entries))
    ++ map (λ k. default_setting k input.observations) (select (is_left input) known_keys)

unsorted-expected : (input : ReconcileInput) → unsorted input ≡ expected input
unsorted-expected input =
    ap₂ (λ xs ys. xs ++ ys)
      (rows_of-append
          (declared_rows (windows_context input) (collapse_duplicates input.wslconfig_entries))
          (declared_rows (linux_context input) (collapse_duplicates input.wsl_conf_entries))
        ∙ ap₂ (λ xs ys. xs ++ ys)
            (rows_of-judged (windows_context input) (collapse_duplicates input.wslconfig_entries))
            (rows_of-judged (linux_context input) (collapse_duplicates input.wsl_conf_entries)))
      (default_rows-left input known_keys)

-- The table has just these rows, each as often as it is listed, whatever the host's collation is: the
-- judgment of each entry of the two files, repetitions of a key taken together, and the default row of
-- each documented setting to which no entry of either file is attributed, by section, key and file.
-- And the rows of settings of `.wslconfig` come before those of `wsl.conf`.
pub reconcile_settings-rows :
    (locale_compare : Text → Text → ℤ) (input : ReconcileInput)
    → Perm (reconcile_settings locale_compare input).settings (expected input)
      × IsOrdered (reconcile_settings locale_compare input).settings
unfolding reconcile_settings
reconcile_settings-rows locale_compare input = (
  subst (Perm (sort_settings locale_compare (unsorted input))) (unsorted-expected input)
      (sort_settings-Perm locale_compare (unsorted input)),
  sort_settings-IsOrdered locale_compare (unsorted input),
)
