-- ===== src/WslConfig/Reconcile/Complete.antt =====
-- The table leaves nothing out.
use wslpad.Base.{
  any-append, ◌++◌, ℕ, ◌≡◌, ◌⊎◌, inl, inr, refl, sym, ap, ◌∙◌, true, false, Bool-cases,
  Option-cases, Text, List, [], ◌∷◌, Option, none, some, arith, In, In-append, any, map, same_iff,
}
use wslpad.Base.Int.{ℤ, pos}
use wslpad.Settings.{Scope, WslSettingInfo, windows, linux}
use wslpad.WslConfig.Ini.{IniEntry}
use wslpad.WslConfig.Catalog.{KnownKey, known_keys, find_known_keys}
use wslpad.WslConfig.Observe.{WslObservations}
use wslpad.WslConfig.Versions.{lt_ℤ}
use wslpad.WslConfig.Reconcile.{
  ReconcileInput, DeclaredContext, resolve_known, declared_setting, collapse_duplicates,
}
use wslpad.WslConfig.Distance.{same_scope}
use wslpad.WslConfig.Reconcile.Table.{
  default_setting, declared_rows, default_rows, same_known, covers, compare_settings,
  insert_setting, sort_settings, all_declared, unsorted, context, reconcile_settings,
}

module _ (locale_compare : Text → Text → ℤ) where
  insert_setting-In :
      (r a : WslSettingInfo) (rows : List WslSettingInfo)
      → In r (a ∷ rows)
      → In r (insert_setting locale_compare a rows)
  unfolding insert_setting
  insert_setting-In r a [] m = m
  insert_setting-In r a (b ∷ rest) m =
      elim (Bool-cases (lt_ℤ (pos 0) (compare_settings locale_compare a b))) [
        | inl h ↦ rw h (elim m [
          | inl e ↦ inr (insert_setting-In r a rest (inl e))
          | inr (inl e) ↦ inl e
          | inr (inr k) ↦ inr (insert_setting-In r a rest (inr k))
        ])
        | inr h ↦ rw h m
      ]

  sort_settings-In :
      (r : WslSettingInfo) (rows : List WslSettingInfo)
      → In r rows
      → In r (sort_settings locale_compare rows)
  unfolding sort_settings
  sort_settings-In r [] m = m
  sort_settings-In r (a ∷ rows) (inl e) = insert_setting-In r a _ (inl e)
  sort_settings-In r (a ∷ rows) (inr m) = insert_setting-In r a _ (inr (sort_settings-In r rows m))

covered_of :
    (entry : IniEntry) (n : ℕ) (ctx : DeclaredContext) (known : KnownKey)
    → (declared_setting entry n ctx).1 ≡ some known
    → resolve_known (find_known_keys entry.key) entry.section ctx.scope ≡ some known
unfolding declared_setting
covered_of entry n ctx known e =
    elim (Option-cases (resolve_known (find_known_keys entry.key) entry.section ctx.scope)) [
      | inl f ↦ ground arith
      | inr (k, f) ↦ f ∙ ground arith
    ]

same_scope-≡ : (a b : Scope) → same_scope a b ≡ true → a ≡ b
same_scope-≡ windows windows h = refl
same_scope-≡ windows linux h = cc
same_scope-≡ linux windows h = cc
same_scope-≡ linux linux h = refl

-- A file declares the documented setting: one of its entries, counted with its repetitions, is
-- attributed to that setting, to its section and to its file, and the row is the judgment of it.
pub record Declares (known : KnownKey) (ctx : DeclaredContext) (entries : List (IniEntry × ℕ))
    (row : WslSettingInfo) : Type 0 where
  pub entry : IniEntry
  pub count : ℕ
  pub declared : In (entry, count) entries
  pub covered : KnownKey
  pub resolved : resolve_known (find_known_keys entry.key) entry.section ctx.scope ≡ some covered
  pub section : covered.section ≡ known.section
  pub key : covered.key ≡ known.key
  pub scope : covered.scope ≡ known.scope
  pub judged : row ≡ (declared_setting entry count ctx).0

later_Declares :
    {known : KnownKey} {ctx : DeclaredContext} {entries : List (IniEntry × ℕ)}
    {row : WslSettingInfo} (first : IniEntry × ℕ)
    → Declares known ctx entries row
    → Declares known ctx (first ∷ entries) row
later_Declares first d = record {
  entry = d.entry;
  count = d.count;
  declared = inr d.declared;
  covered = d.covered;
  resolved = d.resolved;
  section = d.section;
  key = d.key;
  scope = d.scope;
  judged = d.judged;
}

covers-known :
    (known : KnownKey) (row : WslSettingInfo) (chosen : Option KnownKey)
    → covers known (row, chosen) ≡ true
    → (k : KnownKey) × (chosen ≡ some k) × (same_known known k ≡ true)
covers-known known row none h = cc
covers-known known row (some k) h = (k, refl, h)

first_Declares :
    (known : KnownKey) (ctx : DeclaredContext) (entry : IniEntry) (n : ℕ)
    (entries : List (IniEntry × ℕ))
    → covers known (declared_setting entry n ctx) ≡ true
    → Declares known ctx ((entry, n) ∷ entries) (declared_setting entry n ctx).0
first_Declares known ctx entry n entries h =
    let (k, e, s) =
      covers-known known (declared_setting entry n ctx).0 (declared_setting entry n ctx).1 h in
    record {
      entry = entry;
      count = n;
      declared = inl refl;
      covered = k;
      resolved = covered_of entry n ctx k e;
      section = sym ((same_iff known.section k.section).0 (ground arith));
      key = sym ((same_iff known.key k.key).0 (ground arith));
      scope = sym (same_scope-≡ known.scope k.scope (ground arith));
      judged = refl;
    }

abbrev pub rows_of : List (WslSettingInfo × Option KnownKey) → List WslSettingInfo
rows_of declared = map (λ r. r.0) declared

covers-Declares :
    (known : KnownKey) (ctx : DeclaredContext) (entries : List (IniEntry × ℕ))
    → any (covers known) (declared_rows ctx entries) ≡ true
    → (row : WslSettingInfo) × In row (rows_of (declared_rows ctx entries))
      × Declares known ctx entries row
unfolding declared_rows
covers-Declares known ctx [] h = cc
covers-Declares known ctx ((entry, n) ∷ rest) h =
    elim (Bool-cases (covers known (declared_setting entry n ctx))) [
      | inl s ↦
          ((declared_setting entry n ctx).0, inl refl, first_Declares known ctx entry n rest s)
      | inr s ↦
          let (row, m, d) = covers-Declares known ctx rest (ground arith) in
          (row, inr m, later_Declares (entry, n) d)
    ]

default_rows-In :
    (known : KnownKey) (obs : WslObservations) (declared : List (WslSettingInfo × Option KnownKey))
    (keys : List KnownKey)
    → In known keys
    → any (covers known) declared ≡ false
    → In (default_setting known obs) (default_rows keys declared obs)
unfolding default_rows
default_rows-In known obs declared [] m e = elim m [ ]
default_rows-In known obs declared (k ∷ keys) (inl f) e = rw (← f, e) (inl refl)
default_rows-In known obs declared (k ∷ keys) (inr m) e =
    elim (Bool-cases (any (covers k) declared)) [
      | inl c ↦ rw c (default_rows-In known obs declared keys m e)
      | inr c ↦ rw c (inr (default_rows-In known obs declared keys m e))
    ]

abbrev pub windows_context : ReconcileInput → DeclaredContext
windows_context input = context input windows input.wslconfig_mtime_ms

abbrev pub linux_context : ReconcileInput → DeclaredContext
linux_context input = context input linux input.wsl_conf_mtime_ms

-- A row of the table that answers for a documented setting: its default row, or the row of an entry of
-- `.wslconfig` or of `wsl.conf` that declares it.
abbrev pub Answers : KnownKey → ReconcileInput → WslSettingInfo → Type 0
Answers known input row =
    (row ≡ default_setting known input.observations)
    ⊎ Declares known (windows_context input) (collapse_duplicates input.wslconfig_entries) row
    ⊎ Declares known (linux_context input) (collapse_duplicates input.wsl_conf_entries) row

pub rows_of-append :
    (xs ys : List (WslSettingInfo × Option KnownKey))
    → rows_of (xs ++ ys) ≡ rows_of xs ++ rows_of ys
rows_of-append [] ys = refl
rows_of-append (x ∷ xs) ys = ap (λ rows. x.0 ∷ rows) (rows_of-append xs ys)

unsorted-Answers :
    (input : ReconcileInput) (known : KnownKey)
    → In known known_keys
    → (row : WslSettingInfo) × In row (unsorted input) × Answers known input row
unsorted-Answers input known m =
    let here =
      declared_rows (windows_context input) (collapse_duplicates input.wslconfig_entries) in
    let there = declared_rows (linux_context input) (collapse_duplicates input.wsl_conf_entries) in
    let defaults = default_rows known_keys (all_declared input) input.observations in
    let both = rows_of-append here there in
    let parts = any-append (covers known) here there in
    elim (Bool-cases (any (covers known) here)) [
      | inl h ↦
          let (row, r, d) =
            covers-Declares known (windows_context input)
              (collapse_duplicates input.wslconfig_entries) h in
          (
            row,
            In-append row (rows_of (here ++ there)) defaults
                (inl (rw both (In-append row (rows_of here) (rows_of there) (inl r)))),
            inr (inl d),
          )
      | inr h ↦ elim (Bool-cases (any (covers known) there)) [
        | inl k ↦
            let (row, r, d) =
              covers-Declares known (linux_context input)
                (collapse_duplicates input.wsl_conf_entries) k in
            (
              row,
              In-append row (rows_of (here ++ there)) defaults
                  (inl (rw both (In-append row (rows_of here) (rows_of there) (inr r)))),
              inr (inr d),
            )
        | inr k ↦ (
          default_setting known input.observations,
          In-append _ (rows_of (here ++ there)) defaults (
              inr (
                default_rows-In known input.observations (all_declared input) known_keys m
                  (parts ∙ rw (h, k) refl))),
          inl refl,
        )
      ]
    ]

-- Every documented setting has a row in the table: its default row, or the row of an entry of one of
-- the two files that is attributed to the setting of that section, key and file.
pub reconcile_settings_complete :
    (locale_compare : Text → Text → ℤ) (input : ReconcileInput) (known : KnownKey)
    → In known known_keys
    → (row : WslSettingInfo) × In row (reconcile_settings locale_compare input).settings
      × Answers known input row
unfolding reconcile_settings
reconcile_settings_complete locale_compare input known m =
    let (row, r, a) = unsorted-Answers input known m in
    (row, sort_settings-In locale_compare row (unsorted input) r, a)
