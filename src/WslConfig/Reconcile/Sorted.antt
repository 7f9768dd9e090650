-- ===== src/WslConfig/Reconcile/Sorted.antt =====
-- The order of the table.
use mathlib.Core.List.{Perm}
use mathlib.Core.List.Perm
use wslpad.Base.{
  ◌≡◌, refl, sym, ap, ◌∙◌, true, false, Bool-cases, inl, inr, Text, List, [], ◌∷◌, All, if_elim,
  ◌⊎◌,
}
use wslpad.Base.Int.{ℤ, pos, negsuc}
use wslpad.Settings.{Scope, WslSettingInfo, windows, linux}
use wslpad.WslConfig.Versions.{lt_ℤ}
use wslpad.WslConfig.Reconcile.Table.{compare_settings, insert_setting, sort_settings}

-- The rows of `.wslconfig`'s settings come before those of `wsl.conf`'s.
abbrev pub IsOrdered : List WslSettingInfo → Type 0
IsOrdered [] = Unit
IsOrdered (r ∷ rows) = (r.scope ≡ linux → All (λ q. q.scope ≡ linux) rows) × IsOrdered rows

Scope-cases : (s : Scope) → (s ≡ windows) ⊎ (s ≡ linux)
Scope-cases windows = inl refl
Scope-cases linux = inr refl

module _ (locale_compare : Text → Text → ℤ) where
  insert_setting-Perm :
      (a : WslSettingInfo) (rows : List WslSettingInfo)
      → Perm (insert_setting locale_compare a rows) (a ∷ rows)
  unfolding insert_setting
  insert_setting-Perm a [] = Perm.refl (a ∷ [])
  insert_setting-Perm a (b ∷ rest) =
      elim (Bool-cases (lt_ℤ (pos 0) (compare_settings locale_compare a b))) [
        | inl h ↦ rw h (Perm.trans (Perm.cons b (insert_setting-Perm a rest)) (Perm.swap a b rest))
        | inr h ↦ rw h (Perm.refl (a ∷ b ∷ rest))
      ]

  pub sort_settings-Perm :
      (rows : List WslSettingInfo) → Perm (sort_settings locale_compare rows) rows
  unfolding sort_settings
  sort_settings-Perm [] = Perm.refl []
  sort_settings-Perm (a ∷ rows) =
      Perm.trans (insert_setting-Perm a (sort_settings locale_compare rows))
        (Perm.cons a (sort_settings-Perm rows))

  compare_apart :
      (a b : WslSettingInfo)
      → (a.scope ≡ windows → b.scope ≡ linux → compare_settings locale_compare a b ≡ negsuc 0)
        × (a.scope ≡ linux → b.scope ≡ windows → compare_settings locale_compare a b ≡ pos 1)
  unfolding compare_settings
  compare_apart a b = ((λ e f. rw (e, f) refl), (λ e f. rw (e, f) refl))

  greater_scope :
      (a b : WslSettingInfo)
      → lt_ℤ (pos 0) (compare_settings locale_compare a b) ≡ true
      → b.scope ≡ linux
      → a.scope ≡ linux
  greater_scope a b h k = elim (Scope-cases a.scope) [
    | inl e ↦
        let less : false ≡ true = ap (lt_ℤ (pos 0)) (sym ((compare_apart a b).0 e k)) ∙ h in cc
    | inr e ↦ e
  ]

  other_scope :
      (a b : WslSettingInfo)
      → lt_ℤ (pos 0) (compare_settings locale_compare a b) ≡ false
      → a.scope ≡ linux
      → b.scope ≡ linux
  other_scope a b h k = elim (Scope-cases b.scope) [
    | inl e ↦
        let more : true ≡ false = ap (lt_ℤ (pos 0)) (sym ((compare_apart a b).1 k e)) ∙ h in cc
    | inr e ↦ e
  ]

  insert_setting-All :
      (P : WslSettingInfo → Type 0) (a : WslSettingInfo) (rows : List WslSettingInfo)
      → P a
      → All P rows
      → All P (insert_setting locale_compare a rows)
  unfolding insert_setting
  insert_setting-All P a [] h k = (h, tt)
  insert_setting-All P a (b ∷ rest) h (k, l) =
      if_elim (All P) (lt_ℤ (pos 0) (compare_settings locale_compare a b))
        (λ _. (k, insert_setting-All P a rest h l)) (λ _. (h, (k, l)))

  insert_setting-IsOrdered :
      (a : WslSettingInfo) (rows : List WslSettingInfo)
      → IsOrdered rows
      → IsOrdered (insert_setting locale_compare a rows)
  unfolding insert_setting
  insert_setting-IsOrdered a [] h = ((λ _. tt), tt)
  insert_setting-IsOrdered a (b ∷ rest) (h, k) =
      if_elim IsOrdered (lt_ℤ (pos 0) (compare_settings locale_compare a b))
        (λ e. (
          (λ f. insert_setting-All (λ q. q.scope ≡ linux) a rest (greater_scope a b e f) (h f)),
          insert_setting-IsOrdered a rest k,
        ))
        (λ e. ((λ f. let g = other_scope a b e f in (g, h g)), (h, k)))

  pub sort_settings-IsOrdered :
      (rows : List WslSettingInfo) → IsOrdered (sort_settings locale_compare rows)
  unfolding sort_settings
  sort_settings-IsOrdered [] = tt
  sort_settings-IsOrdered (a ∷ rows) =
      insert_setting-IsOrdered a (sort_settings locale_compare rows) (sort_settings-IsOrdered rows)
