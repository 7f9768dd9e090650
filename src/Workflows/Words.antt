-- ===== src/Workflows/Words.antt =====
-- What the checks of a name and of a path promise of the text that they let through.
use wslpad.Base.{
  ℕ, suc, ◌≡◌, refl, ap, Bool, true, false, ◌&&◌, Text, [], ◌∷◌, none, any, drop, drop_tail, every,
  has, is_empty, trim, if◌then◌else◌, ◌==◌, arith, Bool-cases, inl, inr,
}
use wslpad.Base.Results.{ok}
use wslpad.Workflows.{
  is_name_unit, is_distro, is_invalid_unit, is_on_drive, distro_name_error, windows_path_error,
  checked_name, checked_path, refused_by,
}
use wslpad.Workflows.Arguments.{rest_slashes, IsWord}

abbrev pub is_slash : ℕ → Bool
is_slash c = c == b'\\'

every-IsWord : (v : Text) → every is_name_unit v ≡ true → IsWord v
every-IsWord [] h = (refl, refl)
every-IsWord (c ∷ v) h =
    let rest = every-IsWord v (ground (arith, h)) in
    let slash : (c == b'\\') ≡ false = ground (arith, h) in
    let mark : (c == b'"') ≡ false = ground (arith, h) in (rw mark rest.0, rw slash rest.1)

is_distro-IsWord : (v : Text) → is_distro v ≡ true → IsWord v
is_distro-IsWord [] h = (refl, refl)
is_distro-IsWord (c ∷ v) h = every-IsWord (c ∷ v) (ground (arith, h))

ends_cons :
    (c : ℕ) (t : Text) (pending : ℕ)
    → ((before : ℕ) → is_empty t ≡ false → rest_slashes before t ≡ 0)
    → is_empty (if is_slash c && is_empty t then [] else c ∷ t) ≡ false
    → rest_slashes pending (if is_slash c && is_empty t then [] else c ∷ t) ≡ 0
ends_cons c [] pending ends h = elim (Bool-cases (is_slash c)) [
  | inl e ↦ ground arith
  | inr n ↦ rw (n, n) refl
]
ends_cons c (d ∷ t) pending ends h = elim (Bool-cases (is_slash c)) [
  | inl e ↦ rw (e, e) (ends (suc pending) refl)
  | inr n ↦ rw (n, n) (ends 0 refl)
]

drop_tail-ends :
    (s : Text) (pending : ℕ)
    → is_empty (drop_tail is_slash s) ≡ false
    → rest_slashes pending (drop_tail is_slash s) ≡ 0
unfolding drop_tail
drop_tail-ends [] pending h = ground arith
drop_tail-ends (c ∷ s) pending h = ends_cons c (drop_tail is_slash s) pending (drop_tail-ends s) h

nothing : (t : Text) → is_empty t ≡ true → rest_slashes 0 t ≡ 0
nothing [] h = refl
nothing (c ∷ t) h = ground arith

drop_tail-free : (s : Text) → has b'"' s ≡ false → has b'"' (drop_tail is_slash s) ≡ false
unfolding drop_tail
drop_tail-free [] h = refl
drop_tail-free (c ∷ s) h = ground (arith, drop_tail-free s)

drop_tail-IsWord : (s : Text) → has b'"' s ≡ false → IsWord (drop_tail is_slash s)
drop_tail-IsWord s h = (
  drop_tail-free s h,
  elim (Bool-cases (is_empty (drop_tail is_slash s))) [
    | inl e ↦ nothing (drop_tail is_slash s) e
    | inr n ↦ drop_tail-ends s 0 n
  ],
)

valid_units : (s : Text) → any is_invalid_unit s ≡ false → has b'"' s ≡ false
valid_units [] h = refl
valid_units (c ∷ s) h = ground (arith, valid_units s)

on_drive_free :
    (s : Text) → is_on_drive s ≡ true → any is_invalid_unit (drop 3 s) ≡ false → has b'"' s ≡ false
on_drive_free [] h k = refl
on_drive_free (c ∷ []) h k = ground arith
on_drive_free (c ∷ d ∷ []) h k = ground arith
on_drive_free (c ∷ d ∷ e ∷ s) h k = ground (arith, valid_units s k)

pub checked_name-IsWord :
    (name : Text)
    → distro_name_error name ≡ none
    → (checked_name name ≡ ok (trim name)) × IsWord (trim name)
unfolding distro_name_error checked_name
checked_name-IsWord name h =
    (ap (λ e. refused_by e (trim name)) h, is_distro-IsWord (trim name) (ground arith))

pub checked_path-IsWord :
    (path : Text) (require_tar : Bool)
    → windows_path_error path require_tar ≡ none
    → (checked_path path require_tar ≡ ok (drop_tail is_slash (trim path)))
      × IsWord (drop_tail is_slash (trim path))
unfolding windows_path_error checked_path
checked_path-IsWord path require_tar h = (
  ap (λ e. refused_by e (drop_tail is_slash (trim path))) h,
  drop_tail-IsWord (trim path) (on_drive_free (trim path) (ground arith) (ground arith)),
)
