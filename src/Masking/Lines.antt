-- ===== src/Masking/Lines.antt =====
-- The lines of a masked text.
use wslpad.Base.{
  ends_line, ℕ, ◌≡◌, refl, sym, ap, subst, length, ◌∙◌, Bool, true, false, Text, List, [], ◌∷◌,
  ◌++◌, Option, none, some, any, any-append, append-nil, append_assoc, map, arith, Bool-cases, inl,
  inr, if◌then◌else◌, if_elim, span, starts_with, drop, is_space, lit, is_empty, not, ◌&&◌, ◌==◌,
  ==_iff,
}
use wslpad.Masking.{
  masked_value, is_secret_name, is_name_unit, is_name_start, after_name, named_value, with_prefix,
  after_export, either, exported, env_assignment, masked_groups, mask_line, mask_from,
}

-- A text that is one line.
abbrev pub Flat : Text → Type 0
Flat line = any ends_line line ≡ false

-- The lines of a text, without their ends.
unfoldable pub lines_from : Text → Text → List Text
lines_from line [] = line ∷ []
lines_from line (c ∷ s) =
    let next = lines_from [] s in
    let more = lines_from (line ++ c ∷ []) s in if ends_line c then line ∷ next else more

pub append-span : (p : ℕ → Bool) (s : Text) → (span p s).0 ++ (span p s).1 ≡ s
unfolding span
append-span p [] = refl
append-span p (c ∷ s) = ground (arith, append-span p s)

-- The groups are where they are said to be.
abbrev pub Splits : Text → Option (Text × Text × Text) → Type 0
Splits line none = Unit
Splits line (some (prefix, name, value)) = line ≡ prefix ++ (name ++ b'=' ∷ value)

abbrev NameSplits : Text → Option (Text × Text) → Type 0
NameSplits s none = Unit
NameSplits s (some (name, value)) = s ≡ name ++ b'=' ∷ value

after_name-NameSplits : (name rest : Text) → NameSplits (name ++ rest) (after_name (name, rest))
after_name-NameSplits name [] = tt
after_name-NameSplits name (c ∷ value) =
    if_elim (NameSplits (name ++ c ∷ value)) (c == b'=')
      (λ e. ap (λ d. name ++ d ∷ value) ((==_iff c b'=').0 e)) (λ _. tt)

named_value-NameSplits : (s : Text) → NameSplits s (named_value s)
named_value-NameSplits [] = tt
named_value-NameSplits (c ∷ s) =
    if_elim (NameSplits (c ∷ s)) (is_name_start c)
      (λ _.
        subst (λ t. NameSplits t (after_name (span is_name_unit (c ∷ s))))
          (append-span is_name_unit (c ∷ s))
          (after_name-NameSplits (span is_name_unit (c ∷ s)).0 (span is_name_unit (c ∷ s)).1))
      (λ _. tt)

with_prefix-Splits :
    (line prefix s : Text) (found : Option (Text × Text))
    → line ≡ prefix ++ s
    → NameSplits s found
    → Splits line (with_prefix prefix found)
with_prefix-Splits line prefix s none e h = tt
with_prefix-Splits line prefix s (some (name, value)) e h = e ∙ ap (λ t. prefix ++ t) h

either-Splits :
    (line : Text) (a b : Option (Text × Text × Text))
    → Splits line a
    → Splits line b
    → Splits line (either a b)
either-Splits line (some a) b h k = h
either-Splits line none b h k = k

starts_with-splits : (s p : Text) → starts_with s p ≡ true → s ≡ p ++ drop (length p) s
unfolding starts_with
starts_with-splits s [] h = refl
starts_with-splits [] (c ∷ p) h = cc
starts_with-splits (d ∷ s) (c ∷ p) h = ground (arith, starts_with-splits s p)

abbrev WordSplits : Text → Option (Text × Text) → Type 0
WordSplits s none = Unit
WordSplits s (some (word, rest)) = s ≡ word ++ rest

after_export-WordSplits : (s : Text) → WordSplits s (after_export s)
unfolding lit
after_export-WordSplits s =
    let spaces = span is_space (drop 6 s) in
    if_elim (WordSplits s) (starts_with s (lit "export") && not (is_empty spaces.0))
      (λ e.
        starts_with-splits s (lit "export") (ground arith)
        ∙ (ap (λ t. lit "export" ++ t) (sym (append-span is_space (drop 6 s)))
            ∙ sym (append_assoc (lit "export") spaces.0 spaces.1)))
      (λ _. tt)

exported-Splits :
    (line spaces s : Text) (found : Option (Text × Text))
    → line ≡ spaces ++ s
    → WordSplits s found
    → Splits line (exported spaces found)
exported-Splits line spaces s none e h = tt
exported-Splits line spaces s (some (word, rest)) e h =
    with_prefix-Splits line (spaces ++ word) rest (named_value rest)
      (e ∙ (ap (λ t. spaces ++ t) h ∙ sym (append_assoc spaces word rest)))
      (named_value-NameSplits rest)

pub env_assignment-Splits : (line : Text) → Splits line (env_assignment line)
unfolding env_assignment
env_assignment-Splits line =
    let spaces = span is_space line in
    let e : line ≡ spaces.0 ++ spaces.1 = sym (append-span is_space line) in
    either-Splits line (exported spaces.0 (after_export spaces.1))
      (with_prefix spaces.0 (named_value spaces.1))
      (exported-Splits line spaces.0 spaces.1 (after_export spaces.1) e
        (after_export-WordSplits spaces.1))
      (with_prefix-Splits line spaces.0 spaces.1 (named_value spaces.1) e
        (named_value-NameSplits spaces.1))

-- Masking a line leaves one line.
masked_groups-Flat :
    (line : Text) (groups : Option (Text × Text × Text))
    → Splits line groups
    → Flat line
    → Flat (masked_groups line groups)
unfolding lit
masked_groups-Flat line none e h = h
masked_groups-Flat line (some (prefix, name, value)) e h =
    if_elim Flat (is_secret_name name)
      (λ _. ground (
        arith,
        ap (any ends_line) e,
        any-append ends_line prefix (name ++ b'=' ∷ value),
        any-append ends_line name (b'=' ∷ value),
        any-append ends_line prefix (name ++ b'=' ∷ masked_value),
        any-append ends_line name (b'=' ∷ masked_value),
      ))
      (λ _. h)

pub mask_line-Flat : (line : Text) → Flat line → Flat (mask_line line)
unfolding mask_line
mask_line-Flat line h = masked_groups-Flat line (env_assignment line) (env_assignment-Splits line) h

lines_from-end :
    (line s : Text) (c : ℕ) (rest : Text)
    → Flat s
    → ends_line c ≡ true
    → lines_from line (s ++ c ∷ rest) ≡ (line ++ s) ∷ lines_from [] rest
unfolding lines_from
lines_from-end line [] c rest h e = ground (arith, append-nil line)
lines_from-end line (d ∷ s) c rest h e =
    ground (arith, lines_from-end (line ++ d ∷ []) s c rest, append_assoc line (d ∷ []) s)

lines_from-one : (line s : Text) → Flat s → lines_from line s ≡ (line ++ s) ∷ []
unfolding lines_from
lines_from-one line [] h = ap (λ t. t ∷ []) (sym (append-nil line))
lines_from-one line (d ∷ s) h =
    ground (arith, lines_from-one (line ++ d ∷ []) s, append_assoc line (d ∷ []) s)

-- The lines of the masked text are the masked lines.
pub lines_from-mask_from :
    (line s : Text)
    → Flat line
    → lines_from [] (mask_from line s) ≡ map mask_line (lines_from line s)
unfolding mask_from lines_from
lines_from-mask_from line [] h = lines_from-one [] (mask_line line) (mask_line-Flat line h)
lines_from-mask_from line (c ∷ s) h = elim (Bool-cases (ends_line c)) [
  | inl e ↦ ground (
    arith,
    lines_from-end [] (mask_line line) c (mask_from [] s) (mask_line-Flat line h) e,
    lines_from-mask_from [] s refl,
  )
  | inr e ↦
      let longer : Flat (line ++ c ∷ []) = ground (arith, any-append ends_line line (c ∷ [])) in
      ground (arith, lines_from-mask_from (line ++ c ∷ []) s longer)
]
