-- ===== src/WslConfig/Ini/Lines.antt =====
-- Which lines of a file the reader in src/main/wsl/wsl-config.ts turns into entries.
use wslpad.Base.{
  ℕ, zero, suc, ◌+◌, ◌≡◌, refl, ap, ◌∙◌, sym, subst, true, Text, List, [], ◌∷◌, Option, none, some,
  arith, get_elem?, All, is_empty, trim, to_lower, split, if◌then◌else◌, if_elim,
}
use wslpad.WslConfig.Ini.{
  IniEntry, content, header, assignment, emit, parse_lines, parse_ini, drop_mark,
}

-- The section behind a line.
abbrev pub next_section : Text → Option Text → Text
next_section section none = section
next_section section (some name) = to_lower (trim name)

-- The section in force at line `i`: that of the nearest header above it.
unfoldable pub section_at : Text → List Text → ℕ → Text
section_at section [] i = section
section_at section (raw ∷ lines) zero = section
section_at section (raw ∷ lines) (suc i) =
    section_at (next_section section (header (content raw))) lines i

-- The entry is the assignment on one of the lines, counted from `n`, in the section in force there.
pub record IsRead (section : Text) (n : ℕ) (lines : List Text) (e : IniEntry) : Type 0 where
  pub index : ℕ
  pub raw : Text
  pub line : e.line ≡ n + index
  pub at : get_elem? lines index ≡ some raw
  pub assigned : assignment (content raw) ≡ some (e.key, e.value)
  pub section_in_force : e.section ≡ section_at section lines index

shift-IsRead :
    (section raw : Text) (n : ℕ) (lines : List Text) (h : Option Text) (e : IniEntry)
    → header (content raw) ≡ h
    → IsRead (next_section section h) (suc n) lines e
    → IsRead section n (raw ∷ lines) e
unfolding section_at
shift-IsRead section raw n lines h e found r = record {
  index = suc r.index;
  raw = r.raw;
  line = omega (arith, r.line);
  at = r.at;
  assigned = r.assigned;
  section_in_force =
      r.section_in_force ∙ ap (λ o. section_at (next_section section o) lines r.index) (sym found);
}

shift-All :
    (section raw : Text) (n : ℕ) (lines : List Text) (h : Option Text) (es : List IniEntry)
    → header (content raw) ≡ h
    → All (IsRead (next_section section h) (suc n) lines) es
    → All (IsRead section n (raw ∷ lines)) es
shift-All section raw n lines h [] found r = tt
shift-All section raw n lines h (e ∷ es) found (r, rs) =
    (shift-IsRead section raw n lines h e found r, shift-All section raw n lines h es found rs)

pub empty-header : (line : Text) → is_empty line ≡ true → header line ≡ none
unfolding header
empty-header [] h = refl
empty-header (c ∷ s) h = cc

emit-IsRead :
    (section raw : Text) (n : ℕ) (lines : List Text) (a : Option (Text × Text)) (es : List IniEntry)
    → assignment (content raw) ≡ a
    → All (IsRead section n (raw ∷ lines)) es
    → All (IsRead section n (raw ∷ lines)) (emit section n a es)
unfolding section_at
emit-IsRead section raw n lines none es found rs = rs
emit-IsRead section raw n lines (some (key, value)) es found rs = (
  record {
    index = 0;
    raw = raw;
    line = omega arith;
    at = refl;
    assigned = found;
    section_in_force = refl;
  },
  rs,
)

-- The entries of a line that is not empty.
abbrev pub of_line : Text → ℕ → List Text → Option Text → Option (Text × Text) → List IniEntry
of_line section n lines (some name) a = parse_lines (to_lower (trim name)) (suc n) lines
of_line section n lines none a = emit section n a (parse_lines section (suc n) lines)

split_header :
    (section : Text) (n : ℕ) (lines : List Text) (h : Option Text) (a : Option (Text × Text))
    → (elim h [
      | some name ↦ parse_lines (to_lower (trim name)) (suc n) lines
      | none ↦ emit section n a (parse_lines section (suc n) lines)
    ])
      ≡ of_line section n lines h a
split_header section n lines none a = refl
split_header section n lines (some name) a = refl

pub parse_lines-cons :
    (section raw : Text) (n : ℕ) (lines : List Text)
    → parse_lines section n (raw ∷ lines) ≡ (
        if is_empty (content raw)
        then parse_lines section (suc n) lines
        else of_line section n lines (header (content raw)) (assignment (content raw)))
unfolding parse_lines
parse_lines-cons section raw n lines =
    ap (λ es. if is_empty (content raw) then parse_lines section (suc n) lines else es)
      (split_header section n lines (header (content raw)) (assignment (content raw)))

of_line-IsRead :
    (section raw : Text) (n : ℕ) (lines : List Text) (h : Option Text)
    → ((s : Text) → All (IsRead s (suc n) lines) (parse_lines s (suc n) lines))
    → header (content raw) ≡ h
    → All (IsRead section n (raw ∷ lines)) (of_line section n lines h (assignment (content raw)))
of_line-IsRead section raw n lines (some name) later found =
    shift-All section raw n lines (some name) _ found (later (to_lower (trim name)))
of_line-IsRead section raw n lines none later found =
    emit-IsRead section raw n lines (assignment (content raw)) _ refl
      (shift-All section raw n lines none _ found (later section))

parse_lines-IsRead :
    (section : Text) (n : ℕ) (lines : List Text)
    → All (IsRead section n lines) (parse_lines section n lines)
unfolding parse_lines
parse_lines-IsRead section n [] = tt
parse_lines-IsRead section n (raw ∷ lines) =
    let later : (s : Text) → All (IsRead s (suc n) lines) (parse_lines s (suc n) lines) =
      λ s. parse_lines-IsRead s (suc n) lines in
    subst (All (IsRead section n (raw ∷ lines))) (sym (parse_lines-cons section raw n lines)) (
      if_elim (All (IsRead section n (raw ∷ lines))) (is_empty (content raw))
        (λ blank.
          shift-All section raw n lines none _ (empty-header (content raw) blank) (later section))
        (λ _. of_line-IsRead section raw n lines (header (content raw)) later refl))

-- Every entry read from a file is the assignment that stands on the line with the entry's number, and
-- its section is that of the nearest header above that line, or empty if there is none.
pub parse_ini-IsRead :
    (text : Text) → All (IsRead [] 1 (split 10 (drop_mark text))) (parse_ini text)
unfolding parse_ini
parse_ini-IsRead text = parse_lines-IsRead [] 1 (split 10 (drop_mark text))
