-- ===== src/WslConfig/Ini/Found.antt =====
-- Which assignments of a file the reader in src/main/wsl/wsl-config.ts finds.
use wslpad.Base.{
  ℕ, zero, suc, ◌+◌, ◌≡◌, refl, sym, subst, false, Text, List, [], ◌∷◌, Option, none, some, arith,
  get_elem?, In, inl, inr, is_empty, split, if_elim,
}
use wslpad.WslConfig.Ini.{
  IniEntry, content, header, assignment, emit, parse_lines, parse_ini, drop_mark, cut,
}
use wslpad.WslConfig.Ini.Lines.{
  next_section, section_at, IsRead, empty-header, of_line, parse_lines-cons,
}

same_entry :
    (section key value : Text) (line : ℕ) (e : IniEntry)
    → e.section ≡ section
    → e.key ≡ key
    → e.value ≡ value
    → e.line ≡ line
    → e ≡ record { section = section; key = key; value = value; line = line }
same_entry section key value line e a b c d = cc

assignment-nonempty :
    (line : Text) (found : Text × Text) → assignment line ≡ some found → is_empty line ≡ false
unfolding assignment cut
assignment-nonempty [] found h = cc
assignment-nonempty (c ∷ s) found h = refl

In-emit :
    (section : Text) (n : ℕ) (a : Option (Text × Text)) (es : List IniEntry) (e : IniEntry)
    → In e es
    → In e (emit section n a es)
In-emit section n none es e m = m
In-emit section n (some (key, value)) es e m = inr m

In-of_line :
    (section : Text) (n : ℕ) (lines : List Text) (h : Option Text) (a : Option (Text × Text))
    (e : IniEntry)
    → In e (parse_lines (next_section section h) (suc n) lines)
    → In e (of_line section n lines h a)
In-of_line section n lines (some name) a e m = m
In-of_line section n lines none a e m = In-emit section n a _ e m

-- A line with an assignment and no header is read.
In-parse_lines :
    (section : Text) (n : ℕ) (lines : List Text) (e : IniEntry) (i : ℕ) (raw : Text)
    → e.line ≡ n + i
    → get_elem? lines i ≡ some raw
    → assignment (content raw) ≡ some (e.key, e.value)
    → e.section ≡ section_at section lines i
    → header (content raw) ≡ none
    → In e (parse_lines section n lines)
unfolding section_at
In-parse_lines section n [] e i raw line at assigned in_force plain = cc
In-parse_lines section n (raw2 ∷ lines) e zero raw line at assigned in_force plain =
    let same_raw : raw ≡ raw2 = cc in
    let assigned2 : assignment (content raw2) ≡ some (e.key, e.value) =
      subst (λ r. assignment (content r) ≡ some (e.key, e.value)) same_raw assigned in
    let plain2 : header (content raw2) ≡ none =
      subst (λ r. header (content r) ≡ none) same_raw plain in
    let full = assignment-nonempty (content raw2) (e.key, e.value) assigned2 in
    subst (In e) (sym (parse_lines-cons section raw2 n lines)) (
      if_elim (In e) (is_empty (content raw2)) (λ blank. absurd (ground (arith, blank, full)))
        (λ _.
          subst (λ h. In e (of_line section n lines h (assignment (content raw2)))) (sym plain2)
            (subst (λ a. In e (emit section n a (parse_lines section (suc n) lines)))
              (sym assigned2)
              (inl
                (same_entry section e.key e.value n e in_force refl refl (omega (arith, line)))))))
In-parse_lines section n (raw2 ∷ lines) e (suc i) raw line at assigned in_force plain =
    let later =
      In-parse_lines (next_section section (header (content raw2))) (suc n) lines e i raw
        (omega (arith, line)) at assigned in_force plain in
    subst (In e) (sym (parse_lines-cons section raw2 n lines)) (
      if_elim (In e) (is_empty (content raw2))
        (λ blank.
          subst (λ h. In e (parse_lines (next_section section h) (suc n) lines))
            (empty-header (content raw2) blank) later)
        (λ _.
          In-of_line section n lines (header (content raw2)) (assignment (content raw2)) e later))

-- Every assignment of a file is read as an entry, with the number of its line and the section of the
-- nearest header above it, if its line is not itself a header.
pub IsRead-In :
    (text : Text) (e : IniEntry) (r : IsRead [] 1 (split 10 (drop_mark text)) e)
    → header (content r.raw) ≡ none
    → In e (parse_ini text)
unfolding parse_ini
IsRead-In text e r plain =
    In-parse_lines [] 1 (split 10 (drop_mark text)) e r.index r.raw r.line r.at r.assigned
      r.section_in_force plain
