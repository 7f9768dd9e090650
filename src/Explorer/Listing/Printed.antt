-- ===== src/Explorer/Listing/Printed.antt =====
-- What `find` prints is read back: the lines of a listing give the entries that they were printed for.
use wslpad.Base.{
  ℕ, ◌≡◌, refl, ap, ◌∙◌, true, false, Text, lit, List, [], ◌∷◌, ◌++◌, Option, none, some, All,
  arith, map, every, has, is_digit, is_empty, is_number, is_number-show, is_space, join, read,
  read-show, show, split, trim_start,
}
use wslpad.Base.Int.{ℤ, pos}
use wslpad.Base.Results.{ok}
use wslpad.Base.Splits.{split-append, split-free, join-split, is_empty-split}
use wslpad.WslConfig.Versions.{parse_int, leading_digits}
use wslpad.Explorer.Listing.{
  FileEntryType, file, directory, symlink, other, FileEntry, ParsedFindLine, type_of, epoch_to_iso,
  drop_last, or_null, is_link, tail_fields, from_parts, parse_find_line, entries_of_lines, entry_in,
  parse_find_listing,
}

-- A directory's entry as find has it: its kind is the letter of `%y`, and the stamp of `%T@` stands for
-- the instant.
pub record Raw : Type 0 where
  pub kind : Text
  pub octal : Text
  pub owner : Text
  pub group : Text
  pub size : ℕ
  pub stamp : Text
  pub instant : Option ℤ
  pub name : Text
  pub target : Text

-- `FIND_FMT` without its end of line.
abbrev pub print_raw : Raw → Text
print_raw r =
    r.kind
    ++ b'|'
      ∷ (r.octal
          ++ b'|'
            ∷ (r.owner
                ++ b'|'
                  ∷ (r.group
                      ++ b'|'
                        ∷ (show r.size ++ b'|' ∷ (r.stamp ++ b'|' ∷ (r.name ++ b'|' ∷ r.target))))))

-- Only a link has a target, and its name has no bar; any other name may have bars.
abbrev pub Named : FileEntryType → Text → Text → Type 0
Named symlink name target = has b'|' name ≡ false
Named _ name target = target ≡ []

pub record IsPrinted (r : Raw) : Type 0 where
  pub kind_free : has b'|' r.kind ≡ false
  pub octal_free : has b'|' r.octal ≡ false
  pub owner_free : has b'|' r.owner ≡ false
  pub group_free : has b'|' r.group ≡ false
  pub stamp_free : has b'|' r.stamp ≡ false
  pub stamped : epoch_to_iso r.stamp ≡ ok r.instant
  pub named : is_empty r.name ≡ false
  pub split_name : Named (type_of r.kind) r.name r.target
  pub one_line : has 10 (print_raw r) ≡ false

-- What the line says.
abbrev pub seen : Raw → ParsedFindLine
seen r = record {
  type = type_of r.kind;
  octal = r.octal;
  owner = r.owner;
  group = r.group;
  size = some (pos r.size);
  mtime = r.instant;
  name_field = r.name;
  link_target = or_null r.target;
}

abbrev pub print_all : List Raw → Text
print_all [] = []
print_all (r ∷ rs) = print_raw r ++ 10 ∷ print_all rs

leading_digits-number : (s : Text) → every is_digit s ≡ true → leading_digits s ≡ s
unfolding leading_digits
leading_digits-number [] h = refl
leading_digits-number (c ∷ s) h = ground (arith, leading_digits-number s)

digit_ne_space : (c : ℕ) → is_digit c ≡ true → is_space c ≡ false
unfolding is_space
digit_ne_space c h = ground arith

parse_int-number : (s : Text) → is_number s ≡ true → parse_int s ≡ some (pos (read s))
unfolding parse_int trim_start
parse_int-number [] h = cc
parse_int-number (c ∷ s) h = ground (arith, digit_ne_space c, leading_digits-number (c ∷ s) h)

has-number : (s : Text) → every is_digit s ≡ true → has b'|' s ≡ false
has-number [] h = refl
has-number (c ∷ s) h = ground (arith, has-number s)

every-number : (s : Text) → is_number s ≡ true → every is_digit s ≡ true
every-number [] h = refl
every-number (c ∷ s) h = h

is_empty-snoc : (s : Text) (c : ℕ) (t : Text) → is_empty (s ++ c ∷ t) ≡ false
is_empty-snoc [] c t = refl
is_empty-snoc (d ∷ s) c t = refl

is_empty-print_raw : (r : Raw) → is_empty (print_raw r) ≡ false
is_empty-print_raw r = is_empty-snoc r.kind b'|' _

split-field : (s t : Text) → has b'|' s ≡ false → split b'|' (s ++ b'|' ∷ t) ≡ s ∷ split b'|' t
split-field s t h =
    split-append b'|' s t ∙ ap (λ (xs : List Text). xs ++ split b'|' t) (split-free b'|' s h)

drop_last-snoc : (xs : List Text) (t : Text) → drop_last (xs ++ t ∷ []) ≡ xs
unfolding drop_last
drop_last-snoc [] t = refl
drop_last-snoc (x ∷ []) t = refl
drop_last-snoc (x ∷ y ∷ xs) t = ap (λ ys. x ∷ ys) (drop_last-snoc (y ∷ xs) t)

plain_tail :
    (type : FileEntryType) (xs : List Text)
    → is_link type ≡ false
    → is_empty xs ≡ false
    → tail_fields type (xs ++ [] ∷ []) ≡ some (join (lit "|") xs, none)
plain_tail type [] h k = cc
plain_tail type (x ∷ []) h k =
    rw h (ap (λ xs. some (join (lit "|") xs, none)) (drop_last-snoc (x ∷ []) []))
plain_tail type (x ∷ y ∷ xs) h k =
    rw h (ap (λ xs. some (join (lit "|") xs, none)) (drop_last-snoc (x ∷ y ∷ xs) []))

link_tail :
    (name : Text) (ys : List Text)
    → is_empty ys ≡ false
    → tail_fields symlink (name ∷ ys) ≡ some (name, or_null (join (lit "|") ys))
link_tail name [] h = cc
link_tail name (y ∷ ys) h = refl

plain-Named :
    (type : FileEntryType) (name target : Text)
    → is_link type ≡ false
    → target ≡ []
    → tail_fields type (split b'|' name ++ split b'|' target) ≡ some (name, or_null target)
unfolding lit split
plain-Named type name target h e = rw e (
    plain_tail type (split b'|' name) h (is_empty-split b'|' name)
    ∙ ap (λ (t : Text). some (t, none)) (join-split b'|' name))

-- The name and the target are found whatever bars they have.
tail_fields-Named :
    (type : FileEntryType) (name target : Text)
    → Named type name target
    → tail_fields type (split b'|' name ++ split b'|' target) ≡ some (name, or_null target)
unfolding lit
tail_fields-Named symlink name target h = rw (split-free b'|' name h) (
    link_tail name (split b'|' target) (is_empty-split b'|' target)
    ∙ ap (λ (t : Text). some (name, or_null t)) (join-split b'|' target))
tail_fields-Named file name target h = plain-Named file name target refl h
tail_fields-Named directory name target h = plain-Named directory name target refl h
tail_fields-Named other name target h = plain-Named other name target refl h

parse_int-show : (n : ℕ) → parse_int (show n) ≡ some (pos n)
parse_int-show n =
    parse_int-number (show n) (is_number-show n) ∙ ap (λ m. some (pos m)) (read-show n)

show-free : (n : ℕ) → has b'|' (show n) ≡ false
show-free n = has-number (show n) (every-number (show n) (is_number-show n))

split-print_raw :
    (r : Raw)
    → IsPrinted r
    → split b'|' (print_raw r)
      ≡ r.kind
        ∷ r.octal
        ∷ r.owner
        ∷ r.group
        ∷ show r.size
        ∷ r.stamp
        ∷ (split b'|' r.name ++ split b'|' r.target)
split-print_raw r h =
    split-field r.kind _ h.kind_free
    ∙ ap (λ xs. r.kind ∷ xs)
        (split-field r.octal _ h.octal_free
          ∙ ap (λ xs. r.octal ∷ xs)
              (split-field r.owner _ h.owner_free
                ∙ ap (λ xs. r.owner ∷ xs)
                    (split-field r.group _ h.group_free
                      ∙ ap (λ xs. r.group ∷ xs)
                          (split-field (show r.size) _ (show-free r.size)
                            ∙ ap (λ xs. show r.size ∷ xs)
                                (split-field r.stamp _ h.stamp_free
                                  ∙ ap (λ xs. r.stamp ∷ xs) (split-append b'|' r.name r.target))))))

parse_find_line-print_raw :
    (r : Raw) → IsPrinted r → parse_find_line (print_raw r) ≡ ok (some (seen r))
unfolding parse_find_line
parse_find_line-print_raw r h =
    ap from_parts (split-print_raw r h)
    ∙ rw
        (
          tail_fields-Named (type_of r.kind) r.name r.target h.split_name,
          h.named,
          h.stamped,
          parse_int-show r.size,
        )
        refl

lines-print_all :
    (entry_of : ParsedFindLine → FileEntry) (rs : List Raw)
    → All IsPrinted rs
    → entries_of_lines entry_of (split 10 (print_all rs)) ≡ ok (map (λ r. entry_of (seen r)) rs)
unfolding entries_of_lines split
lines-print_all entry_of [] h = refl
lines-print_all entry_of (r ∷ rs) (h, k) =
    ap (entries_of_lines entry_of) (
      split-append 10 (print_raw r) (print_all rs)
      ∙ ap (λ (xs : List Text). xs ++ split 10 (print_all rs))
          (split-free 10 (print_raw r) h.one_line))
    ∙ rw (is_empty-print_raw r, parse_find_line-print_raw r h, lines-print_all entry_of rs k) refl

-- Listing a directory whose entries find printed gives these entries, in their order, whatever bars a
-- name that is no link's or a link's target has. Every field is free of bars but those two, a link's
-- name is too, no field has an end of line, no name is empty, and each stamp stands for its instant.
pub parse_find_listing-print_all :
    (dir_path : Text) (rs : List Raw)
    → All IsPrinted rs
    → parse_find_listing dir_path (print_all rs) ≡ ok (map (λ r. entry_in dir_path (seen r)) rs)
unfolding parse_find_listing
parse_find_listing-print_all dir_path rs h = lines-print_all (entry_in dir_path) rs h
