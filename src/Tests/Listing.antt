-- ===== src/Tests/Listing.antt =====
-- Runs of the listing of directories.
use wslpad.Base.{
  ◌≡◌, refl, Text, lit, List, [], ◌∷◌, Option, some, map, join, split, span, read, show, same,
  starts_with, trim, trim_start, is_space,
}
use wslpad.Base.Int.{pos}
use wslpad.Base.Results.{Result, ok, err}
use wslpad.WslConfig.Versions.{parse_int, leading_digits}
use wslpad.Explorer.Listing.{FileEntry, epoch_to_iso, type_of, parse_find_listing, entry_in}
use wslpad.Explorer.Listing.Printed.{Raw, IsPrinted, print_all, seen, parse_find_listing-print_all}
use wslpad.Explorer.Listing.Requests.{sanitize_search_query}

abbrev note : Raw
note = record {
  kind = lit "f";
  octal = lit "644";
  owner = lit "me";
  group = lit "me";
  size = 12;
  stamp = lit "1700000000.5";
  instant = some (pos 1700000000500);
  name = lit ".a|b";
  target = [];
}

abbrev link : Raw
link = record note { kind = lit "l"; name = lit "here"; target = lit "x|y" }

note-IsPrinted : IsPrinted note
unfolding epoch_to_iso type_of lit span read trim_start is_space show same
note-IsPrinted = record {
  kind_free = refl;
  octal_free = refl;
  owner_free = refl;
  group_free = refl;
  stamp_free = refl;
  stamped = refl;
  named = refl;
  split_name = refl;
  one_line = refl;
}

link-IsPrinted : IsPrinted link
unfolding epoch_to_iso type_of lit span read trim_start is_space show same
link-IsPrinted = record {
  kind_free = refl;
  octal_free = refl;
  owner_free = refl;
  group_free = refl;
  stamp_free = refl;
  stamped = refl;
  named = refl;
  split_name = refl;
  one_line = refl;
}

parse_find_listing-print_all_example :
    parse_find_listing (lit "/home/me") (print_all (note ∷ link ∷ []))
    ≡ ok (entry_in (lit "/home/me") (seen note) ∷ entry_in (lit "/home/me") (seen link) ∷ [])
parse_find_listing-print_all_example =
    parse_find_listing-print_all (lit "/home/me") (note ∷ link ∷ [])
      (note-IsPrinted, (link-IsPrinted, tt))

names_of : Result Text (List FileEntry) → List (Text × Option Text)
names_of (err e) = []
names_of (ok entries) = map (λ e. pair e) entries
  where
    pair : FileEntry → Text × Option Text
    pair e = (e.name, e.symlink_target)

-- The name of a link that has a bar is cut, and its rest is taken for the target's.
bar_run :
    names_of
      (parse_find_listing [] (print_all (record link { name = lit "a|b"; target = lit "c" } ∷ [])))
    ≡ (lit "a", some (lit "b|c")) ∷ []
unfolding names_of parse_find_listing epoch_to_iso type_of lit span read trim_start is_space show
    same split join parse_int leading_digits starts_with
bar_run = refl

query_run : sanitize_search_query (lit " *a/b? ") ≡ lit "ab"
unfolding sanitize_search_query lit is_space trim
query_run = refl
