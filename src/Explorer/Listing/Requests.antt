-- ===== src/Explorer/Listing/Requests.antt =====
-- src/main/explorer/listing.ts: the requests that list, search and describe entries. What runs a command
-- in a distribution is a parameter, with a state of its own; an error is its message.
use wslpad.Base.{
  ℕ, Bool, true, false, not, ◌&&◌, ◌||◌, Text, lit, List, [], ◌∷◌, ◌++◌, Option, none, some, drop,
  head?, includes, is_empty, map, or_else, same, select, split, starts_with, trim, if◌then◌else◌,
  ◌==◌,
}
use wslpad.Base.Int.{ℤ}
use wslpad.Base.Results.{Result, ok, err}
use wslpad.Shell.{shell_quote, shell_quote_all, assert_valid_linux_path, Refusal}
use wslpad.WslConfig.Versions.{parse_int}
use wslpad.Explorer.Paths.{linux_basename, convert_linux_to_windows}
use wslpad.Explorer.Outcomes.{
  RunResult, exits_with, failed, explorer_error_from_result, refusal_message,
}
use wslpad.Explorer.Transfer.{runner_slow_timeout_ms}
use wslpad.Explorer.Listing.{
  FileEntry, FileEntryType, file, directory, symlink, other, epoch_to_iso, octal_to_rwx, or_null,
  parse_find_listing, parse_find_path_listing, size_for,
}

abbrev find_fmt : Text
find_fmt = lit "%y|%m|%u|%g|%s|%T@|%f|%l\\n"

abbrev find_path_fmt : Text
find_path_fmt = lit "%y|%m|%u|%g|%s|%T@|%p|%l\\n"

abbrev stat_fmt : Text
stat_fmt = lit "%F|%a|%U|%G|%s|%Y|%X|%i"

unfoldable pub dir_guard : Text → Text
dir_guard quoted =
    lit "if [ ! -e "
    ++ (quoted
        ++ (lit " ]; then exit 40; fi; if [ ! -d " ++ (quoted ++ lit " ]; then exit 45; fi")))

-- `/[/\\*?[\]\0\r\n]/`.
abbrev is_meta : ℕ → Bool
is_meta c =
    c == b'/'
    || c == 92
    || c == b'*'
    || c == b'?'
    || c == b'['
    || c == b']'
    || c == 0
    || c == 13
    || c == 10

unfoldable pub sanitize_search_query : Text → Text
sanitize_search_query query = trim (select (λ c. not (is_meta c)) query)

abbrev is_symlink : FileEntry → Bool
is_symlink entry = elim entry.type [ symlink ↦ true | _ ↦ false ]

abbrev kind_of : Text → Option FileEntryType
kind_of kind =
    if same kind (lit "d") then some directory else if same kind (lit "f") then some file else none

abbrev with_target : Option FileEntryType → FileEntry → FileEntry
with_target target entry = record entry { target_type = target }

-- The kinds go to the links in their order; a link without one has null.
unfoldable pub assign_targets : List FileEntry → List Text → List FileEntry
assign_targets [] kinds = []
assign_targets (entry ∷ entries) [] =
    let rest = assign_targets entries [] in
    (if is_symlink entry then with_target none entry else entry) ∷ rest
assign_targets (entry ∷ entries) (kind ∷ kinds) =
    let after = assign_targets entries kinds in
    let still = assign_targets entries (kind ∷ kinds) in
    if is_symlink entry then with_target (kind_of kind) entry ∷ after else entry ∷ still

abbrev links_script : List FileEntry → Text
links_script links =
    lit "for p in "
    ++ (shell_quote_all (map (λ l. l.path) links)
        ++ lit
            "; do if [ -d \"$p\" ]; then echo d; elif [ -e \"$p\" ]; then echo f; else echo x; fi; done")

abbrev lines_of : Text → List Text
lines_of text = select (λ l. not (is_empty l)) (split 10 text)

abbrev resolved : List FileEntry → RunResult → List FileEntry
resolved entries result =
    if failed result then entries else assign_targets entries (lines_of result.stdout)

-- `result.timedOut || (result.code !== 0 && !result.stdout)`.
abbrev is_fatal : RunResult → Bool
is_fatal result = result.timed_out || (not (exits_with 0 result) && is_empty result.stdout)

abbrev visible : Bool → List FileEntry → List FileEntry
visible show_hidden entries = if show_hidden then entries else select (λ e. not e.is_hidden) entries

pub record FileStat : Type 0 where
  pub entry : FileEntry
  pub inode : Option ℤ
  pub atime : Option ℤ
  pub windows_path : Text

abbrev stat_type : Text → FileEntryType
stat_type name =
    if includes name (lit "directory")
    then directory
    else if includes name (lit "symbolic link")
    then symlink
    else if includes name (lit "regular")
    then file
    else other

-- The lines after the first: the target of a link, and what it leads to.
unfoldable link_lines :
    List Text → Option Text × Option FileEntryType → Option Text × Option FileEntryType
link_lines [] found = found
link_lines (line ∷ lines) (target, kind) = link_lines lines (
    if starts_with line (lit "L|")
    then (or_null (drop 2 line), kind)
    else if same line (lit "T|d")
    then (target, some directory)
    else if same line (lit "T|f")
    then (target, some file)
    else (target, kind))

abbrev stat_entry :
    Text
    → FileEntryType
    → Text
    → Text
    → Text
    → Text
    → Option Text × Option FileEntryType
    → Option ℤ
    → FileEntry
stat_entry path type octal owner group size link mtime =
    let name = linux_basename path in
    record {
      name = name;
      path = path;
      type = type;
      size_bytes = size_for type (parse_int size);
      mtime = mtime;
      owner = owner;
      group = group;
      permissions = octal_to_rwx octal;
      permissions_octal = octal;
      is_hidden = starts_with name (lit ".");
      symlink_target = link.0;
      target_type = link.1;
    }

abbrev stat_of :
    (Option ℤ → FileEntry)
    → Text
    → Result Text (Option ℤ)
    → Result Text (Option ℤ)
    → Result Refusal Text
    → Result Text FileStat
stat_of entry inode (err e) accessed windows = err e
stat_of entry inode (ok modified) (err e) windows = err e
stat_of entry inode (ok modified) (ok accessed) (err refusal) = err (refusal_message refusal)
stat_of entry inode (ok modified) (ok accessed) (ok windows) = ok (record {
  entry = entry modified;
  inode = parse_int inode;
  atime = accessed;
  windows_path = windows;
})

abbrev from_fields : Text → Text → List Text → List Text → Result Text FileStat
from_fields distro path lines
      (typed ∷ octal ∷ owner ∷ group ∷ size ∷ mtime ∷ atime ∷ inode ∷ rest) =
    stat_of
      (stat_entry path (stat_type typed) octal owner group size
        (link_lines (drop 1 lines) (none, none)))
      inode (epoch_to_iso mtime) (epoch_to_iso atime) (convert_linux_to_windows distro path)
from_fields distro path lines _ = err (lit "Unexpected stat output for " ++ path)

unfoldable pub parse_stat : Text → Text → RunResult → Result Text FileStat
unfolding link_lines
parse_stat distro path result =
    let lines = lines_of result.stdout in
    from_fields distro path lines (split b'|' (or_else (head? lines) []))

abbrev stat_script : Text → Text
stat_script q =
    lit "if [ ! -e "
    ++ (q
        ++ (lit " ] && [ ! -L "
            ++ (q
                ++ (lit " ]; then exit 40; fi\nstat -c '"
                    ++ (stat_fmt
                        ++ (lit "' "
                            ++ (q
                                ++ (lit " || exit 44\nif [ -L "
                                    ++ (q
                                        ++ (lit " ]; then printf 'L|%s\\n' \"$(readlink "
                                            ++ (q
                                                ++ (lit ")\"; if [ -d "
                                                    ++ (q
                                                        ++ (lit " ]; then echo 'T|d'; elif [ -e "
                                                            ++ (q
                                                            ++ lit
                                                            " ]; then echo 'T|f'; else echo 'T|x'; fi; fi")))))))))))))))

module _ {S : Type 0} (run_in_distro : Text → Text → Option ℕ → S → Result Text RunResult × S)
    (distro : Text) where
  -- The next request, on what a command answered; what it throws is thrown on.
  abbrev answered :
      {A : Type 0}
      → Result Text RunResult × S
      → (RunResult → S → Result Text A × S)
      → Result Text A × S
  answered (err e, s) k = (err e, s)
  answered (ok result, s) k = k result s

  abbrev guarded : {A : Type 0} → Text → (S → Result Text A × S) → S → Result Text A × S
  guarded path k s = elim (assert_valid_linux_path path) [
    | err refusal ↦ (err (refusal_message refusal), s)
    | ok valid ↦ k s
  ]

  unfoldable pub resolve_symlink_targets : List FileEntry → S → Result Text (List FileEntry) × S
  unfolding assign_targets
  resolve_symlink_targets entries s =
      let links = select is_symlink entries in
      if is_empty links
      then (ok entries, s)
      else answered (run_in_distro distro (links_script links) none s)
          (λ result t. (ok (resolved entries result), t))

  abbrev resolve_parsed :
      (List FileEntry → List FileEntry)
      → Result Text (List FileEntry)
      → S
      → Result Text (List FileEntry) × S
  resolve_parsed keep (err e) s = (err e, s)
  resolve_parsed keep (ok entries) s = resolve_symlink_targets (keep entries) s

  unfoldable pub list_directory : Text → Bool → S → Result Text (List FileEntry) × S
  unfolding resolve_symlink_targets
  list_directory dir_path show_hidden =
      let q = shell_quote dir_path in
      guarded dir_path (λ s.
        answered
          (run_in_distro distro
            (dir_guard q
              ++ (lit "; find "
                  ++ (q ++ (lit " -mindepth 1 -maxdepth 1 -printf '" ++ (find_fmt ++ lit "'")))))
            (some runner_slow_timeout_ms) s)
          (λ result t.
            if is_fatal result
            then (err (explorer_error_from_result dir_path result).message, t)
            else resolve_parsed (visible show_hidden) (parse_find_listing dir_path result.stdout)
                t))

  unfoldable pub list_tree : Text → S → Result Text (List FileEntry) × S
  list_tree dir_path =
      let q = shell_quote dir_path in
      guarded dir_path (λ s.
        answered
          (run_in_distro distro
            (dir_guard q
              ++ (lit "; find "
                  ++ (q
                      ++ (lit " -mindepth 1 -maxdepth 1 -type d -printf '"
                          ++ (find_fmt ++ lit "'")))))
            (some runner_slow_timeout_ms) s)
          (λ result t.
            if is_fatal result
            then (err (explorer_error_from_result dir_path result).message, t)
            else (parse_find_listing dir_path result.stdout, t)))

  unfoldable pub stat_path : Text → S → Result Text FileStat × S
  unfolding parse_stat
  stat_path path = guarded path (λ s.
      answered (run_in_distro distro (stat_script (shell_quote path)) none s) (λ result t.
        if failed result
        then (err (explorer_error_from_result path result).message, t)
        else (parse_stat distro path result, t)))

  unfoldable pub search_directory : Text → Text → S → Result Text (List FileEntry) × S
  unfolding resolve_symlink_targets sanitize_search_query
  search_directory dir_path query =
      let q = shell_quote dir_path in
      let sanitized = sanitize_search_query query in
      guarded dir_path (λ s.
        if is_empty sanitized
        then (ok [], s)
        else answered
            (run_in_distro distro
              (dir_guard q
                ++ (lit "; find "
                    ++ (q
                        ++ (lit " -mindepth 1 -maxdepth 4 -iname "
                            ++ (shell_quote (b'*' ∷ sanitized ++ lit "*")
                                ++ (lit " -printf '"
                                    ++ (find_path_fmt ++ lit "' 2>/dev/null | head -200")))))))
              (some runner_slow_timeout_ms) s)
            (λ result t.
              if is_fatal result
              then (err (explorer_error_from_result dir_path result).message, t)
              else resolve_parsed (λ entries. entries) (parse_find_path_listing result.stdout) t))
