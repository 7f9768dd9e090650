-- ===== src/Tests/Shell.antt =====
-- Runs of src/main/wsl/escape.ts.
use wslpad.Base.{
  ◌≤◌, ◌<◌, ◌≡◌, ◌≢◌, refl, true, Text, lit, List, [], ◌∷◌, some, length, starts_with,
}
use wslpad.Base.Results.{ok}
use wslpad.Shell.{shell_quote, shell_quote_all, assert_valid_distro_name}
use wslpad.Shell.Words.{words}
use wslpad.Shell.Quote.{words-shell_quote_all}
use wslpad.Shell.Names.{assert_valid_distro_name_sound}

abbrev hostile : List Text
hostile = lit "it's; rm -rf $HOME" ∷ [] ∷ lit "a b" ∷ []

quote_run : shell_quote (lit "it's") ≡ lit "'it'\\''s'"
unfolding shell_quote lit
quote_run = refl

words-shell_quote_all_example : words (shell_quote_all hostile) ≡ some hostile
words-shell_quote_all_example = words-shell_quote_all hostile

ubuntu_admitted : assert_valid_distro_name (lit "Ubuntu-24.04") ≡ ok tt
unfolding assert_valid_distro_name lit
ubuntu_admitted = refl

assert_valid_distro_name_sound_example :
    (0 < length (lit "Ubuntu-24.04"))
    × (length (lit "Ubuntu-24.04") ≤ 128)
    × (starts_with (lit "Ubuntu-24.04") (b'-' ∷ []) ≢ true)
    × (words (lit "Ubuntu-24.04") ≡ some (lit "Ubuntu-24.04" ∷ []))
assert_valid_distro_name_sound_example =
    assert_valid_distro_name_sound (lit "Ubuntu-24.04") ubuntu_admitted
