-- ===== src/Tests/Masking.antt =====
-- Runs of the masking of secrets.
use wslpad.Base.{
  ◌≡◌, refl, true, false, Text, lit, [], includes, starts_with, same, span, is_space, to_upper,
  to_lower,
}
use wslpad.Masking.{
  is_secret_name, mask_env_value, is_path_like_name, looks_windows_originated, is_sensitive_path,
  mask_from,
}

abbrev env_file : Text
env_file = lit "# keys\nexport API_KEY=abc\r\nHOME=/root\n"

masked_run : mask_from [] env_file ≡ lit "# keys\nexport API_KEY=••••••••\r\nHOME=/root\n"
unfolding mask_from lit span is_space starts_with is_secret_name includes to_upper
masked_run = refl

names_run :
    (mask_env_value (lit "GitHub_token") (lit "x") ≡ lit "••••••••")
    × (is_path_like_name (lit "ld_library_path") ≡ true)
    × (looks_windows_originated (lit "A") (lit "C:\\Users") ≡ true)
unfolding mask_env_value is_path_like_name looks_windows_originated lit is_secret_name includes
    to_upper starts_with same
names_run = (refl, refl, refl)

paths_run :
    (is_sensitive_path (lit "/home/me/.ssh/id_rsa") ≡ true)
    × (is_sensitive_path (lit "/home/me/.ssh/id_rsa.pub") ≡ false)
    × (is_sensitive_path (lit "/home/me/.ssh/") ≡ false)
    × (is_sensitive_path (lit "C:\\a\\server.PEM") ≡ true)
unfolding is_sensitive_path lit same starts_with to_lower
paths_run = (refl, refl, refl, refl)
