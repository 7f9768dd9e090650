-- ===== src/WslConfig/Catalog.antt =====
-- src/main/wsl/wsl-config.ts: the documented settings.
use wslpad.Base.{Text, lit, List, [], ◌∷◌, Option, none, some, select, same, to_lower}
use wslpad.Settings.{Scope, windows, linux}

pub record KnownKey : Type 0 where
  pub key : Text
  pub section : Text
  pub scope : Scope
  pub default_value : Option Text
  pub moved_from : List Text
  pub since : Option Text
  pub note : Option Text

abbrev known : Text → Text → Scope → Option Text → List Text → Option Text → Option Text → KnownKey
known key section scope default_value moved_from since note = record {
  key = key;
  section = section;
  scope = scope;
  default_value = default_value;
  moved_from = moved_from;
  since = since;
  note = note;
}

-- `KNOWN_KEYS`.
unfoldable pub known_keys : List KnownKey
known_keys =
    known (lit "kernel") (lit "wsl2") windows none [] none (
      some
        (lit "Absolute Windows path to a custom kernel; WSL uses its bundled kernel when unset."))
    ∷ known (lit "kernelCommandLine") (lit "wsl2") windows none [] none
        (some (lit "Extra kernel command line; empty by default."))
    ∷ known (lit "memory") (lit "wsl2") windows none [] none (
        some (lit "Defaults to 50% of host memory (capped at 8GB on Windows builds before 20175)."))
    ∷ known (lit "processors") (lit "wsl2") windows none [] none
        (some (lit "Defaults to every logical processor on the host."))
    ∷ known (lit "swap") (lit "wsl2") windows none [] none
        (some (lit "Defaults to 25% of the memory limit, rounded up to the nearest gigabyte."))
    ∷ known (lit "swapFile") (lit "wsl2") windows
        (some (lit "%USERPROFILE%\\AppData\\Local\\Temp\\swap.vhdx")) [] none none
    ∷ known (lit "localhostForwarding") (lit "wsl2") windows (some (lit "true")) [] none none
    ∷ known (lit "pageReporting") (lit "wsl2") windows (some (lit "true")) [] none none
    ∷ known (lit "nestedVirtualization") (lit "wsl2") windows (some (lit "true")) [] none none
    ∷ known (lit "debugConsole") (lit "wsl2") windows (some (lit "false")) [] none none
    ∷ known (lit "guiApplications") (lit "wsl2") windows (some (lit "true")) [] none none
    ∷ known (lit "safeMode") (lit "wsl2") windows (some (lit "false")) [] none none
    ∷ known (lit "vmIdleTimeout") (lit "wsl2") windows (some (lit "60000")) [] none
        (some (lit "Milliseconds the utility VM stays alive after the last distribution exits."))
    ∷ known (lit "defaultVhdSize") (lit "wsl2") windows (some (lit "1099511627776")) [] none
        (some (lit "Maximum size of a new virtual disk, in bytes (1TB by default)."))
    ∷ known (lit "networkingMode") (lit "wsl2") windows (some (lit "nat")) (lit "experimental" ∷ [])
        (some (lit "2.0.0")) none
    ∷ known (lit "firewall") (lit "wsl2") windows (some (lit "true")) (lit "experimental" ∷ [])
        (some (lit "2.0.9")) none
    ∷ known (lit "dnsTunneling") (lit "wsl2") windows (some (lit "true")) (lit "experimental" ∷ [])
        (some (lit "2.0.0"))
        (some (lit "Enabled by default on current releases; older builds shipped it disabled."))
    ∷ known (lit "autoProxy") (lit "wsl2") windows (some (lit "true")) (lit "experimental" ∷ [])
        (some (lit "2.0.0"))
        (some (lit "Enabled by default on current releases; older builds shipped it disabled."))
    ∷ known (lit "autoMemoryReclaim") (lit "experimental") windows (some (lit "disabled")) []
        (some (lit "2.0.0")) (some (lit "Accepts disabled, gradual or dropcache."))
    ∷ known (lit "sparseVhd") (lit "experimental") windows (some (lit "false")) []
        (some (lit "2.0.0")) none
    ∷ known (lit "useWindowsDnsCache") (lit "experimental") windows (some (lit "false")) [] none
        none
    ∷ known (lit "bestEffortDnsParsing") (lit "experimental") windows (some (lit "false")) [] none
        none
    ∷ known (lit "hostAddressLoopback") (lit "experimental") windows (some (lit "false")) [] none
        none
    ∷ known (lit "ignoredPorts") (lit "experimental") windows none [] none
        (some (lit "Comma-separated ports the guest keeps for itself under mirrored networking."))
    ∷ known (lit "systemd") (lit "boot") linux (some (lit "false")) [] (some (lit "0.67.6")) none
    ∷ known (lit "command") (lit "boot") linux none [] none
        (some (lit "Runs as root at distribution start; empty by default."))
    ∷ known (lit "enabled") (lit "automount") linux (some (lit "true")) [] none none
    ∷ known (lit "root") (lit "automount") linux (some (lit "/mnt/")) [] none none
    ∷ known (lit "options") (lit "automount") linux none [] none
        (some (lit "Extra DrvFs mount options such as metadata or umask; empty by default."))
    ∷ known (lit "mountFsTab") (lit "automount") linux (some (lit "true")) [] none none
    ∷ known (lit "generateHosts") (lit "network") linux (some (lit "true")) [] none none
    ∷ known (lit "generateResolvConf") (lit "network") linux (some (lit "true")) [] none none
    ∷ known (lit "hostname") (lit "network") linux none [] none
        (some (lit "Defaults to the Windows host name."))
    ∷ known (lit "enabled") (lit "interop") linux (some (lit "true")) [] none none
    ∷ known (lit "appendWindowsPath") (lit "interop") linux (some (lit "true")) [] none none
    ∷ known (lit "default") (lit "user") linux none [] none
        (some (lit "Defaults to the user created when the distribution was installed."))
    ∷ []

-- `SECTION_ORDER`.
unfoldable pub section_order : List Text
section_order =
    lit "wsl2"
    ∷ lit "experimental"
    ∷ lit "boot"
    ∷ lit "automount"
    ∷ lit "network"
    ∷ lit "interop"
    ∷ lit "user"
    ∷ []

-- The catalog is a parameter where it is searched, so that what is proved holds of every catalog.
unfoldable pub find_in : List KnownKey → Text → List KnownKey
find_in keys key = select (λ k. same (to_lower k.key) (to_lower key)) keys

unfoldable pub find_known_keys : Text → List KnownKey
unfolding find_in
find_known_keys key = find_in known_keys key
