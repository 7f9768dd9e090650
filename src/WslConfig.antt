-- ===== src/WslConfig.antt =====
-- src/main/wsl/wsl-config.ts: declared versus effective WSL settings.
pub mod Ini
pub mod Catalog
pub mod Distance
pub mod Versions
pub mod Values
pub mod Observe
pub mod Reconcile
