-- ===== src/Tests.antt =====
-- Runs of the definitions, and the theorems at concrete inputs.
mod Shell
mod Boundary
mod WslConfig
mod Polling
mod Explorer
mod Transfers
mod Listing
mod Masking
mod Ports
mod Warnings
mod Workflows
mod Doctor
mod Store
