-- ===== src/Explorer.antt =====
-- src/main/explorer: the file operations of the explorer and the paths that they go by.
pub mod Paths
pub mod Outcomes
pub mod Loops
pub mod Operations
pub mod Transfer
pub mod Listing
