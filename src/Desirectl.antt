-- ===== src/Desirectl.antt =====
-- cmd/desirectl: the command line tool: its configuration and contexts, the resource types that it
-- knows, and the commands that write and read desires.
pub mod Config
pub mod ResourceTypes
pub mod Desires
pub mod Manifests
pub mod Applying
pub mod Deleting
pub mod Commands
pub mod Getting
pub mod Printing
