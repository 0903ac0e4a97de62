-- ===== src/Formats.antt =====
-- The structures of the Mach-O headers that the loader reads (mach-o/*.h), with the reads of them:
-- a read copies the whole structure, so each of its bytes must be mapped.
pub mod Optional
pub mod Header
pub mod Commands
pub mod Tables
pub mod Fixups
pub mod Parts
pub mod Fields
