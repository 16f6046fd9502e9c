-- ===== src/Cue.antt =====
-- internal/cue/cue.go: the configuration language.
pub mod Private
pub mod Sweep
pub mod Delta
pub mod Defaults
pub mod Depth
pub mod File
pub mod Merge
pub mod Validity
mod Tests
