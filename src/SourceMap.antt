-- ===== src/SourceMap.antt =====
-- Source maps and symbolication: internal/sourcemap. Strings are lists of bytes.
pub mod Vlq
pub mod Map
pub mod Symbolicate
pub mod Paths
pub mod Resolve
pub mod Event
pub mod Tests
