-- ===== src/Engine.antt =====
-- internal/engine/engine.go: the checks, command lines and verification of a remux, which four
-- children hold and this module passes on. The operations on the file system, and the proofs, are in
-- the other children.
mod Types
mod Validate
mod Args
mod Output
pub mod Sorted
pub mod Guard
pub mod Verified
pub mod Io
pub mod Replace
pub mod External
pub mod Remux
pub mod Edit
pub mod Recycle
pub mod Frame
pub mod Clean
pub mod Untouched
pub mod Failure
pub mod Replaced
pub mod Removal
unfoldable pub use Types.*
unfoldable pub use Validate.*
unfoldable pub use Args.*
unfoldable pub use Output.*
