-- ===== src/Commanding.antt =====
-- src/system_commanding.rs: the interactive and the automatic command sessions over a registry of
-- commands. A `String` is the list of its code points, a `Vec<u8>` the list of its bytes.
pub mod Registry
pub mod Keys
pub mod Session
pub mod Ingest
pub mod Safe
pub mod Complete
pub mod Total
pub mod Editing
pub mod Typing
pub mod Registered
pub mod LineEnds
pub mod Numbers
pub mod HexDump
pub mod Parsing
pub mod Ordered
pub mod Sorted
pub mod Builtins
mod Tests
