-- ===== src/Windows.antt =====
-- What host/ has for Windows: the loader of the FastRPC library, and the POSIX calls.
pub mod System
pub mod Service
pub mod Loader
pub mod Compat
mod Tests
