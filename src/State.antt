-- ===== src/State.antt =====
-- bbolt/state_storage.go: the storage of the updates state on bbolt.
pub mod Words
pub mod Tree
pub mod Ops
pub mod Calls
pub mod Refine
