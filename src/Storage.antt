-- ===== src/Storage.antt =====
-- Package storage: peers, their keys, and the stores that keep them.
pub mod Key
pub mod Peer
pub mod Store
pub mod Written
pub mod Prefix
pub mod Pebble
pub mod Redis
pub mod Bbolt
pub mod Json
pub mod Iterate
pub mod Clients
