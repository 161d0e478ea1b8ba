-- ===== src/Auth.antt =====
-- Package auth: the sessions and credentials of auth/kv with the clients that it runs on, and the
-- authenticators that ask the user.
pub mod Kv
pub mod Vault
pub mod Bucket
pub mod Clients
pub mod Ask
pub mod Terminal
pub mod Dialog
pub mod Catalog
