-- ===== src/Tests.antt =====
-- Runs of the definitions on concrete inputs, and the theorems at such inputs.
mod Keys
mod Ranges
mod Asking
mod Invokes
mod Sessions
mod Iterators
mod Trees
mod Databases
mod States
mod Streams
mod Stores
mod Backgrounds
mod Buckets
mod Peers
mod Clients
mod Queues
mod Waiters
mod Secrets
mod Floods
mod Hooks
mod Suites
