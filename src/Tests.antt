-- ===== src/Tests.antt =====
-- Examples: the theorems applied to small inputs, and runs of the definitions.
pub mod Database
pub mod Values
pub mod Subscriptions
pub mod Clients
pub mod Sockets
pub mod Crons
pub mod Cryptographies
pub mod Routes
pub mod Answers
pub mod Webhooks
pub mod Users
pub mod Accounts
pub mod Queues
pub mod Throttlers
pub mod Requests
pub mod Apis
pub mod Registrations
pub mod Downloads
pub mod Tokens
pub mod Worlds
pub mod Revisions
