-- ===== src/Repository.antt =====
-- The repositories: src/modules/core/infra/database/repositories and
-- src/modules/app/user/repositories.
pub mod UserQuery
pub mod Abstract
pub mod Users
pub mod Preferences
