-- ===== src/Domain.antt =====
-- The entities of src/modules/domain/entities.
pub mod Dates
pub mod UserPreference
pub mod User
pub mod Subscription
