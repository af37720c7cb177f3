-- ===== src/Service.antt =====
-- The services of src/modules/app/user/services.
pub mod Guarded
pub mod Users
pub mod Preferences
pub mod Errors
pub mod Reads
pub mod Creation
