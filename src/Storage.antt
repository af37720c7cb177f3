-- ===== src/Storage.antt =====
-- Where the program keeps data besides the SQL database: the parser of src/modules/common/utils/helpers
-- and the clients of src/modules/core/infra for Redis and Mongo.
pub mod Json
pub mod Redis
pub mod Mongo
pub mod Buffers
