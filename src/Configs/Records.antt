-- ===== src/Configs/Records.antt =====
-- `ConfigsInterface` of src/modules/core/configs/envs.config.ts, with its nested objects.
use node_back_end_boilerplat.Prelude.{ℕ, String, Bool, Option}

pub record ApplicationConfigs : Type 0 where
  pub name : String
  pub environment : String
  pub app_port : ℕ
  pub nest_dev_tools_port : ℕ
  pub sentry_dsn : String
  pub url : String
  pub socket_env : Bool
  pub show_detailed_logs : Bool
  pub show_external_logs : Bool
  pub logs_path : String

pub record DatabaseDialectOptionsSslConfigs : Type 0 where
  pub reject_unauthorized : Option Bool

pub record DatabaseDialectOptionsConfigs : Type 0 where
  pub ssl : DatabaseDialectOptionsSslConfigs

pub record DatabaseDefineConfigs : Type 0 where
  pub underscored : Bool
  pub timestamps : Bool
  pub paranoid : Bool
  pub freeze_table_name : Bool

pub record DatabasePoolConfigs : Type 0 where
  pub min : ℕ
  pub max : ℕ
  pub fifo : Bool
  pub acquire : ℕ
  pub idle : ℕ

pub record DatabaseConfigs : Type 0 where
  pub database : String
  pub username : String
  pub password : String
  pub host : String
  pub port : String
  pub dialect : String
  pub dialect_options : DatabaseDialectOptionsConfigs
  pub charset : String
  pub timezone : String
  pub define : DatabaseDefineConfigs
  pub pool : DatabasePoolConfigs

pub record DataMongoConfigs : Type 0 where
  pub uri : String
  pub max_connecting : ℕ
  pub max_pool_size : ℕ

pub record DataDatabasesDatalakeCollectionsConfigs : Type 0 where
  pub subscriptions : String
  pub unprocessed_messages : String

pub record DataDatabasesDatalakeConfigs : Type 0 where
  pub name : String
  pub collections : DataDatabasesDatalakeCollectionsConfigs

pub record DataDatabasesConfigs : Type 0 where
  pub datalake : DataDatabasesDatalakeConfigs

pub record DataConfigs : Type 0 where
  pub mongo : DataMongoConfigs
  pub databases : DataDatabasesConfigs

pub record CacheRedisConfigs : Type 0 where
  pub port : String
  pub host : String

pub record CacheExpirationTimeConfigs : Type 0 where
  pub subscriptions : ℕ
  pub hooks : ℕ

pub record CacheConfigs : Type 0 where
  pub redis : CacheRedisConfigs
  pub expiration_time : CacheExpirationTimeConfigs

pub record IntegrationAwsCredentialsConfigs : Type 0 where
  pub region : String
  pub access_key_id : String
  pub secret_access_key : String
  pub session_token : String
  pub endpoint : Option String

pub record IntegrationAwsCongitoConfigs : Type 0 where
  pub user_pool_name : String
  pub user_pool_id : String
  pub client_name : String
  pub client_id : String
  pub api_version : String
  pub max_attempts : ℕ

pub record IntegrationAwsSqsEventsQueueConfigs : Type 0 where
  pub queue_name : String
  pub queue_url : String

pub record IntegrationAwsSqsConfigs : Type 0 where
  pub events_queue : IntegrationAwsSqsEventsQueueConfigs
  pub api_version : String
  pub max_attempts : ℕ

pub record IntegrationAwsSnsDefaultTopicConfigs : Type 0 where
  pub topic_name : String
  pub topic_arn : String
  pub topic_protocol : String

pub record IntegrationAwsSnsConfigs : Type 0 where
  pub default_topic : IntegrationAwsSnsDefaultTopicConfigs
  pub api_version : String
  pub max_attempts : ℕ

pub record IntegrationAwsS3Configs : Type 0 where
  pub bucket_name : String
  pub files_expiration : ℕ
  pub api_version : String
  pub max_attempts : ℕ

pub record IntegrationAwsConfigs : Type 0 where
  pub credentials : IntegrationAwsCredentialsConfigs
  pub congito : IntegrationAwsCongitoConfigs
  pub sqs : IntegrationAwsSqsConfigs
  pub sns : IntegrationAwsSnsConfigs
  pub s3 : IntegrationAwsS3Configs

pub record IntegrationRestMockedServiceConfigs : Type 0 where
  pub service_name : String
  pub base_url : String
  pub timeout : ℕ
  pub max_redirects : ℕ
  pub max_retries : ℕ

pub record IntegrationRestConfigs : Type 0 where
  pub mocked_service : IntegrationRestMockedServiceConfigs

pub record IntegrationConfigs : Type 0 where
  pub aws : IntegrationAwsConfigs
  pub rest : IntegrationRestConfigs

pub record SecurityConfigs : Type 0 where
  pub secret_key : String

pub record PackageEnginesConfigs : Type 0 where
  pub node : Option String
  pub npm : Option String
  pub yarn : Option String

pub record PackageConfigs : Type 0 where
  pub name : Option String
  pub description : Option String
  pub version : Option String
  pub license : Option String
  pub author : Option String
  pub repository : Option String
  pub private : Option Bool
  pub engines : PackageEnginesConfigs

pub record Configs : Type 0 where
  pub application : ApplicationConfigs
  pub database : DatabaseConfigs
  pub data_ : DataConfigs
  pub cache : CacheConfigs
  pub integration : IntegrationConfigs
  pub security : SecurityConfigs
  pub package_ : PackageConfigs
