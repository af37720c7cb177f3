-- ===== src/Lib.antt =====
-- Models of the core of a Node.js back-end (NestJS, TypeORM, SQS, Redis), with the theorems that make
-- it correct. Paths below are from the repository's root; `modules` is short for src/modules.
--
-- The program's parts and how they meet. An HTTP request passes the guards, reaches a use case of
-- modules/app/user/usecases, which asks the services of modules/app/user/services; these ask the
-- repositories, which build TypeORM queries and map registers to the entities of
-- modules/domain/entities and back. Whatever fails is thrown as an exception that
-- modules/core/errors/Exceptions.ts builds; modules/common/utils/externalErrorParser.util.ts parses it
-- again at the edge, and modules/common/filters decides whether the error tracker is told. Messages of
-- the events queue reach modules/events/queue/consumers, which asks the handler of
-- modules/events/queue/handlers.
--
-- Which file models which part.
--   Prelude: tests, the conditional, lists and optional values, shared by all.
--   Value: JavaScript values as trees (undefined, null, texts, numbers, dates, arrays, objects), with
--     `typeof`, truth, `===` and property access; with Value.Inspection,
--     modules/common/utils/dataValidations.util.ts.
--   Value.Masking: objectRecursiveFunctions.util.ts and masks.util.ts of modules/common/utils. The
--     source clones an object and then writes to the clone; the model returns the new tree.
--   HttpStatus, Exceptions: the statuses, the exceptions, the parser of outer errors and the filter.
--   Effects: results that may be exceptions, and actions `S -> Result A x S` on a store `S`, with
--     `try`/`catch` and do blocks. What was written before a throw stays written.
--     Effects.Reads and Effects.Preserves are rules for actions that only read, or that keep a property.
--   Domain: the entities UserEntity, UserPreferenceEntity and SubscriptionEntity, and `getDate` of
--     AbstractEntity. A setter is a function to the new entity.
--   Strategy: modules/app/user/strategies/User.strategy.ts.
--   Repository: the abstract repository over a record `Table` of TypeORM's operations, the mappers, the
--     query builders, and the repositories of users and of preferences.
--   Text: `split` on one character. Password: hashing, storing and checking passwords.
--   Service: the user service and the preference service, whose errors all pass `caughtError`.
--   UseCase: creating, getting, updating, deleting users and logging in, over the two tables;
--     UseCase.Registration goes from a creation to the login after it.
--   Queue: the consumer of the events queue (its error count and its switch) and the handler.
--   Throttler: modules/common/guards/CustomThrottler.guard.ts, which counts a client's requests.
--   Auth: modules/api/guards/Auth.guard.ts, which reads the agent from a token.
--   Storage: `toString` and `toObject` of DataParser.helper.ts, and the clients of Redis
--     (modules/core/infra/cache) and Mongo (modules/core/infra/data) over their drivers.
--   Subscriptions: modules/app/subscription/services, with its cache in front of Mongo.
--   Aws: the clients of SQS, SNS, Cognito and S3 of modules/core/infra/integration/aws; a command is its
--     name and its input.
--   Queue.Producer: modules/events/queue/producers.
--   Socket: modules/events/websocket/server, which saves subscriptions and dispatches to the queue.
--   Rest, Webhook: modules/core/infra/integration/rest, and modules/app/hook/services, which keeps hooks
--     in Redis and sends those that are due.
--   ContentType, Files: modules/common/constants, modules/app/file and the upload service of
--     modules/app/reports.
--   Filters: the filters of HTTP and of sockets, and the guard of events.
--   Controller: modules/app/user/api/controllers, and the use cases that only pass on.
--   Cryptography: modules/core/security, over Node's crypto and jsonwebtoken; Cryptography.Jwt follows a
--     token from the login to the guard. Storage.Buffers: `toBuffer` of DataParser.helper.ts.
--   Interceptor: modules/api/interceptors. Logging: modules/core/logging/Logger.service.ts and
--     modules/common/utils/sentryCalls.util.ts.
--   Api: modules/api/controllers, the controllers of modules/app/hook, modules/app/file,
--     modules/app/subscription and modules/events/api, and the pipes before a route.
--   Configs: modules/core/configs/envs.config.ts.
--   Graphql: modules/graphql, the connections and the formatted errors.
--   Cron: modules/core/cron/tasks and modules/core/cron/jobs. Lifecycle: modules/core/start.
--   Tests: examples on a small database, queue and storage in memory.
--
-- What is an argument of the definitions, since it is no code of the repository: TypeORM's tables
-- (`Table`), the clock and the reading of ISO dates (`Clock`), Node's digest (`Crypto`), bcrypt's salt,
-- the tokens that jsonwebtoken signs and decodes, `JSON.parse`, Joi's validation, the event emitter, Mongo's
-- insertion and SQS's deletion (`Outside`, `DeleteMessage`), the throttler's storage and NestJS's
-- context (`Platform`), JSON's text (`Json`), Node's ciphers and jsonwebtoken (`NodeCrypto`,
-- `JsonWebToken`), the drivers of Redis and Mongo (`RedisDriver`, `Collection`), the clients of AWS
-- (`Send`), socket.io (`SocketIo`), the identifiers and the error tracker of a producer (`Producer`),
-- axios (`Request`), the dates of hooks (`Hooks`), Node's buffers (`FileServices`), what a shutdown
-- closes (`Closing`), Joi's schemas and `new Date` of the pipes, and the environment and `parseInt` of
-- the configuration. How these behave is a hypothesis where a theorem needs it (`Behaves`, `HasRoom`,
-- `Remembers`, `Keeps`, `KeepsFields`, `VerifiesSigned`). jsonwebtoken's calls take the time at which they
-- run, since a token expires.
--
-- Bounds and fuel. All recursion is structural, so no fuel is used. Numbers that the source counts
-- with (items, hits, errors) are natural numbers; a subtraction that the source does not do is not
-- introduced. The limit and the page of a query may be fractions or negative, and are decimals
-- (`Decimal`) whose product and ceiling are exact, where JavaScript rounds. Error counts stay far
-- below 2 ^ 53, where JavaScript's integers are exact.
--
-- What is not modelled: the log lines within the other operations, the delays of a login,
-- decorators and dependency injection, DTOs and the schemas of Joi and TypeORM, NestJS's global
-- `ValidationPipe` (modules/core/configs/nestApi.config.ts), which refuses what does not fit a DTO
-- before a pipe of modules/api/pipes or a route runs, the times at which cron jobs run, and a
-- number that is NaN. Two reads that `Promise.all` starts together run one after the other.
-- `validate` answers that an entity is valid, whichever it is.
pub mod Prelude
pub mod HttpStatus
pub mod Value
pub mod Exceptions
pub mod Effects
pub mod Domain
pub mod Strategy
pub mod Repository
pub mod Text
pub mod Password
pub mod Service
pub mod UseCase
pub mod Queue
pub mod Throttler
pub mod Auth
pub mod Api
pub mod Aws
pub mod Configs
pub mod ContentType
pub mod Controller
pub mod Cron
pub mod Cryptography
pub mod Files
pub mod Filters
pub mod Graphql
pub mod Interceptor
pub mod Lifecycle
pub mod Logging
pub mod Rest
pub mod Socket
pub mod Storage
pub mod Subscriptions
pub mod Webhook
pub mod Tests
