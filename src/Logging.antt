-- ===== src/Logging.antt =====
-- src/modules/core/logging/Logger.service.ts and src/modules/common/utils/sentryCalls.util.ts: what is
-- written to the log and to the error tracker. winston and Sentry are the lists that a call adds to.
pub mod Severities
pub mod Writing
use node_back_end_boilerplat.Prelude.{
  ℕ, String, Bool, true, false, not, Option, none, some, or_option, List, [], ◌∷◌, ◌++◌, map,
  if◌then◌else◌, ltb, eqb, ◌||◌, join_text,
}
use node_back_end_boilerplat.HttpStatus.{HttpStatusEnum, status_code}
use node_back_end_boilerplat.Value.{
  Value, undefined, obj, arr, Fields, Items, field, end, get, truthy,
}
use node_back_end_boilerplat.Storage.Json.{Json, to_string}
use node_back_end_boilerplat.Exceptions.{Thrown, external_error_parser}

-- `LogLevelEnum`
pub data LogLevel : Type 0 where
  error warn info http verbose debug : LogLevel

-- Sentry's `SeverityLevel`
pub data SeverityLevel : Type 0 where
  debug log info warning error fatal : SeverityLevel

-- `parseLogLevelToSentrySeverity`
unfoldable pub parse_log_level_to_sentry_severity : LogLevel → SeverityLevel
parse_log_level_to_sentry_severity LogLevel.warn = warning
parse_log_level_to_sentry_severity LogLevel.http = SeverityLevel.info
parse_log_level_to_sentry_severity LogLevel.verbose = log
parse_log_level_to_sentry_severity LogLevel.error = SeverityLevel.error
parse_log_level_to_sentry_severity LogLevel.info = SeverityLevel.info
parse_log_level_to_sentry_severity LogLevel.debug = SeverityLevel.debug

-- `parseExceptionStatusCodeToSentrySeverity`
unfoldable pub parse_exception_status_code_to_sentry_severity : ℕ → SeverityLevel
parse_exception_status_code_to_sentry_severity status =
    if ltb status (status_code HttpStatusEnum.ok)
    then SeverityLevel.debug
    else if ltb status (status_code HttpStatusEnum.multiple_choices)
    then SeverityLevel.info
    else if ltb status (status_code HttpStatusEnum.bad_request)
    then log
    else if ltb status (status_code HttpStatusEnum.internal_server_error)
    then warning
    else if eqb status (status_code HttpStatusEnum.service_unavailable)
        || eqb status (status_code HttpStatusEnum.gateway_timeout)
    then fatal
    else SeverityLevel.error

-- The level that `captureException` gives Sentry.
unfoldable pub capture_exception : Thrown → SeverityLevel
unfolding external_error_parser parse_exception_status_code_to_sentry_severity
capture_exception e =
    parse_exception_status_code_to_sentry_severity (external_error_parser e).status

-- Sentry's loggers, by the method that `captureLog` calls.
pub data Method : Type 0 where
  debug info warn error fatal trace : Method

-- The `switch` of `captureLog`
unfoldable pub log_method : SeverityLevel → Method
log_method SeverityLevel.debug = Method.debug
log_method SeverityLevel.info = Method.info
log_method warning = Method.warn
log_method SeverityLevel.error = Method.error
log_method SeverityLevel.fatal = Method.fatal
log_method log = trace

-- `MetadataInterface`
pub record Metadata : Type 0 where
  pub context : Option String
  pub request_id : Option String
  pub message_id : Option String
  pub socket_id : Option String
  pub ip : Option String
  pub stack : Option (List String)

-- A logger, with all that it and the error tracker were told, the last first. The setters write a field.
pub record Logger : Type 0 where
  pub context_name : Option String
  pub request_id : Option String
  pub message_id : Option String
  pub socket_id : Option String
  pub client_ip : Option String
  pub logged : List (LogLevel × String × Metadata)
  pub captured_logs : List (Method × String)
  pub captured_messages : List (SeverityLevel × String)

unfoldable pub set_context_name : Option String → Logger → Logger
set_context_name name l = record l { context_name = name }

unfoldable pub set_request_id : Option String → Logger → Logger
set_request_id id l = record l { request_id = id }

unfoldable pub set_message_id : Option String → Logger → Logger
set_message_id id l = record l { message_id = id }

unfoldable pub set_socket_id : Option String → Logger → Logger
set_socket_id id l = record l { socket_id = id }

unfoldable pub set_client_ip : Option String → Logger → Logger
set_client_ip ip l = record l { client_ip = ip }

-- What an error is besides its name, its message and its stack: an `HttpException` with its response, an
-- `AxiosError` with the data of its response, or neither.
pub data Origin : Type 0 where
  http_exception : Value → Origin
  axios_error : Option Value → Origin
  other : Origin

-- An argument of a log call.
pub data Argument : Type 0 where
  value : Value → Argument
  failure : Origin → String → String → List String → Argument

-- `colorizeStack`, with the two codes of the console
unfoldable pub colorize_stack : String → String
colorize_stack part = join_text "\u{1b}[0;30m" (join_text part "\u{1b}[0m")

-- `if (text) errorStacks.push(colorizeStack(text))`
abbrev pub pushed : String → List String
unfolding colorize_stack
pushed text = if truthy (Value.str text) then colorize_stack text ∷ [] else []

-- `{ message, detail }` of the metadata of a response
abbrev pub metadata_of : Value → Value
metadata_of (obj o) = obj (field "message" (get "message" o) (field "detail" (get "detail" o) end))
metadata_of v = obj (field "message" undefined (field "detail" undefined end))

abbrev pub some_stacks : List String → Option (List String)
some_stacks [] = none
some_stacks (s ∷ stacks) = some (s ∷ stacks)

-- `captureMessage` and `captureLog`
unfoldable pub capture_message : String → LogLevel → Logger → Logger
unfolding parse_log_level_to_sentry_severity
capture_message message level l = record l {
  captured_messages = (parse_log_level_to_sentry_severity level, message) ∷ l.captured_messages;
}

unfoldable pub capture_log : String → LogLevel → Logger → Logger
unfolding log_method parse_log_level_to_sentry_severity
capture_log message level l = record l {
  captured_logs =
      (log_method (parse_log_level_to_sentry_severity level), message) ∷ l.captured_logs;
}

-- What a method adds after `captureLog`: only `warn` captures a message.
abbrev pub after_capture : String → LogLevel → Logger → Logger
unfolding capture_message
after_capture message warn l = capture_message message warn l
after_capture message level l = l

module _ (json : Json) where
  abbrev pub response_message : Value → List String
  unfolding to_string pushed
  response_message v = if truthy v then pushed (to_string json v false) else []

  abbrev pub response_metadata : Value → List String
  unfolding to_string pushed
  response_metadata v = if truthy v then pushed (to_string json (metadata_of v) false) else []

  -- What the response of an error adds.
  unfoldable pub response_stacks : Origin → List String
  unfolding response_message response_metadata
  response_stacks (http_exception (obj o)) =
      response_message (get "message" o) ++ response_metadata (get "metadata" o)
  response_stacks (http_exception response) = []
  response_stacks (axios_error (some content)) = response_message content
  response_stacks (axios_error none) = []
  response_stacks other = []

  -- The round of `args.forEach` for one argument
  unfoldable pub error_stacks : Argument → List String
  unfolding response_stacks colorize_stack
  error_stacks (value v) = []
  error_stacks (failure origin name message stack) =
      response_stacks origin ++ map colorize_stack stack

  unfoldable pub all_stacks : List Argument → List String
  unfolding error_stacks
  all_stacks [] = []
  all_stacks (a ∷ args) = error_stacks a ++ all_stacks args

  -- `dataParserHelper.toString(arg, true)`, with `parseErrorToString`
  unfoldable pub argument_text : Argument → String
  unfolding to_string
  argument_text (value v) = to_string json v true
  argument_text (failure origin name message stack) = join_text name (join_text ": " message)

  -- `….join(', ')`
  unfoldable pub message_text : List Argument → String
  unfolding argument_text
  message_text [] = ""
  message_text (a ∷ []) = argument_text a
  message_text (a ∷ b ∷ args) =
      join_text (argument_text a) (join_text ", " (message_text (b ∷ args)))

  -- `buildLog`, for the name of the class that asked for the logger: the logger keeps the context.
  unfoldable pub build_log : Option String → List Argument → Logger → Logger × String × Metadata
  unfolding message_text all_stacks set_context_name
  build_log inquirer args l =
      let named = set_context_name (or_option l.context_name inquirer) l in
      (
        named,
        message_text args,
        record {
          context = named.context_name;
          request_id = named.request_id;
          message_id = named.message_id;
          socket_id = named.socket_id;
          ip = named.client_ip;
          stack = some_stacks (all_stacks args);
        },
      )

  -- The six methods, by their level.
  unfoldable pub write_log : LogLevel → Option String → List Argument → Logger → Logger
  unfolding build_log capture_log after_capture
  write_log level inquirer args l =
      let (named, message, meta) = build_log inquirer args l in
      after_capture message level (
        capture_log message level (record named { logged = (level, message, meta) ∷ named.logged }))
