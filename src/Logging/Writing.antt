-- ===== src/Logging/Writing.antt =====
-- What the log and the error tracker are told, over any calls of a logger:
-- src/modules/core/logging/Logger.service.ts.
use node_back_end_boilerplat.Prelude.{List, [], ◌∷◌, map, Option, String, ◌≡◌, arith}
use node_back_end_boilerplat.Logging.{
  Logger, LogLevel, Argument, Metadata, Method, SeverityLevel, warning, write_log, build_log,
  capture_log, capture_message, set_context_name, set_request_id, set_message_id, set_socket_id,
  set_client_ip, log_method, parse_log_level_to_sentry_severity, Json, List, Option, String, map,
  ◌∷◌,
}
use node_back_end_boilerplat.Prelude.{◌≡◌}
use node_back_end_boilerplat.Storage.Json.{Json}

-- A call of a logger.
pub data Call : Type 0 where
  set_context set_request set_message set_socket set_ip : Option String → Call
  write : LogLevel → Option String → List Argument → Call

-- The entries of the log, as the error tracker's log has them.
abbrev pub mirrored : LogLevel × String × Metadata → Method × String
mirrored (level, message, meta) = (log_method (parse_log_level_to_sentry_severity level), message)

-- The messages of the warnings.
abbrev pub warnings : List (LogLevel × String × Metadata) → List (SeverityLevel × String)
warnings [] = []
warnings ((LogLevel.warn, message, meta) ∷ entries) = (warning, message) ∷ warnings entries
warnings ((level, message, meta) ∷ entries) = warnings entries

-- The error tracker was told all that was logged, in the same order, and has a message of each warning.
pub record IsMirrored (l : Logger) : Type 0 where
  pub logs : l.captured_logs ≡ map mirrored l.logged
  pub messages : l.captured_messages ≡ warnings l.logged

module _ (json : Json) where
  unfoldable pub call : Call → Logger → Logger
  unfolding write_log set_context_name set_request_id set_message_id set_socket_id set_client_ip
  call (set_context name) l = set_context_name name l
  call (set_request id) l = set_request_id id l
  call (set_message id) l = set_message_id id l
  call (set_socket id) l = set_socket_id id l
  call (set_ip ip) l = set_client_ip ip l
  call (write level inquirer args) l = write_log json level inquirer args l

  unfoldable pub run : List Call → Logger → Logger
  unfolding call
  run [] l = l
  run (c ∷ calls) l = run calls (call c l)

  write_log-IsMirrored :
      (level : LogLevel) (inquirer : Option String) (args : List Argument) (l : Logger)
      → IsMirrored l
      → IsMirrored (write_log json level inquirer args l)
  unfolding write_log build_log capture_log capture_message set_context_name
      parse_log_level_to_sentry_severity
  write_log-IsMirrored LogLevel.warn inquirer args l m = record {
    logs = ground arith;
    messages = ground arith;
  }
  write_log-IsMirrored level inquirer args l m = record {
    logs = ground arith;
    messages = m.messages;
  }

  call-IsMirrored : (c : Call) (l : Logger) → IsMirrored l → IsMirrored (call c l)
  unfolding call
  call-IsMirrored (write level inquirer args) l m = write_log-IsMirrored level inquirer args l m
  call-IsMirrored _ l m = record { logs = m.logs; messages = m.messages }

  -- Whatever is called on a logger, in whatever order, the error tracker was told just what was
  -- logged: if it was so before, then after any sequence of setters and of calls of the six methods
  -- its log has the message of every entry, in the same order and each by the method of its level,
  -- and its messages are those of the warnings.
  pub run-IsMirrored : (calls : List Call) (l : Logger) → IsMirrored l → IsMirrored (run calls l)
  unfolding run
  run-IsMirrored [] l m = m
  run-IsMirrored (c ∷ calls) l m = run-IsMirrored calls (call c l) (call-IsMirrored c l m)
