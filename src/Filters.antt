-- ===== src/Filters.antt =====
-- src/modules/api/filters/HttpExceptions.filter.ts, src/modules/events/websocket/filters and
-- src/modules/events/websocket/guards: what is answered to a client whose request failed. The time of the
-- answer is an argument.
pub mod Answers
use node_back_end_boilerplat.Prelude.{
  ℕ, String, Bool, true, false, if◌then◌else◌, Option, some, none, or_else, or_option, is_some,
  includes, List, [], ◌∷◌, eqb, length, not, ◌||◌, ◌&&◌,
}
use node_back_end_boilerplat.Value.{
  Value, undefined, null, str, num, date, arr, obj, Fields, end, keys, get,
}
use node_back_end_boilerplat.Exceptions.{
  Thrown, http, axios, native, HttpException, ErrorInterface, Text, exception,
  external_error_parser, is_captured, as_error, internal, plain_error, verbatim,
}
use node_back_end_boilerplat.Storage.Json.{Json, to_string}

-- `httpErrorResponseType`; what no error sets is `undefined`.
pub record ErrorResponse : Type 0 where
  pub error : Option String
  pub name : Option String
  pub message : String
  pub timestamp : String
  pub status_code : Option ℕ
  pub code : Value
  pub description : Option Text
  pub details : Option Text
  pub cause : Value

-- `buildHttpErrorResponse`: the fields of an exception's payload, under those of the answer; or the
-- parsed error's description, details and cause.
unfoldable pub http_answer : HttpException → String → ErrorResponse
http_answer e timestamp = record {
  error = some e.name;
  name = some e.response.error;
  message = e.response.message;
  timestamp = timestamp;
  status_code = some e.response.status_code;
  code = e.response.code;
  description = e.response.description;
  details = e.response.details;
  cause = e.cause;
}

unfoldable pub parsed_answer : ErrorInterface → HttpException → String → ErrorResponse
parsed_answer e parsed timestamp = record {
  error = e.name;
  name = e.name;
  message = e.message;
  timestamp = timestamp;
  status_code = none;
  code = undefined;
  description = parsed.response.description;
  details = parsed.response.details;
  cause = parsed.cause;
}

unfoldable pub build_http_error_response : Thrown → String → ℕ × ErrorResponse
unfolding http_answer parsed_answer external_error_parser as_error
build_http_error_response (http e) timestamp = (e.status, http_answer e timestamp)
build_http_error_response e timestamp =
    let parsed = external_error_parser e in
    (parsed.status, parsed_answer (as_error e) parsed timestamp)

-- What `catch` does: whether the error is reported, the status and the answer.
pub record Caught : Type 0 where
  pub reported : Bool
  pub status : ℕ
  pub response : ErrorResponse

unfoldable pub catch_http : Thrown → String → Caught
unfolding build_http_error_response is_captured
catch_http e timestamp =
    let (status, response) = build_http_error_response e timestamp in
    record { reported = is_captured e; status = status; response = response }

-- What a socket's handler throws: a `WsException` with its error, or another error.
pub data SocketError : Type 0 where
  ws : String → String → Value → SocketError
  other : Thrown → SocketError

-- `wsErrorResponseType`
pub record SocketResponse : Type 0 where
  pub name : Option String
  pub message : String
  pub received_event : String
  pub received_data : Value
  pub timestamp : String
  pub code : Value
  pub details : Value
  pub rest : Fields

-- The answer to a `WsException`: the fields of its error stand under those of the answer.
abbrev pub ws_details : Json → Value → Value
unfolding to_string
ws_details json (obj o) = get "details" o
ws_details json (arr xs) = undefined
ws_details json (date t) = undefined
ws_details json error = str (to_string json error false)

abbrev pub ws_code : Value → Value
ws_code (obj o) = get "code" o
ws_code error = undefined

abbrev pub ws_rest : Value → Fields
ws_rest (obj o) = o
ws_rest error = end

-- `buildWsErrorResponse`
unfoldable pub build_ws_error_response :
    Json → SocketError → String → Value → String → SocketResponse
unfolding ws_details external_error_parser
build_ws_error_response json (ws name message error) event data_ timestamp = record {
  name = some name;
  message = message;
  received_event = event;
  received_data = data_;
  timestamp = timestamp;
  code = ws_code error;
  details = ws_details json error;
  rest = ws_rest error;
}
build_ws_error_response json (other e) event data_ timestamp =
    let parsed = external_error_parser e in
    record {
      name = some parsed.name;
      message = parsed.message;
      received_event = event;
      received_data = data_;
      timestamp = timestamp;
      code = num parsed.status;
      details = parsed.cause;
      rest = end;
    }

-- `WebSocketEventsEnum`
abbrev pub web_socket_events : List String
web_socket_events = "connection" ∷ "disconnect" ∷ "reconnect" ∷ "emit" ∷ "error" ∷ []

-- `canActivate` of the guard of events: whether it lets a message pass, or else throws.
unfoldable pub events_guard : String → Fields → Bool
events_guard event message = includes web_socket_events event && not (eqb (length (keys message)) 0)
