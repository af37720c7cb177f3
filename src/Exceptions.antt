-- ===== src/Exceptions.antt =====
-- src/modules/core/errors/Exceptions.ts, the enumerations of src/modules/common/enums,
-- common/utils/externalErrorParser.util.ts and the report rule of
-- common/filters/AbstractExceptions.filter.ts. Stack traces are not modelled, and what
-- `JSON.stringify` writes is kept as the value that it is given.
pub mod Laws
use node_back_end_boilerplat.Prelude.{
  ℕ, String, Bool, true, false, not, ◌==◌, ◌&&◌, ◌||◌, if◌then◌else◌, Option, none, some, List, [],
  ◌∷◌, eqb, includes, or_else,
}
use node_back_end_boilerplat.HttpStatus.{HttpStatusEnum, status_code}
use node_back_end_boilerplat.Value.{
  or_value, Value, undefined, null, bool, num, str, date, arr, obj,
}

-- `ExceptionsEnum`
pub data ExceptionsEnum : Type 0 where
  contract business invalid_token unauthorized too_many_requests conflict : ExceptionsEnum
  not_found integration internal : ExceptionsEnum

-- The texts of `ExceptionsEnum`.
unfoldable pub exception_name : ExceptionsEnum → String
exception_name contract = "contract"
exception_name business = "business"
exception_name invalid_token = "invalidToken"
exception_name unauthorized = "unauthorized"
exception_name too_many_requests = "manyRequests"
exception_name conflict = "conflict"
exception_name not_found = "notFound"
exception_name integration = "integration"
exception_name internal = "internal"

-- `ErrorInterface`
pub record ErrorInterface : Type 0 where
  pub name : Option String
  pub message : String
  pub code : Value
  pub details : Value
  pub cause : Value

-- An error that says a message only, `{ message }`.
abbrev pub plain_error : String → ErrorInterface
plain_error m = record {
  name = none;
  message = m;
  code = undefined;
  details = undefined;
  cause = undefined;
}

-- An error with details, `{ message, details }`.
abbrev pub detailed_error : String → Value → ErrorInterface
detailed_error m d = record (plain_error m) { details = d }

-- What `parseToString` returns: a text as it is, or the text that `JSON.stringify` (of a boolean or
-- a number, `toString`) makes of a value.
pub data Text : Type 0 where
  verbatim : String → Text
  stringified : Value → Text

-- `parseToString`
unfoldable pub parse_to_string : Value → Option Text
parse_to_string (str s) = some (verbatim s)
parse_to_string undefined = none
parse_to_string null = none
parse_to_string v = some (stringified v)

-- The payload that `HttpException` answers with.
pub record ResponsePayload : Type 0 where
  pub error : String
  pub message : String
  pub status_code : ℕ
  pub code : Value
  pub description : Option Text
  pub details : Option Text
  pub cause : Option Text

pub record HttpException : Type 0 where
  pub name : String
  pub message : String
  pub status : ℕ
  pub cause : Value
  pub response : ResponsePayload

-- `buildException`
unfoldable pub build_exception : ExceptionsEnum → ℕ → Bool → String → ErrorInterface → HttpException
unfolding exception_name parse_to_string
build_exception kind status_code new_exception error_name error = record {
  name = if new_exception then error_name else exception_name kind;
  message = error.message;
  status = status_code;
  cause = or_value error.cause error.details;
  response = record {
    error = error_name;
    message = error.message;
    status_code = status_code;
    code = error.code;
    description = parse_to_string (or_value error.details error.code);
    details = parse_to_string error.details;
    cause = parse_to_string error.cause;
  };
}

-- The nine methods of `Exceptions`, by the member of `ExceptionsEnum` that names each.
unfoldable pub exception : ExceptionsEnum → ErrorInterface → Bool → HttpException
unfolding build_exception
exception contract e new =
    build_exception contract (status_code HttpStatusEnum.bad_request) new
      (or_else e.name "Bad Request") e
exception business e new =
    build_exception business (status_code HttpStatusEnum.forbidden) new (or_else e.name "Forbidden")
      e
exception invalid_token e new =
    build_exception invalid_token (status_code HttpStatusEnum.invalid_token) new
      (or_else e.name "Invalid Token") e
exception unauthorized e new =
    build_exception unauthorized (status_code HttpStatusEnum.unauthorized) new
      (or_else e.name "Unauthorized") e
exception too_many_requests e new =
    build_exception too_many_requests (status_code HttpStatusEnum.too_many_requests) new
      (or_else e.name "Too Many Requests") e
exception conflict e new =
    build_exception conflict (status_code HttpStatusEnum.conflict) new (or_else e.name "Conflict") e
exception not_found e new =
    build_exception not_found (status_code HttpStatusEnum.not_found) new
      (or_else e.name "Not Found") e
exception integration e new =
    build_exception integration (status_code HttpStatusEnum.service_unavailable) new
      (or_else e.name "Service Unavailable") e
exception internal e new =
    build_exception internal (status_code HttpStatusEnum.internal_server_error) new
      (or_else e.name "Internal Server Error") e

-- What the program catches: its own `HttpException`s, `AxiosError`s with the status that they may
-- lack, and any other `Error`.
pub data Thrown : Type 0 where
  http : HttpException → Thrown
  axios : Option ℕ → ErrorInterface → Thrown
  native : ErrorInterface → Thrown

-- The fields that are read when a caught error is passed on as an `ErrorInterface`.
unfoldable pub as_error : Thrown → ErrorInterface
as_error (http e) = record {
  name = some e.name;
  message = e.message;
  code = undefined;
  details = undefined;
  cause = e.cause;
}
as_error (axios status e) = e
as_error (native e) = e

-- `error.message`
abbrev pub thrown_message : Thrown → String
thrown_message (http e) = e.message
thrown_message (axios status e) = e.message
thrown_message (native e) = e.message

-- `exceptionsMapper`, from a status to the member of `ExceptionsEnum`.
unfoldable pub exceptions_mapper : ℕ → ExceptionsEnum
exceptions_mapper status =
    if eqb status (status_code HttpStatusEnum.bad_request)
    then contract
    else if eqb status (status_code HttpStatusEnum.forbidden)
    then business
    else if eqb status (status_code HttpStatusEnum.invalid_token)
    then invalid_token
    else if eqb status (status_code HttpStatusEnum.unauthorized)
    then unauthorized
    else if eqb status (status_code HttpStatusEnum.too_many_requests)
    then too_many_requests
    else if eqb status (status_code HttpStatusEnum.conflict)
    then conflict
    else if eqb status (status_code HttpStatusEnum.not_found)
    then not_found
    else if eqb status (status_code HttpStatusEnum.service_unavailable)
    then integration
    else internal

-- The kind that `externalErrorParser` chooses.
unfoldable pub parsed_kind : Thrown → ExceptionsEnum
unfolding exceptions_mapper
parsed_kind (http e) = exceptions_mapper e.status
parsed_kind (axios status e) = exceptions_mapper (or_else status 500)
parsed_kind (native e) = exceptions_mapper (status_code HttpStatusEnum.internal_server_error)

-- `externalErrorParser`
unfoldable pub external_error_parser : Thrown → HttpException
unfolding parsed_kind as_error exception
external_error_parser e = exception (parsed_kind e) (as_error e) true

-- `knownExceptions`, `exceptionsToIgnore` and `errorsToIgnore`
abbrev pub known_exceptions : List String
known_exceptions =
    "contract" ∷ "business" ∷ "invalidToken" ∷ "unauthorized" ∷ "manyRequests" ∷ "conflict"
    ∷ "notFound" ∷ "integration" ∷ "internal" ∷ []

abbrev pub exceptions_to_ignore : List String
exceptions_to_ignore = "manyRequests" ∷ "invalidToken" ∷ "contract" ∷ []

abbrev pub is_error_to_ignore : ℕ → Bool
is_error_to_ignore status =
    eqb status (status_code HttpStatusEnum.too_many_requests)
    || eqb status (status_code HttpStatusEnum.invalid_token)
    || eqb status (status_code HttpStatusEnum.i_am_a_teapot)

-- Whether `capture` reports an exception.
unfoldable pub is_captured : Thrown → Bool
is_captured (http e) =
    not (includes known_exceptions e.name && includes exceptions_to_ignore e.name)
    && not (is_error_to_ignore e.status)
is_captured (axios none e) = true
is_captured (axios (some status) e) = not (is_error_to_ignore status)
is_captured (native e) = true
