-- ===== src/Exceptions/Laws.antt =====
-- The statuses of exceptions: src/modules/core/errors/Exceptions.ts and
-- src/modules/common/utils/externalErrorParser.util.ts.
use node_back_end_boilerplat.Prelude.{
  ℕ, Bool, true, false, ◌≡◌, ◌∙◌, not, refl, if◌then◌else◌, [], ◌∷◌, eqb, any, arith,
}
use node_back_end_boilerplat.Exceptions.{
  ExceptionsEnum, contract, business, invalid_token, unauthorized, too_many_requests, conflict,
  not_found, integration, internal, ErrorInterface, exception, HttpException, as_error, http,
  exceptions_mapper, external_error_parser, parsed_kind, is_captured,
}

-- A status that one of the nine exceptions answers with.
abbrev pub is_exception_status : ℕ → Bool
is_exception_status n = any (eqb n) (400 ∷ 403 ∷ 498 ∷ 401 ∷ 429 ∷ 409 ∷ 404 ∷ 503 ∷ 500 ∷ [])

-- Parsing an exception that one of the nine methods built, with any error, gives back the kind that
-- built it: no kind is turned into another.
pub parsed_kind-exception :
    (kind : ExceptionsEnum) (e : ErrorInterface) (new : Bool)
    → parsed_kind (http (exception kind e new)) ≡ kind
unfolding parsed_kind exception
parsed_kind-exception contract e new = refl
parsed_kind-exception business e new = refl
parsed_kind-exception invalid_token e new = refl
parsed_kind-exception unauthorized e new = refl
parsed_kind-exception too_many_requests e new = refl
parsed_kind-exception conflict e new = refl
parsed_kind-exception not_found e new = refl
parsed_kind-exception integration e new = refl
parsed_kind-exception internal e new = refl

unfoldable pub status_of : ExceptionsEnum → ℕ
status_of contract = 400
status_of business = 403
status_of invalid_token = 498
status_of unauthorized = 401
status_of too_many_requests = 429
status_of conflict = 409
status_of not_found = 404
status_of integration = 503
status_of internal = 500

pub exception_fields :
    (kind : ExceptionsEnum) (e : ErrorInterface) (new : Bool)
    → ((exception kind e new).status ≡ status_of kind)
      × ((exception kind e new).message ≡ e.message)
unfolding exception status_of
exception_fields contract e new = (refl, refl)
exception_fields business e new = (refl, refl)
exception_fields invalid_token e new = (refl, refl)
exception_fields unauthorized e new = (refl, refl)
exception_fields too_many_requests e new = (refl, refl)
exception_fields conflict e new = (refl, refl)
exception_fields not_found e new = (refl, refl)
exception_fields integration e new = (refl, refl)
exception_fields internal e new = (refl, refl)

pub status_of-exceptions_mapper :
    (n : ℕ) → status_of (exceptions_mapper n) ≡ (if is_exception_status n then n else 500)
unfolding status_of exceptions_mapper
status_of-exceptions_mapper n = ground arith

-- The parser keeps the status of an HTTP exception if it is one of the nine statuses, and answers
-- with 500 otherwise; the message is kept in both cases.
pub status-external_error_parser :
    (e : HttpException)
    → ((external_error_parser (http e)).status
        ≡ (if is_exception_status e.status then e.status else 500))
      × ((external_error_parser (http e)).message ≡ e.message)
unfolding external_error_parser
status-external_error_parser e = (
  (exception_fields (exceptions_mapper e.status) (as_error (http e)) true).0
      ∙ status_of-exceptions_mapper e.status,
  (exception_fields (exceptions_mapper e.status) (as_error (http e)) true).1,
)

-- The kinds that a client causes by itself and that are not reported.
abbrev pub is_expected : ExceptionsEnum → Bool
is_expected contract = true
is_expected invalid_token = true
is_expected too_many_requests = true
is_expected _ = false

-- Of the exceptions that the program builds for itself, the error tracker is told of exactly those
-- that are no contract, invalid token or too many requests exception.
pub is_captured-exception :
    (kind : ExceptionsEnum) (e : ErrorInterface)
    → is_captured (http (exception kind e false)) ≡ not (is_expected kind)
unfolding is_captured exception
is_captured-exception contract e = refl
is_captured-exception business e = refl
is_captured-exception invalid_token e = refl
is_captured-exception unauthorized e = refl
is_captured-exception too_many_requests e = refl
is_captured-exception conflict e = refl
is_captured-exception not_found e = refl
is_captured-exception integration e = refl
is_captured-exception internal e = refl
