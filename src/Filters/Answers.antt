-- ===== src/Filters/Answers.antt =====
-- What src/modules/api/filters/HttpExceptions.filter.ts answers and reports.
use node_back_end_boilerplat.Filters.{catch_http, false}
use node_back_end_boilerplat.Prelude.{
  ℕ, String, true, ◌≡◌, refl, ◌∙◌, not, if◌then◌else◌, Option, some, or_else,
}
use node_back_end_boilerplat.Exceptions.{
  ExceptionsEnum, contract, business, invalid_token, unauthorized, too_many_requests, conflict,
  not_found, integration, internal, ErrorInterface, exception, exception_name, exceptions_mapper,
  http, axios, native, as_error, external_error_parser,
}
use node_back_end_boilerplat.Exceptions.Laws.{
  is_expected, is_captured-exception, is_exception_status, status_of, exception_fields,
  status_of-exceptions_mapper,
}

-- The answer to an exception of the program's own.
own_answer :
    (kind : ExceptionsEnum) (e : ErrorInterface) (timestamp : String)
    → ((catch_http (http (exception kind e false)) timestamp).status ≡ status_of kind)
      × ((catch_http (http (exception kind e false)) timestamp).response.error
          ≡ some (exception_name kind))
      × ((catch_http (http (exception kind e false)) timestamp).response.message ≡ e.message)
unfolding catch_http exception exception_name status_of
own_answer contract e timestamp = (refl, refl, refl)
own_answer business e timestamp = (refl, refl, refl)
own_answer invalid_token e timestamp = (refl, refl, refl)
own_answer unauthorized e timestamp = (refl, refl, refl)
own_answer too_many_requests e timestamp = (refl, refl, refl)
own_answer conflict e timestamp = (refl, refl, refl)
own_answer not_found e timestamp = (refl, refl, refl)
own_answer integration e timestamp = (refl, refl, refl)
own_answer internal e timestamp = (refl, refl, refl)

reported_lem :
    (kind : ExceptionsEnum) (e : ErrorInterface) (timestamp : String)
    → (catch_http (http (exception kind e false)) timestamp).reported ≡ not (is_expected kind)
unfolding catch_http
reported_lem kind e timestamp = is_captured-exception kind e

axios_status :
    (status : Option ℕ) (e : ErrorInterface) (timestamp : String)
    → (catch_http (axios status e) timestamp).status
      ≡ (if is_exception_status (or_else status 500) then or_else status 500 else 500)
unfolding catch_http external_error_parser
axios_status status e timestamp =
    (exception_fields (exceptions_mapper (or_else status 500)) (as_error (axios status e)) true).0
    ∙ status_of-exceptions_mapper (or_else status 500)

-- What a client is answered, and whether the error tracker is told. An exception of the program's own
-- is answered with the status and the name of its kind and with its message, and reported unless it is
-- a contract, invalid token or too many requests exception. The error of a request that the program
-- made is answered with its status if that is one of the nine, or else with 500; any other error is
-- answered with 500 and reported.
pub catch_http_answers :
    (kind : ExceptionsEnum) (status : Option ℕ) (e : ErrorInterface) (timestamp : String)
    → ((catch_http (http (exception kind e false)) timestamp).status ≡ status_of kind)
      × ((catch_http (http (exception kind e false)) timestamp).response.error
          ≡ some (exception_name kind))
      × ((catch_http (http (exception kind e false)) timestamp).response.message ≡ e.message)
      × ((catch_http (http (exception kind e false)) timestamp).reported ≡ not (is_expected kind))
      × ((catch_http (axios status e) timestamp).status
          ≡ (if is_exception_status (or_else status 500) then or_else status 500 else 500))
      × ((catch_http (native e) timestamp).status ≡ 500)
      × ((catch_http (native e) timestamp).reported ≡ true)
unfolding catch_http external_error_parser
catch_http_answers kind status e timestamp =
    let (same_status, same_name, same_message) = own_answer kind e timestamp in
    (
      same_status,
      same_name,
      same_message,
      reported_lem kind e timestamp,
      axios_status status e timestamp,
      refl,
      refl,
    )
