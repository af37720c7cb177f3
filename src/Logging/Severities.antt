-- ===== src/Logging/Severities.antt =====
-- How severe a report to the error tracker is: src/modules/common/utils/sentryCalls.util.ts with
-- src/modules/common/utils/externalErrorParser.util.ts.
use node_back_end_boilerplat.Logging.{
  SeverityLevel, warning, fatal, capture_exception, parse_exception_status_code_to_sentry_severity,
}
use node_back_end_boilerplat.Exceptions.{
  Thrown, ExceptionsEnum, ErrorInterface, exception, parsed_kind, as_error, contract, integration,
  internal, external_error_parser, build_exception,
}
use node_back_end_boilerplat.Prelude.{Bool, ◌≡◌, refl, true}

-- The severity that each kind of exception deserves.
abbrev pub severity_of : ExceptionsEnum → SeverityLevel
severity_of integration = fatal
severity_of internal = SeverityLevel.error
severity_of _ = warning

severity-exception :
    (kind : ExceptionsEnum) (e : ErrorInterface) (new : Bool)
    → parse_exception_status_code_to_sentry_severity (exception kind e new).status
      ≡ severity_of kind
unfolding exception build_exception parse_exception_status_code_to_sentry_severity
severity-exception contract e new = refl
severity-exception integration e new = refl
severity-exception internal e new = refl
severity-exception _ e new = refl

-- Nothing is reported below a warning, and only what is fatal as fatal: whatever was thrown, the
-- report is fatal where it is parsed as an integration exception, an error where it is parsed as an
-- internal one, and a warning where it is parsed as one of the other seven kinds.
pub capture_exception-eq-severity_of :
    (e : Thrown) → capture_exception e ≡ severity_of (parsed_kind e)
unfolding capture_exception external_error_parser
capture_exception-eq-severity_of e = severity-exception (parsed_kind e) (as_error e) true
