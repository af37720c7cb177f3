-- ===== src/HttpStatus.antt =====
-- The statuses of src/modules/common/enums/httpStatus.enum.ts.
use node_back_end_boilerplat.Prelude.{ℕ}

-- `HttpStatusEnum`
pub data HttpStatusEnum : Type 0 where
  continue switching_protocols processing earlyhints ok created accepted : HttpStatusEnum
  non_authoritative_information no_content reset_content partial_content : HttpStatusEnum
  multiple_choices moved_permanently found see_other not_modified use_proxy : HttpStatusEnum
  unused temporary_redirect permanent_redirect bad_request unauthorized : HttpStatusEnum
  payment_required forbidden not_found method_not_allowed not_acceptable : HttpStatusEnum
  proxy_authentication_required request_timeout conflict gone length_required : HttpStatusEnum
  precondition_failed request_entity_too_large request_uri_too_long : HttpStatusEnum
  unsupported_media_type requested_range_not_satisfiable expectation_failed : HttpStatusEnum
  i_am_a_teapot misdirected_request unprocessable_entity locked : HttpStatusEnum
  failed_dependency upgrade_required precondition_required too_many_requests : HttpStatusEnum
  invalid_token internal_server_error not_implemented bad_gateway : HttpStatusEnum
  service_unavailable gateway_timeout not_supported : HttpStatusEnum

-- The number of a status.
abbrev pub status_code : HttpStatusEnum → ℕ
status_code continue = 100
status_code switching_protocols = 101
status_code processing = 102
status_code earlyhints = 103
status_code ok = 200
status_code created = 201
status_code accepted = 202
status_code non_authoritative_information = 203
status_code no_content = 204
status_code reset_content = 205
status_code partial_content = 206
status_code multiple_choices = 300
status_code moved_permanently = 301
status_code found = 302
status_code see_other = 303
status_code not_modified = 304
status_code use_proxy = 305
status_code unused = 306
status_code temporary_redirect = 307
status_code permanent_redirect = 308
status_code bad_request = 400
status_code unauthorized = 401
status_code payment_required = 402
status_code forbidden = 403
status_code not_found = 404
status_code method_not_allowed = 405
status_code not_acceptable = 406
status_code proxy_authentication_required = 407
status_code request_timeout = 408
status_code conflict = 409
status_code gone = 410
status_code length_required = 411
status_code precondition_failed = 412
status_code request_entity_too_large = 413
status_code request_uri_too_long = 414
status_code unsupported_media_type = 415
status_code requested_range_not_satisfiable = 416
status_code expectation_failed = 417
status_code i_am_a_teapot = 418
status_code misdirected_request = 421
status_code unprocessable_entity = 422
status_code locked = 423
status_code failed_dependency = 424
status_code upgrade_required = 426
status_code precondition_required = 428
status_code too_many_requests = 429
status_code invalid_token = 498
status_code internal_server_error = 500
status_code not_implemented = 501
status_code bad_gateway = 502
status_code service_unavailable = 503
status_code gateway_timeout = 504
status_code not_supported = 505
