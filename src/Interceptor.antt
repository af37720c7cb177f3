-- ===== src/Interceptor.antt =====
-- src/modules/api/interceptors/Response.interceptor.ts, with `maskBuffer` of
-- src/modules/common/utils/masks.util.ts: the two lines that are logged for each request. The clock, a new
-- identifier and the reading of a number are arguments; the headers of the answer are not modelled.
pub mod Lines
use node_back_end_boilerplat.Prelude.{
  ℕ, ◌+◌, ◌-◌, String, Bool, Option, none, some, or_else, or_option, is_truthy, List, [], ◌∷◌,
  if◌then◌else◌, join_text, false,
}
use node_back_end_boilerplat.Value.{
  Value, undefined, str, num, obj, arr, cons, nil, is_object, or_value, null,
}
use node_back_end_boilerplat.Value.Masking.{mask_object_sensitive_data}
use node_back_end_boilerplat.Storage.Json.{Json, to_string}
use node_back_end_boilerplat.Text.{split, first}
use node_back_end_boilerplat.Effects.{Exec, Result, ok, err}
use node_back_end_boilerplat.Exceptions.{Thrown, thrown_message}

-- What a request carries or a route answers with: files and buffers, or any other value.
pub data Payload : Type 0 where
  streamable_file array_buffer node_buffer : Payload
  plain : Value → Payload

-- The parts of a `RequestInterface` that are read; a header may be sent more than once.
pub record Request : Type 0 where
  pub method : String
  pub params : Payload
  pub query : Payload
  pub body : Payload
  pub request_ids : List String
  pub timestamps : List String
  pub id : Option String
  pub ip : Option String
  pub remote_address : Option String
  pub user_client : Value
  pub original_url : String
  pub url : String
  pub route_url : Option String

-- The library functions and the clocks.
pub record Surroundings : Type 0 where
  pub json : Json
  pub to_upper : String → String
  pub parse_int : String → Option ℕ
  pub error_name : Thrown → String
  pub new_uuid : String
  pub requested_at : ℕ
  pub responded_at : ℕ

-- `const [header] = normalizeToArray(headers[…])`
abbrev pub first_header : List String → Option String
first_header [] = none
first_header (header ∷ headers) = some header

-- `getRequestPath`
unfoldable pub get_request_path : Request → String
unfolding split
get_request_path request =
    let original = first (split b'?' request.original_url) in
    if is_truthy request.route_url
    then or_else request.route_url ""
    else if is_truthy original
    then or_else original ""
    else or_else (first (split b'?' request.url)) ""

-- `maskBuffer`
unfoldable pub mask_buffer : Payload → Value
mask_buffer streamable_file = str "[StreamableFile]"
mask_buffer array_buffer = str "[ArrayBuffer]"
mask_buffer node_buffer = str "[Buffer]"
mask_buffer (plain v) = null

-- What stands for a payload in a log: what hides a buffer, what masks an object, or the value itself.
unfoldable pub logged_data : Payload → Value
unfolding mask_object_sensitive_data mask_buffer
logged_data (plain v) = if is_object v then mask_object_sensitive_data v else v
logged_data payload = mask_buffer payload

module _ (around : Surroundings) where
  -- `parseRequestDataToString`; the template writes `undefined` where `JSON.stringify` gives no text.
  unfoldable pub parse_request_data_to_string : Payload → String
  parse_request_data_to_string payload = around.json.stringify (logged_data payload)

  -- `parseResponseDataToString`
  unfoldable pub parse_response_data_to_string : Payload → String
  unfolding to_string
  parse_response_data_to_string payload = to_string around.json (logged_data payload) false

  -- `requestId`
  unfoldable pub request_id_of : Request → String
  request_id_of request =
      or_else (or_option (first_header request.request_ids) request.id) around.new_uuid

  -- `clientIp`
  unfoldable pub client_ip_of : Request → Option String
  client_ip_of request = or_option request.ip request.remote_address

  -- `requestDateMs`: the header's number, which may be no number, or the clock.
  unfoldable pub request_date : Request → Option ℕ
  request_date request = elim (first_header request.timestamps) [
    | none ↦ some around.requested_at
    | some text ↦ around.parse_int text
  ]

  -- `getTimestamp`: the distance of the two times; a header that is no number gives `NaN`.
  unfoldable pub get_timestamp : Option ℕ → String
  get_timestamp none = "NaN"
  get_timestamp (some requested) =
      around.json.string_of
        (num ((around.responded_at - requested) + (requested - around.responded_at)))

  abbrev pub route_text : Request → String
  unfolding get_request_path
  route_text request =
      join_text "["
        (join_text (around.to_upper request.method) (join_text "] " (get_request_path request)))

  -- A value within a template.
  abbrev pub template_text : Value → String
  template_text (str s) = s
  template_text v = around.json.string_of v

  -- The line of the request
  unfoldable pub requested_line : Request → String
  unfolding parse_request_data_to_string route_text
  requested_line request = join_text "REQUESTED - " (
      join_text (route_text request) (
        join_text " { pathParams: " (
          join_text (parse_request_data_to_string request.params) (
            join_text ", queryParams: " (
              join_text (parse_request_data_to_string request.query) (
                join_text ", body: " (
                  join_text (parse_request_data_to_string request.body) (
                    join_text ", userId: " (
                      join_text
                        (to_string around.json (or_value request.user_client (str "undefined"))
                          false)
                        " }")))))))))

  -- What is logged of an error, whose own fields are taken to hold no sensitive name.
  unfoldable pub error_text : Thrown → String
  error_text e = join_text (around.error_name e) (join_text ": " (thrown_message e))

  abbrev pub outcome_text : Result Payload → String
  unfolding parse_response_data_to_string error_text
  outcome_text (ok payload) = parse_response_data_to_string payload
  outcome_text (err e) = error_text e

  abbrev pub outcome_word : Result Payload → String
  outcome_word (ok payload) = "RESPONDING - "
  outcome_word (err e) = "RESPONDING ERROR - "

  -- The line of the answer or of the error
  unfoldable pub responding_line : Request → Result Payload → String
  unfolding outcome_text get_timestamp request_date route_text
  responding_line request outcome = join_text (outcome_word outcome) (
      join_text (route_text request) (
        join_text " (" (
          join_text (get_timestamp (request_date request))
            (join_text " ms): " (outcome_text outcome)))))

  -- `intercept`: the handler's outcome, and what was logged around it.
  unfoldable pub intercept :
      {S : Type 0} → Request → Exec S Payload → Exec (S × List String) Payload
  unfolding requested_line responding_line
  intercept request handle (s, lines) =
      let (outcome, s') = handle s in
      (outcome, (s', responding_line request outcome ∷ requested_line request ∷ lines))
