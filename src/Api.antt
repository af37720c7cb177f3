-- ===== src/Api.antt =====
-- The other routes: src/modules/api/controllers/Health.controller.ts, and the controllers of
-- src/modules/app/hook, src/modules/app/file and src/modules/app/subscription. Guards and pipes run before
-- a route.
pub mod Validation
pub mod ServerEvents
use Prim.Native.String.{len}
use node_back_end_boilerplat.Prelude.{
  ℕ, String, Bool, Option, none, some, ◌||◌, not, eqb, if◌then◌else◌, is_truthy, or_else, List, map,
  join_text,
}
use node_back_end_boilerplat.HttpStatus
use node_back_end_boilerplat.HttpStatus.{status_code}
use node_back_end_boilerplat.Value
use node_back_end_boilerplat.Value.{Value, Fields, str, fields_of}
use node_back_end_boilerplat.Effects.{Exec, Result, ok, pure, raise, ◌>>=◌, ◌>>◌}
use node_back_end_boilerplat.Exceptions.{Thrown, native, plain_error}
use node_back_end_boilerplat.Webhook
use node_back_end_boilerplat.Webhook.{Hooks}
use node_back_end_boilerplat.Files
use node_back_end_boilerplat.Files.{FileServices, Downloaded, Uploaded}
use node_back_end_boilerplat.Subscriptions
use node_back_end_boilerplat.Subscriptions.{Backing}
use node_back_end_boilerplat.Domain.Subscription
use node_back_end_boilerplat.Domain.Subscription.{Subscription}

-- `messages` of the constants: what is said of an element.
pub data Outcome : Type 0 where
  found not_found created not_created updated not_updated deleted not_deleted : Outcome
  bad_request unauthorized forbidden conflict not_acceptable not_implemented : Outcome
  service_unavailable unrecognized_error : Outcome

unfoldable pub message : Outcome → String → String
message found element = join_text element " founded successfully."
message not_found element = join_text element " not found!"
message created element = join_text element " created successfully."
message not_created element = join_text "Error to create " (join_text element "!")
message updated element = join_text element " updated successfully."
message not_updated element = join_text "Error to update " (join_text element "!")
message deleted element = join_text element " deleted successfully."
message not_deleted element = join_text "Error to delete " (join_text element "!")
message bad_request element = join_text element " is invalid!"
message unauthorized element = join_text element " is unauthorized!"
message forbidden element = join_text element " is forbidden!"
message conflict element = join_text element " already exists!"
message not_acceptable element = join_text element " is not acceptable!"
message not_implemented element = join_text element " is not implemented!"
message service_unavailable element = join_text element " is unavailable!"
message unrecognized_error element = "Unrecognized error!"

-- What `healthCheck` answers.
pub record Health : Type 0 where
  pub base_url : Option String
  pub url : String
  pub method : String
  pub host : Option String
  pub connection : Option String
  pub accept : Option String
  pub path_params : Value
  pub query_params : Value
  pub body : Value
  pub status_code : ℕ
  pub status_message : String

-- `healthCheck`, on the request's route, texts and headers.
unfoldable pub health_check :
    Option String → String → String → (String → Option String) → Value → Value → Value → ℕ → Health
unfolding message
health_check route_url url method header path_params query_params body status = record {
  base_url = route_url;
  url = url;
  method = method;
  host = header "host";
  connection = header "connection";
  accept = header "accept";
  path_params = path_params;
  query_params = query_params;
  body = body;
  status_code = status;
  status_message = message found "Endpoint";
}

-- `healthCheckV1`
unfoldable pub health_check_v1 : String
health_check_v1 = "OK"

-- What a client is answered: a status, and its message.
abbrev pub StatusMessage : Type 0
StatusMessage = ℕ × String

-- `query.responseSchema.length`, which throws where the query has no schema.
abbrev pub schema_of : {S : Type 0} → Value → Exec S String
schema_of (str schema) = pure schema
schema_of v = raise (native (plain_error "Cannot read properties of undefined (reading 'length')"))

-- `registerEventHook`
unfoldable pub register_event_hook : {S : Type 0} → Hooks S → Value → Exec S StatusMessage
unfolding Webhook.save message
register_event_hook hooks query = do
  schema ← schema_of (Value.get "responseSchema" (fields_of query))
  (if not (eqb (len schema) 0)
      then Webhook.save hooks schema query
        >> pure (status_code HttpStatus.created, message created "Hook event register")
      else pure
          (status_code HttpStatus.not_acceptable, message not_acceptable "Hook event register"))

-- `listSubscriptions`
unfoldable pub list_subscriptions : {S : Type 0} → Backing S → Bool → Exec S (List Fields)
unfolding Subscriptions.list Subscription.get_attributes
list_subscriptions backing use_cache = do
  result ← Subscriptions.list backing use_cache
  pure (map Subscription.get_attributes result)

-- `bad_request` is NestJS's `BadRequestException`, with its message.
module _ {S : Type 0} (services : FileServices S) (bad_request : String → Thrown) where
  -- `downloadFile`
  unfoldable pub download_file_route :
      Option String → Option String → Option String → Exec S Downloaded
  unfolding Files.download_file
  download_file_route file_name_header file_path_header accept =
      if not (is_truthy file_name_header) || not (is_truthy file_path_header)
      then raise (bad_request "\"fileName\" and \"filePath\" headers are required")
      else Files.download_file services file_name_header file_path_header accept

  -- `uploadFile`, on the file of the request: its name, its type, its bytes and whether it is valid.
  unfoldable pub upload_file_route :
      Option (String × Option String × Exec S Value × Bool)
      → Option String
      → Option String
      → Exec S Uploaded
  unfolding Files.upload_file
  upload_file_route none file_name_header accept = raise (bad_request "File is required")
  upload_file_route (some (file_name, mimetype, to_buffer, is_valid)) file_name_header accept =
      if is_truthy file_name_header
      then Files.upload_file services file_name mimetype to_buffer is_valid
          (or_else file_name_header "") accept
      else raise (bad_request "\"fileName\" header is required")
