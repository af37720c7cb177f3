-- ===== src/Queue/Producer.antt =====
-- src/modules/events/queue/producers/AbstractProducer.producer.ts: messages that are sent to the events
-- queue. The clock, the identifiers, the digest and the error tracker are arguments.
pub mod Reports
use Prim.Native.String
use Prim.Native.String.{String}
use node_back_end_boilerplat.Prelude.{
  ℕ, zero, suc, Bool, true, false, if◌then◌else◌, Option, some, none, List, [], ◌∷◌, join_text,
  or_else,
}
use node_back_end_boilerplat.Value.{
  Value, undefined, null, str, num, obj, Fields, field, end, spread, fields_of, text_value,
}
use node_back_end_boilerplat.Value.Masking.{check_fields_existence, replace_fields}
use node_back_end_boilerplat.Effects.{Exec, ok, pure, try_catch, ◌>>=◌, ◌>>◌}
use node_back_end_boilerplat.Exceptions.{Thrown}
use node_back_end_boilerplat.Storage.Json.{Json, to_string}
use node_back_end_boilerplat.Aws.{Send}
use node_back_end_boilerplat.Aws.Sqs.{SendParams, send_message}

-- What a producer is built with. `capture` is `captureException` with its data and its user.
pub record Producer (S : Type 0) : Type 0 where
  pub producer_name : String
  pub application_name : String
  pub queue_url : String
  pub json : Json
  pub send : Send S
  pub generate_uuid : S → String × S
  pub iso_now : S → String
  pub utc_now : S → String
  pub hashing : String → Option String
  pub capture : Thrown → Fields → Fields → S → S

-- `EventDispatchInterface`
pub record EventDispatch : Type 0 where
  pub payload : Fields
  pub schema : String
  pub author : Option String
  pub title : Option String

-- `text.slice(0, n)`
abbrev pub slice_text : ℕ → String → String
slice_text zero s = ""
slice_text (suc n) String.[] = ""
slice_text (suc n) (String.◌∷◌ c s) = String.◌∷◌ c (slice_text n s)

abbrev pub dispatched_sensitive_fields : List String
dispatched_sensitive_fields = "password" ∷ "newPassword" ∷ "cvv" ∷ "pin" ∷ []

-- `maskSensitiveData`
unfoldable pub mask_sensitive_data : Value → Value
unfolding check_fields_existence replace_fields
mask_sensitive_data v =
    if check_fields_existence v dispatched_sensitive_fields
    then replace_fields v dispatched_sensitive_fields (str "***")
    else v

-- What is left of a message without its payload.
unfoldable pub message_data : String → String → String → String → Fields
message_data id schema source timestamp = field "id" (str id) (
    field "schema" (str schema) (
      field "schemaVersion" (num 1)
        (field "source" (str source) (field "timestamp" (str timestamp) end))))

-- `{ ...this.maskSensitiveData(messagePayload), ...messageData }`
unfoldable pub report_data : Fields → Fields → Fields
unfolding mask_sensitive_data
report_data payload data_ = spread (fields_of (mask_sensitive_data (obj payload))) data_

module _ {S : Type 0} (producer : Producer S) where
  -- `buildMessageBody`, without and with the payload.
  unfoldable pub build_message_data : String → Exec S Fields
  unfolding message_data
  build_message_data schema s =
      let (id, s') = producer.generate_uuid s in
      (
        ok (
            message_data id schema
              (join_text producer.producer_name (join_text ", " producer.application_name))
              (producer.iso_now s')),
        s',
      )

  unfoldable pub message_body : Fields → Fields → Value
  message_body payload data_ = obj (field "payload" (obj payload) data_)

  -- A text that a template writes, "null" where there is none.
  abbrev pub or_null : Option String → String
  or_null o = or_else o "null"

  -- `buildDeduplicationId`
  unfoldable pub build_deduplication_id : Fields → S → String
  unfolding to_string
  build_deduplication_id payload s =
      join_text (or_null (producer.hashing (to_string producer.json (obj payload) false)))
        (join_text "-" (slice_text 19 (producer.utc_now s)))

  -- The call of `sendMessage`.
  unfoldable pub send_params : EventDispatch → Fields → String → SendParams
  unfolding message_body
  send_params event data_ deduplication_id = record {
    queue_url = producer.queue_url;
    message = message_body event.payload data_;
    message_group_id = producer.producer_name;
    message_deduplication_id = deduplication_id;
    title = or_else event.title "New Message";
    author = or_else event.author producer.producer_name;
  }

  -- The `catch` of `dispatch`.
  unfoldable pub report_failure : EventDispatch → Fields → Thrown → Exec S Value
  unfolding report_data
  report_failure event data_ error s = (
    ok null,
    producer.capture error (report_data event.payload data_)
        (field "title" (text_value event.title) (field "author" (text_value event.author) end)) s,
  )

  -- `dispatch`
  unfoldable pub dispatch : EventDispatch → Exec S Value
  unfolding build_message_data build_deduplication_id send_params send_message report_failure
  dispatch event = do
    data_ ← build_message_data event.schema
    deduplication_id ← (λ s. (ok (build_deduplication_id event.payload s), s))
    try_catch (send_message producer.send producer.json (send_params event data_ deduplication_id))
        (report_failure event data_)
