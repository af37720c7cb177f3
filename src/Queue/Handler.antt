-- ===== src/Queue/Handler.antt =====
-- src/modules/events/queue/handlers/EventsQueue.handler.ts, on an outside world `S`. Log lines are
-- not modelled.
use node_back_end_boilerplat.Value.{
  Value, Fields, get, strict_eq, obj, text_value, end, field, null,
}
use node_back_end_boilerplat.Prelude.{
  String, Bool, true, false, Option, is_truthy, or_else, if◌then◌else◌, ◌==◌,
}
use node_back_end_boilerplat.Effects.{
  Result, ok, Exec, pure, lift, fail, try_catch, throw_exception, ◌>>=◌, ◌>>◌,
}
use node_back_end_boilerplat.Exceptions.{internal, detailed_error}

-- An SQS message.
pub record Message : Type 0 where
  pub message_id : Option String
  pub body : Option String

-- `EventPayloadInterface`; the other fields are kept in `value`, the whole of it.
pub record EventPayload : Type 0 where
  pub schema : String
  pub event : String
  pub payload : Fields
  pub value : Value

-- What the handler sends to the event emitter.
pub data Emission : Type 0 where
  broadcast : Value → Emission
  emit_private : String → Value → Emission
  disable_all_routes disable_login : Value → Emission

-- `JSON.parse` (`none` where it throws), Joi's validation against `eventPayloadSchema`, the event
-- emitter, the webhook service, and the collection of unprocessed messages, whose insertion answers
-- with an identifier.
pub record Outside (S : Type 0) : Type 0 where
  pub parse : String → Option Value
  pub validate : Value → Result EventPayload
  pub send : Emission → Exec S (Unit {0})
  pub pull_hook : String → Fields → Exec S (Unit {0})
  pub insert_unprocessed : Message → Exec S (Option String)

-- `getMessageBody`: `toObject` answers `null` where parsing throws, so its `catch` is never reached.
unfoldable pub get_message_body : {S : Type 0} → Outside S → Message → Result Value
get_message_body outside message =
    if is_truthy message.body
    then ok (or_else (outside.parse (or_else message.body "")) null)
    else throw_exception internal (
        detailed_error "Invalid message body"
          (obj (field "messageId" (text_value message.message_id) end)))

-- `validatedBeforeEmitEvent`; the hash of the environment is `null` where the digest throws.
unfoldable pub validated_before_emit_event : Value → EventPayload → Bool
validated_before_emit_event env_secret_hash value =
    strict_eq (get "envSecretHash" value.payload) env_secret_hash

module _ {S : Type 0} (outside : Outside S) where
  abbrev pub unhandled : EventPayload → Exec S (Unit {0})
  unhandled value = fail internal (detailed_error "Unhandled event" value.value)

  -- `handleByDomainEvent`
  unfoldable pub handle_by_domain_event : EventPayload → Exec S (Unit {0})
  handle_by_domain_event value =
      if value.event == "NEW_HOOK"
      then outside.pull_hook value.event value.payload
      else unhandled value

  -- `if (this.validatedBeforeEmitEvent(value)) this.eventEmitterClient.send(…)`
  unfoldable pub send_validated : Value → EventPayload → Emission → Exec S (Unit {0})
  unfolding validated_before_emit_event
  send_validated env_secret_hash value emission =
      if validated_before_emit_event env_secret_hash value then outside.send emission else pure tt

  -- `handleBySchema`
  unfoldable pub handle_by_schema : Value → EventPayload → Exec S (Unit {0})
  unfolding handle_by_domain_event send_validated
  handle_by_schema env_secret_hash value =
      let disable = get "disable" value.payload in
      if value.schema == "DOMAIN_EVENT"
      then handle_by_domain_event value
      else if value.schema == "BROADCAST"
      then outside.send (broadcast value.value)
      else if value.schema == "NEW_CONNECTION"
      then outside.send (emit_private "new_connections" value.value)
      else if value.schema == "DISABLE_ALL_ROUTES"
      then send_validated env_secret_hash value (disable_all_routes disable)
      else if value.schema == "DISABLE_LOGIN"
      then send_validated env_secret_hash value (disable_login disable)
      else unhandled value

  -- The `try` of `execute`.
  unfoldable pub process : Value → Message → Exec S (Unit {0})
  unfolding get_message_body handle_by_schema
  process env_secret_hash message = do
    data_ ← lift (get_message_body outside message)
    payload ← lift (outside.validate data_)
    handle_by_schema env_secret_hash payload

  -- The `catch` of `execute`: the message is saved, and the answer says whether it was.
  unfoldable pub save_failed : Message → Exec S Bool
  save_failed message =
      try_catch (outside.insert_unprocessed message >> pure true) (λ _. pure false)

  -- `execute`
  unfoldable pub execute : Value → Message → Exec S Bool
  unfolding process save_failed
  execute env_secret_hash message =
      try_catch (process env_secret_hash message >> pure true) (λ _. save_failed message)
