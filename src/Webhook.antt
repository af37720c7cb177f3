-- ===== src/Webhook.antt =====
-- src/modules/app/hook/services/Webhook.service.ts: hooks in Redis that are sent, and deleted, once the
-- time that they name has passed. The method and the endpoint of a hook are texts or missing.
pub mod Due
pub mod Pulled
use node_back_end_boilerplat.Storage.Redis
use node_back_end_boilerplat.Storage.Redis.{RedisDriver, generate_key, get_id}
use node_back_end_boilerplat.Storage.Json.{Json}
use node_back_end_boilerplat.Rest.{Request, request_hook}
use node_back_end_boilerplat.Prelude.{
  ℕ, String, Bool, true, false, if◌then◌else◌, Option, some, none, or_else, or_option, is_truthy,
  List, [], ◌∷◌, map, ltb, join_text, ◌&&◌,
}
use node_back_end_boilerplat.Value.{
  Value, str, date, obj, Fields, field, end, spread, fields_of, get, truthy,
}
use node_back_end_boilerplat.Effects.{Exec, Result, ok, err, pure, lift, bind_result, ◌>>=◌, ◌>>◌}
use node_back_end_boilerplat.Exceptions.{native, plain_error}

-- What the service is built with. `epoch_of` is `fromJSDateToDateTime` and `fromDateTimeToEpoch`, with
-- no answer for a value that is no date; `to_date` is `new Date` of a text.
pub record Hooks (S : Type 0) : Type 0 where
  pub json : Json
  pub redis : RedisDriver S
  pub request : Request S
  pub generate_uuid : S → String × S
  pub to_date : String → ℕ
  pub epoch_of : Value → Option ℕ
  pub epoch_now : S → ℕ
  pub to_lower_case : String → String
  pub mocked_service_base_url : String
  pub hooks_time_to_live : ℕ

-- The key of a hook.
unfoldable pub hook_key : String → String → String
unfolding generate_key
hook_key hook_schema hook_id = generate_key (join_text hook_schema (join_text ":" hook_id)) "hooks"

-- The identifier of a hook, from its key.
unfoldable pub hook_id_of : String → String → String
unfolding get_id
hook_id_of hook_schema key = get_id (get_id key "hooks") hook_schema

-- A text that may be missing, of a value.
abbrev pub text_of : Value → Option String
text_of (str s) = some s
text_of v = none

-- `key.replace` needs a text: a missing key, of an entry that was not read, throws.
abbrev pub key_text : Value → Result String
key_text (str s) = ok s
key_text v = err (native (plain_error "Cannot read properties of undefined (reading 'replace')"))

-- `map` on an optional value.
abbrev pub map_text : (String → String) → Option String → Option String
map_text f none = none
map_text f (some s) = some (f s)

-- A promise that is started: what it throws is kept for `Promise.all`.
unfoldable pub start : {S A : Type 0} → Exec S A → Exec S (Result A)
start m s = let (r, s') = m s in (ok r, s')

module _ {S : Type 0} (hooks : Hooks S) where
  -- `payloadBuilder`
  abbrev pub date_field : Value → Fields → Value
  date_field (str s) o =
      if truthy (str s) then obj (spread o (field "sendAt" (date (hooks.to_date s)) end)) else obj o
  date_field v o = obj o

  unfoldable pub payload_builder : Value → Value
  payload_builder (obj o) = date_field (get "sendAt" o) o
  payload_builder v = v

  -- `get`
  unfoldable pub get_hook : String → String → Exec S Value
  unfolding Redis.get hook_key payload_builder
  get_hook hook_id hook_schema = do
    result ← Redis.get hooks.json hooks.redis (hook_key hook_schema hook_id)
    pure (payload_builder result)

  -- `save`
  unfoldable pub save : String → Value → Exec S String
  unfolding Redis.set hook_key payload_builder
  save hook_schema data_ s =
      let (hook_id, s') = hooks.generate_uuid s in
      Redis.set hooks.json hooks.redis (hook_key hook_schema hook_id) (payload_builder data_)
        hooks.hooks_time_to_live s'

  -- `delete`
  unfoldable pub delete : String → String → Exec S Bool
  unfolding Redis.delete hook_key
  delete hook_id hook_schema = do
    deleted ← Redis.delete hooks.json hooks.redis (hook_key hook_schema hook_id)
    pure (ltb 0 deleted)

  -- `list`: the key and the hook of every entry.
  unfoldable pub list : String → Exec S (List (Value × Value))
  unfolding Redis.get_by_key_pattern payload_builder
  list additional_pattern = do
    result ←
        Redis.get_by_key_pattern hooks.json hooks.redis
          (join_text "hooks:" (join_text additional_pattern ":*"))
    pure (map (λ entry. (get "key" entry, payload_builder (get "value" entry))) result)

  -- `epochSentAt`
  unfoldable pub epoch_sent_at : Value → Option ℕ
  epoch_sent_at hook =
      let send_at = get "sendAt" (fields_of hook) in
      if truthy send_at then hooks.epoch_of send_at else some 0

  -- `epochDateNow > epochSentAt`, which is false where the latter is no number.
  abbrev pub is_after : ℕ → Option ℕ → Bool
  is_after now none = false
  is_after now (some sent_at) = ltb sent_at now

  unfoldable pub is_due : ℕ → Value → Bool
  unfolding epoch_sent_at
  is_due now hook = is_after now (epoch_sent_at hook)

  -- The request of a hook, if it has a method and an endpoint.
  unfoldable pub send_hook : Value → Value → Exec S (Unit {0})
  unfolding request_hook
  send_hook hook data_ =
      let endpoint =
        or_else (text_of (get "responseEndpoint" (fields_of hook))) hooks.mocked_service_base_url in
      let method = map_text hooks.to_lower_case (text_of (get "responseMethod" (fields_of hook))) in
      if is_truthy method && is_truthy (some endpoint)
      then request_hook hooks.request (or_else method "") endpoint (obj end) data_ >> pure tt
      else pure tt

  -- One turn of the loop: the outcome of the request and of the deletion.
  unfoldable pub pull_one :
      String → Value → Value × Value → Exec S (Result (Unit {0}) × Result Bool)
  unfolding send_hook start delete hook_id_of
  pull_one hook_schema data_ (key, hook) = do
    pulled ← start (send_hook hook data_)
    text ← lift (key_text key)
    deleted ← start (delete (hook_id_of hook_schema text) hook_schema)
    pure (pulled, deleted)

  -- The loop of `pullHook`, on the hooks that it lists.
  unfoldable pub pull_all :
      String → Value → ℕ → List (Value × Value) → Exec S (List (Result (Unit {0}) × Result Bool))
  unfolding is_due pull_one
  pull_all hook_schema data_ now [] = pure []
  pull_all hook_schema data_ now (entry ∷ entries) =
      let rest = pull_all hook_schema data_ now entries in
      if is_due now entry.1
      then (do
        outcome ← pull_one hook_schema data_ entry
        outcomes ← rest
        pure (outcome ∷ outcomes))
      else rest

  -- `Promise.all`, on outcomes that are settled in order: the first error is thrown.
  unfoldable pub all_settled : {A : Type 0} → List (Result A) → Result (Unit {0})
  all_settled [] = ok tt
  all_settled (r ∷ rs) = let rest = all_settled rs in bind_result r (λ a. rest)

  -- `pullHook`
  unfoldable pub pull_hook : String → Value → Exec S (Unit {0})
  unfolding list pull_all all_settled
  pull_hook hook_schema data_ = do
    entries ← list hook_schema
    now ← (λ s. (ok (hooks.epoch_now s), s))
    outcomes ← pull_all hook_schema data_ now entries
    lift (all_settled (map (λ outcome. outcome.1) outcomes))
    lift (all_settled (map (λ outcome. outcome.0) outcomes))
