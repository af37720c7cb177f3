-- ===== src/Aws/Errors.antt =====
-- What the clients of src/modules/core/infra/integration/aws throw.
use node_back_end_boilerplat.Prelude.{
  ℕ, String, ◌≡◌, sym, Bool-cases, inl, inr, true, false, ap, ◌≢◌, ◌∙◌,
}
use node_back_end_boilerplat.Value.{Value, Fields, truthy, get}
use node_back_end_boilerplat.Storage.Json.{Json}
use node_back_end_boilerplat.Effects.{
  Exec, err, recover, try_catch, fail, ok, Result, throw_exception, bind-eq-ok,
}
use node_back_end_boilerplat.Exceptions.{
  Thrown, http, exception, integration, ErrorInterface, as_error, internal, plain_error,
}
use node_back_end_boilerplat.Aws.{
  Send, or_integration, false, required, truthy, true, internal, plain_error,
}
use node_back_end_boilerplat.Aws.Sqs
use node_back_end_boilerplat.Aws.Sqs.{SendParams, msg_params}
use node_back_end_boilerplat.Aws.Sns
use node_back_end_boilerplat.Aws.Sns.{PublishParams}
use node_back_end_boilerplat.Aws.Cognito
use node_back_end_boilerplat.Aws.S3

-- Whatever the action throws is the integration exception of some error.
unfoldable pub OnlyIntegration : {S A : Type 0} → Exec S A → Type 0
OnlyIntegration {S = S} m =
    (s : S) (e : Thrown)
    → (m s).0 ≡ err e
    → (cause : ErrorInterface) × (e ≡ http (exception integration cause false))

-- The operations of each client.
unfoldable pub SqsFails : {S : Type 0} → Send S → Json → (Value → String) → Type 0
unfolding OnlyIntegration
SqsFails send json template =
    ((max : ℕ) → OnlyIntegration (Sqs.list_queues send max))
    × ((name : String) → OnlyIntegration (Sqs.create_queue send name))
    × ((url : String) → OnlyIntegration (Sqs.delete_queue send url))
    × ((params : SendParams) → OnlyIntegration (Sqs.send_message send json params))
    × ((url : String) → OnlyIntegration (Sqs.get_messages send template url))
    × ((url : String) (message : Value)
        → OnlyIntegration (Sqs.delete_message send template url message))

unfoldable pub SnsFails : {S : Type 0} → Send S → Json → Type 0
unfolding OnlyIntegration
SnsFails send json =
    OnlyIntegration (Sns.list_topics send)
    × ((name : String) → OnlyIntegration (Sns.create_topic send name))
    × ((arn : String) → OnlyIntegration (Sns.delete_topic send arn))
    × ((protocol arn to : String) → OnlyIntegration (Sns.subscribe_topic send protocol arn to))
    × ((arn : String) → OnlyIntegration (Sns.unsubscribe_topic send arn))
    × ((params : PublishParams) → OnlyIntegration (Sns.publish_message send json params))

unfoldable pub CognitoFails : {S : Type 0} → Send S → String → Type 0
unfolding OnlyIntegration
CognitoFails send client_id =
    ((max : ℕ) → OnlyIntegration (Cognito.list_user_pools send max))
    × ((name : String) → OnlyIntegration (Cognito.create_user_pool send name))
    × ((pool : String) → OnlyIntegration (Cognito.delete_user_pool send pool))
    × ((name pool : String) → OnlyIntegration (Cognito.create_client send name pool))
    × ((client pool : String) → OnlyIntegration (Cognito.delete_client send client pool))
    × ((name pool : String) → OnlyIntegration (Cognito.create_user send name pool))
    × ((name pool : String) → OnlyIntegration (Cognito.get_user send name pool))
    × ((name pool : String) → OnlyIntegration (Cognito.delete_user send name pool))
    × ((name email password : String)
        → OnlyIntegration (Cognito.user_sign_up send client_id name email password))
    × ((name pool : String) → OnlyIntegration (Cognito.confirm_user_sign_up send name pool))

unfoldable pub S3Fails :
    {S : Type 0}
    → Send S
    → (Value → Exec S Value)
    → (String → Fields → ℕ → Exec S String)
    → ℕ
    → Type 0
unfolding OnlyIntegration
S3Fails send to_buffer sign expiration =
    OnlyIntegration (S3.list_buckets send)
    × ((name : String) → OnlyIntegration (S3.create_bucket send name))
    × ((name : String) → OnlyIntegration (S3.delete_bucket send name))
    × ((name : String) (configuration : Value)
        → OnlyIntegration (S3.put_bucket_notification send name configuration))
    × ((name file : String) (content date_ : Value)
        → OnlyIntegration (S3.upload_file send name file content date_))
    × ((name key : String) → OnlyIntegration (S3.download_file send to_buffer name key))
    × ((name key : String) → OnlyIntegration (S3.get_file_signed_url send sign expiration name key))
    × ((name key : String) → OnlyIntegration (S3.delete_file send name key))

abbrev as_result : {A : Type 0} → Thrown → Result A
as_result e = err e

err_inv : {A : Type 0} (a b : Thrown) → as_result {A = A} a ≡ err b → a ≡ b
err_inv a b h = cc

module _ {S A : Type 0} where
  recover_throws :
      (r : Result A) (s : S) (e : Thrown)
      → (recover r (λ c. fail integration (as_error c)) s).0 ≡ err e
      → (cause : ErrorInterface) × (e ≡ http (exception integration cause false))
  recover_throws (ok a) s e h = cc
  recover_throws (err c) s e h = (as_error c, err_inv _ _ (sym h))

  or_integration_lem : (m : Exec S A) → OnlyIntegration (or_integration m)
  unfolding OnlyIntegration or_integration try_catch
  or_integration_lem m s e h = recover_throws (m s).0 (m s).1 e h

  recover_returns :
      (r : Result A) (s : S) (a : A)
      → (recover r (λ c. fail integration (as_error c)) s).0 ≡ ok a
      → r ≡ ok a
  recover_returns (ok b) s a h = h
  recover_returns (err c) s a h = cc

  -- What returns under `caughtError` is what the action returned.
  pub or_integration-eq-ok :
      (m : Exec S A) (s : S) (a : A) → (or_integration m s).0 ≡ ok a → (m s).0 ≡ ok a
  unfolding or_integration try_catch
  or_integration-eq-ok m s a h = recover_returns (m s).0 (m s).1 a h

ok_inv : {A : Type 0} (a b : A) → ok a ≡ ok b → a ≡ b
ok_inv a b h = cc

err_ok : {A : Type 0} (e : Thrown) (a : A) → err e ≢ ok a
err_ok e a h = cc

required_of_truthy :
    {S : Type 0} (v : Value) (message : String) (s : S)
    → truthy v ≡ true
    → (required v message s).0 ≡ ok v
unfolding required
required_of_truthy v message s p = rw p

required_throws :
    {S : Type 0} (v : Value) (message : String) (s : S)
    → truthy v ≡ false
    → (required v message s).0 ≡ throw_exception internal (plain_error message)
unfolding required
required_throws v message s p = rw p

required_of_falsy :
    {S : Type 0} (v : Value) (message : String) (s : S) (a : Value)
    → truthy v ≡ false
    → (required v message s).0 ≢ ok a
required_of_falsy v message s a p h = err_ok _ a (sym (required_throws v message s p) ∙ h)

-- A required value that is returned is truthy.
pub required-eq-ok :
    {S : Type 0} (v : Value) (message : String) (s : S) (a : Value)
    → (required v message s).0 ≡ ok a
    → truthy a ≡ true
required-eq-ok v message s a h = elim (Bool-cases (truthy v)) [
  | inl p ↦ ap truthy (sym (ok_inv v a (sym (required_of_truthy v message s p) ∙ h))) ∙ p
  | inr p ↦ absurd (required_of_falsy v message s a p h)
]

sqs_fails :
    {S : Type 0} (send : Send S) (json : Json) (template : Value → String)
    → SqsFails send json template
unfolding SqsFails Sqs.list_queues Sqs.create_queue Sqs.delete_queue Sqs.send_message
    Sqs.get_messages Sqs.delete_message
sqs_fails send json template = (
  λ max. or_integration_lem _,
  λ name. or_integration_lem _,
  λ url. or_integration_lem _,
  λ params. or_integration_lem _,
  λ url. or_integration_lem _,
  λ url message. or_integration_lem _,
)

sns_fails : {S : Type 0} (send : Send S) (json : Json) → SnsFails send json
unfolding SnsFails Sns.list_topics Sns.create_topic Sns.delete_topic Sns.subscribe_topic
    Sns.unsubscribe_topic Sns.publish_message
sns_fails send json = (
  or_integration_lem _,
  λ name. or_integration_lem _,
  λ arn. or_integration_lem _,
  λ protocol arn to. or_integration_lem _,
  λ arn. or_integration_lem _,
  λ params. or_integration_lem _,
)

cognito_fails : {S : Type 0} (send : Send S) (client_id : String) → CognitoFails send client_id
unfolding CognitoFails Cognito.list_user_pools Cognito.create_user_pool Cognito.delete_user_pool
    Cognito.create_client Cognito.delete_client Cognito.create_user Cognito.get_user
    Cognito.delete_user Cognito.user_sign_up Cognito.confirm_user_sign_up
cognito_fails send client_id = (
  λ max. or_integration_lem _,
  λ name. or_integration_lem _,
  λ pool. or_integration_lem _,
  λ name pool. or_integration_lem _,
  λ client pool. or_integration_lem _,
  λ name pool. or_integration_lem _,
  λ name pool. or_integration_lem _,
  λ name pool. or_integration_lem _,
  λ name email password. or_integration_lem _,
  λ name pool. or_integration_lem _,
)

s3_fails :
    {S : Type 0} (send : Send S) (to_buffer : Value → Exec S Value)
    (sign : String → Fields → ℕ → Exec S String) (expiration : ℕ)
    → S3Fails send to_buffer sign expiration
unfolding S3Fails S3.list_buckets S3.create_bucket S3.delete_bucket S3.put_bucket_notification
    S3.upload_file S3.download_file S3.get_file_signed_url S3.delete_file
s3_fails send to_buffer sign expiration = (
  or_integration_lem _,
  λ name. or_integration_lem _,
  λ name. or_integration_lem _,
  λ name configuration. or_integration_lem _,
  λ name file content date_. or_integration_lem _,
  λ name key. or_integration_lem _,
  λ name key. or_integration_lem _,
  λ name key. or_integration_lem _,
)

-- Whatever the vendor's libraries answer or throw, each operation of the four clients throws the
-- integration exception, of status 503, and nothing else: also for an answer that lacks what was asked.
pub aws_errors :
    {S : Type 0} (send : Send S) (json : Json) (template : Value → String) (client_id : String)
    (to_buffer : Value → Exec S Value) (sign : String → Fields → ℕ → Exec S String) (expiration : ℕ)
    → SqsFails send json template
      × SnsFails send json
      × CognitoFails send client_id
      × S3Fails send to_buffer sign expiration
aws_errors send json template client_id to_buffer sign expiration = (
  sqs_fails send json template,
  sns_fails send json,
  cognito_fails send client_id,
  s3_fails send to_buffer sign expiration,
)

-- A message that was sent has an identifier.
pub send_message-eq-ok :
    {S : Type 0} (send : Send S) (json : Json) (params : SendParams) (s : S) (v : Value)
    → (Sqs.send_message send json params s).0 ≡ ok v
    → truthy v ≡ true
unfolding Sqs.send_message
send_message-eq-ok send json params s v h =
    let (result, p, q) =
      bind-eq-ok (send "SendMessageCommand" (msg_params json params)) _ s v
        (or_integration-eq-ok _ s v h) in
    required-eq-ok (get "MessageId" result) "Message not sended"
      (send "SendMessageCommand" (msg_params json params) s).1 v q
