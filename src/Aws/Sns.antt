-- ===== src/Aws/Sns.antt =====
-- src/modules/core/infra/integration/aws/Sns.client.ts
use node_back_end_boilerplat.Prelude.{String, Bool, if◌then◌else◌, Option, is_truthy, or_else}
use node_back_end_boilerplat.Value.{Value, str, arr, obj, Fields, field, end, nil, get, or_value}
use node_back_end_boilerplat.Effects.{Exec, pure, ◌>>=◌}
use node_back_end_boilerplat.Storage.Json.{Json}
use node_back_end_boilerplat.Aws.{Send, ends_with, bool_text, is_success, or_integration, required}
use node_back_end_boilerplat.Aws.Sqs.{if_fifo, format_message_before_send}

-- `IPublishTargetsOptions`
pub data PublishTarget : Type 0 where
  email : String → PublishTarget
  sms : String → PublishTarget
  sqs : Option String → PublishTarget
  lambda : Option String → PublishTarget

-- `IPublishParams`
pub record PublishParams : Type 0 where
  pub target : PublishTarget
  pub topic_arn : String
  pub message : Value
  pub message_group_id : String
  pub message_deduplication_id : String

-- `createParams`
unfoldable pub create_params : String → Fields
unfolding ends_with
create_params topic_name =
    let is_fifo = bool_text (ends_with ".fifo" topic_name) in
    field "Name" (str topic_name) (
      field "Attributes"
        (obj
          (field "FifoTopic" (str is_fifo) (field "ContentBasedDeduplication" (str is_fifo) end)))
        end)

-- `subscribeParams`
unfoldable pub subscribe_params : String → String → String → Fields
subscribe_params protocol topic_arn to =
    field "Protocol" (str protocol)
      (field "TopicArn" (str topic_arn) (field "Endpoint" (str to) end))

-- The arn of a target that has one, or else the topic's.
abbrev pub arn_or_topic : Option String → String → Fields
arn_or_topic target_arn topic_arn =
    if is_truthy target_arn
    then field "TargetArn" (str (or_else target_arn "")) end
    else field "TopicArn" (str topic_arn) end

-- The `switch` of `publishParams`.
unfoldable pub target_params : PublishTarget → String → Fields
target_params (sms phone_number) topic_arn = field "PhoneNumber" (str phone_number) end
target_params (email subject) topic_arn =
    field "TopicArn" (str topic_arn) (field "Subject" (str subject) end)
target_params (lambda target_arn) topic_arn = arn_or_topic target_arn topic_arn
target_params (sqs target_arn) topic_arn = arn_or_topic target_arn topic_arn

-- `publishParams`
unfoldable pub publish_params : Json → PublishParams → Fields
unfolding ends_with format_message_before_send target_params
publish_params json params =
    let is_fifo = ends_with ".fifo" params.topic_arn in
    field "Message" (str (format_message_before_send json params.message)) (
      field "MessageDeduplicationId" (if_fifo is_fifo params.message_deduplication_id) (
        field "MessageGroupId" (if_fifo is_fifo params.message_group_id)
          (target_params params.target params.topic_arn)))

module _ {S : Type 0} (send : Send S) where
  -- `listTopics`
  unfoldable pub list_topics : Exec S Value
  unfolding or_integration
  list_topics =
      or_integration
        (do result ← send "ListTopicsCommand" end; pure (or_value (get "Topics" result) (arr nil)))

  -- `createTopic`
  unfoldable pub create_topic : String → Exec S Value
  unfolding or_integration required create_params
  create_topic topic_name = or_integration (do
    result ← send "CreateTopicCommand" (create_params topic_name)
    required (get "TopicArn" result) "Topic not created")

  -- `deleteTopic`
  unfoldable pub delete_topic : String → Exec S Bool
  unfolding or_integration is_success
  delete_topic topic_arn = or_integration (do
    result ← send "DeleteTopicCommand" (field "TopicArn" (str topic_arn) end)
    pure (is_success result))

  -- `subscribeTopic`
  unfoldable pub subscribe_topic : String → String → String → Exec S Value
  unfolding or_integration required subscribe_params
  subscribe_topic protocol topic_arn to = or_integration (do
    result ← send "SubscribeCommand" (subscribe_params protocol topic_arn to)
    required (get "SubscriptionArn" result) "Not Subscribed in topic")

  -- `unsubscribeTopic`
  unfoldable pub unsubscribe_topic : String → Exec S Bool
  unfolding or_integration is_success
  unsubscribe_topic subscription_arn = or_integration (do
    result ← send "UnsubscribeCommand" (field "SubscriptionArn" (str subscription_arn) end)
    pure (is_success result))

  -- `publishMessage`
  unfoldable pub publish_message : Json → PublishParams → Exec S Value
  unfolding or_integration required publish_params
  publish_message json params = or_integration (do
    result ← send "PublishCommand" (publish_params json params)
    required (get "MessageId" result) "Message not published")
