-- ===== src/Aws/Sqs.antt =====
-- src/modules/core/infra/integration/aws/Sqs.client.ts
use node_back_end_boilerplat.Prelude.{ℕ, String, Bool, false, if◌then◌else◌, List, [], ◌∷◌}
use node_back_end_boilerplat.Value.{
  Value, undefined, str, num, arr, obj, Fields, field, end, nil, cons, get, or_value, fields_of,
}
use node_back_end_boilerplat.Effects.{Exec, pure, try_catch, ◌>>=◌, ◌>>◌}
use node_back_end_boilerplat.Storage.Json.{Json, to_string}
use node_back_end_boilerplat.Aws.{
  Send, ends_with, bool_text, is_success, items_of, item_list, or_integration, required,
}

-- `ISendParams`
pub record SendParams : Type 0 where
  pub queue_url : String
  pub title : String
  pub author : String
  pub message : Value
  pub message_group_id : String
  pub message_deduplication_id : String

-- `createParams`
unfoldable pub create_params : String → Fields
unfolding ends_with
create_params queue_name = field "QueueName" (str queue_name) (
    field "Attributes"
      (obj (
        field "FifoQueue" (str (bool_text (ends_with ".fifo" queue_name))) (
          field "DelaySeconds" (str "10") (
            field "MessageRetentionPeriod" (str "3600")
              (field "VisibilityTimeout" (str "20") end)))))
      end)

-- A message's attribute.
abbrev pub attribute : String → Value
attribute value = obj (field "DataType" (str "String") (field "StringValue" (str value) end))

-- What is sent to FIFO queues only.
abbrev pub if_fifo : Bool → String → Value
if_fifo is_fifo value = if is_fifo then str value else undefined

-- `receiveParam`
unfoldable pub receive_param : String → Fields
receive_param queue_url = field "QueueUrl" (str queue_url) (
    field "AttributeNames" (arr (cons (str "CreatedTimestamp") nil)) (
      field "MessageAttributeNames" (arr (cons (str "All") nil)) (
        field "MaxNumberOfMessages" (num 10)
          (field "WaitTimeSeconds" (num 0) (field "VisibilityTimeout" (num 10) end)))))

module _ (json : Json) where
  -- `formatMessageBeforeSend`: a message that is not given is `{}`.
  unfoldable pub format_message_before_send : Value → String
  unfolding to_string
  format_message_before_send undefined = to_string json (obj end) false
  format_message_before_send message = to_string json message false

  -- `msgParams`
  unfoldable pub msg_params : SendParams → Fields
  unfolding ends_with format_message_before_send
  msg_params params =
      let is_fifo = ends_with ".fifo" params.queue_url in
      field "QueueUrl" (str params.queue_url) (
        field "MessageBody" (str (format_message_before_send params.message)) (
          field "MessageAttributes"
            (obj (
              field "title" (attribute params.title)
                (field "author" (attribute params.author) end)))
            (field "MessageDeduplicationId" (if_fifo is_fifo params.message_deduplication_id)
              (field "MessageGroupId" (if_fifo is_fifo params.message_group_id) end))))

module _ {S : Type 0} (send : Send S) where
  -- `listQueues`
  unfoldable pub list_queues : ℕ → Exec S Value
  unfolding or_integration
  list_queues max = or_integration (do
    result ← send "ListQueuesCommand" (field "MaxResults" (num max) end)
    pure (or_value (get "QueueUrls" result) (arr nil)))

  -- `createQueue`
  unfoldable pub create_queue : String → Exec S Value
  unfolding or_integration required create_params
  create_queue queue_name = or_integration (do
    result ← send "CreateQueueCommand" (create_params queue_name)
    required (get "QueueUrl" result) "Queue not created")

  -- `deleteQueue`
  unfoldable pub delete_queue : String → Exec S Bool
  unfolding or_integration is_success
  delete_queue queue_url = or_integration (do
    result ← send "DeleteQueueCommand" (field "QueueUrl" (str queue_url) end)
    pure (is_success result))

  -- `sendMessage`
  unfoldable pub send_message : Json → SendParams → Exec S Value
  unfolding or_integration required msg_params
  send_message json params = or_integration (do
    result ← send "SendMessageCommand" (msg_params json params)
    required (get "MessageId" result) "Message not sended")

  -- `deleteMessage`; the receipt is put into a template, so a missing one is the text "undefined".
  unfoldable pub delete_message : (Value → String) → String → Value → Exec S Bool
  unfolding or_integration is_success
  delete_message template queue_url message = or_integration (do
    result ← send "DeleteMessageCommand" (
        field "QueueUrl" (str queue_url)
          (field "ReceiptHandle" (str (template (get "ReceiptHandle" (fields_of message)))) end))
    pure (is_success result))

  -- The deletions that `getMessages` starts and does not wait for: a failure of one is not seen.
  unfoldable pub delete_all : (Value → String) → String → List Value → Exec S (Unit {0})
  unfolding delete_message
  delete_all template queue_url [] = pure tt
  delete_all template queue_url (message ∷ messages) = do
    try_catch (delete_message template queue_url message) (λ e. pure false)
    delete_all template queue_url messages

  -- `getMessages`
  unfoldable pub get_messages : (Value → String) → String → Exec S (List Value)
  unfolding or_integration receive_param delete_all
  get_messages template queue_url = or_integration (do
    result ← send "ReceiveMessageCommand" (receive_param queue_url)
    delete_all template queue_url (item_list (items_of (get "Messages" result)))
    pure (item_list (items_of (get "Messages" result))))
