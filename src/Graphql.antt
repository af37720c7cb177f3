-- ===== src/Graphql.antt =====
-- src/modules/graphql: the connections that are served over GraphQL, which are subscriptions, and the errors
-- that it answers. The schema and the checks of the inputs are declarations; an input has a text as its
-- `subscriptionId`.
use node_back_end_boilerplat.Prelude.{String, Bool, true, List}
use node_back_end_boilerplat.Value.{Value, str, obj, Fields, field, end, get, or_value, fields_of}
use node_back_end_boilerplat.Effects.{Exec}
use node_back_end_boilerplat.Domain.Subscription.{Subscription}
use node_back_end_boilerplat.Subscriptions
use node_back_end_boilerplat.Subscriptions.{Backing}

-- `createConnectionInputDto.subscriptionId`
abbrev pub text_of : Value → String
text_of (str s) = s
text_of v = ""

abbrev pub subscription_id_of : Fields → String
subscription_id_of input = text_of (get "subscriptionId" input)

module _ {S : Type 0} (backing : Backing S) where
  -- `findAll`, the list of the cache
  unfoldable pub find_all : Exec S (List Subscription)
  unfolding Subscriptions.list
  find_all = Subscriptions.list backing true

  -- `findOne`
  unfoldable pub find_one : String → Exec S Subscription
  unfolding Subscriptions.get
  find_one subscription_id = Subscriptions.get backing subscription_id

  -- `create`
  unfoldable pub create : Fields → Exec S Subscription
  unfolding Subscriptions.save
  create input = Subscriptions.save backing (subscription_id_of input) input

  -- `update`
  unfoldable pub update : Fields → Exec S Subscription
  unfolding Subscriptions.save
  update input = Subscriptions.save backing (subscription_id_of input) input

  -- `remove`
  unfoldable pub remove : String → Exec S Bool
  unfolding Subscriptions.delete
  remove subscription_id = Subscriptions.delete backing subscription_id

  -- The resolver: `createConnection`, `listConnections`, `findConnection`, `updateConnection` and
  -- `removeConnection`.
  unfoldable pub create_connection : Fields → Exec S Subscription
  unfolding create
  create_connection input = create input

  unfoldable pub list_connections : Exec S (List Subscription)
  unfolding find_all
  list_connections = find_all

  unfoldable pub find_connection : String → Exec S Subscription
  unfolding find_one
  find_connection subscription_id = find_one subscription_id

  unfoldable pub update_connection : Fields → Exec S Subscription
  unfolding update
  update_connection input = update input

  unfoldable pub remove_connection : String → Exec S Bool
  unfolding remove
  remove_connection subscription_id = remove subscription_id

-- `formatGraphQlError`, of the formatted error and of the error itself.
unfoldable pub format_graph_ql_error : Fields → Fields → Fields
format_graph_ql_error formatted error =
    let extensions = fields_of (get "extensions" formatted) in
    field "message" (or_value (get "message" formatted) (get "message" error)) (
      field "path" (or_value (get "path" formatted) (get "path" error)) (
        field "extensions"
          (obj (
            field "code" (get "code" extensions)
              (field "originalError" (get "originalError" extensions) end)))
          end))
