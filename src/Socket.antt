-- ===== src/Socket.antt =====
-- src/modules/events/websocket/server/WebSocket.server.ts: what the server does when a client comes,
-- comes again or goes, and when the program emits. The server of socket.io is an argument.
pub mod Rooms
use node_back_end_boilerplat.Subscriptions
use node_back_end_boilerplat.Subscriptions.{Backing}
use node_back_end_boilerplat.Prelude.{
  String, Bool, true, false, if◌then◌else◌, Option, some, none, List, [], ◌∷◌, map, not, ◌&&◌,
}
use node_back_end_boilerplat.Value.{
  Value, null, str, arr, Items, nil, cons, Fields, field, end, spread, fields_of, get, is_object,
  truthy,
}
use node_back_end_boilerplat.Effects.{Exec, ok, pure, ◌>>=◌, ◌>>◌}
use node_back_end_boilerplat.Domain.Subscription.{Subscription}
use node_back_end_boilerplat.Storage.Json.{Json, to_string, to_object}
use node_back_end_boilerplat.Queue.Producer.{Producer, EventDispatch, dispatch}

-- The calls of socket.io that the server makes; a socket is named by its identifier.
pub record SocketIo (S : Type 0) : Type 0 where
  pub join : String → String → Exec S (Unit {0})
  pub leave : String → String → Exec S (Unit {0})
  pub emit : String → String → Exec S (Unit {0})
  pub emit_to : Value → String → String → Exec S (Unit {0})
  pub fetch_sockets : Exec S (List Fields)

-- `WebSocketRoomsEnum.NEW_CONNECTIONS`, `WebSocketEventsEnum.EMIT` and
-- `QueueSchemasEnum.NEW_CONNECTION`
abbrev pub new_connections : String
new_connections = "new_connections"

abbrev pub emit_event : String
emit_event = "emit"

abbrev pub new_connection : String
new_connection = "NEW_CONNECTION"

-- `items.every((item) => typeof item === 'string')`
unfoldable pub every_text : Items → Bool
every_text nil = true
every_text (cons (str s) xs) = every_text xs
every_text (cons v xs) = false

-- `getSocketIdsOrRooms`
unfoldable pub get_socket_ids_or_rooms : Value → Value
unfolding every_text
get_socket_ids_or_rooms (str s) = str s
get_socket_ids_or_rooms (arr xs) = if every_text xs then arr xs else null
get_socket_ids_or_rooms v = null

-- The event of a new connection, as `saveAndDispatchConnection` sends it.
unfoldable pub connection_event : String → EventDispatch
connection_event socket_id = record {
  payload = field "subscriptionId" (str socket_id) (field "event" (str new_connection) end);
  schema = new_connection;
  author = some "Websocket Server";
  title = some "New Client Connected";
}

module _ {S : Type 0} (io : SocketIo S) (json : Json) where
  -- `getSocketsIds`, on a server that is started
  unfoldable pub get_sockets_ids : Exec S (List Value)
  get_sockets_ids = do sockets ← io.fetch_sockets; pure (map (get "id") sockets)

  -- The listener of `BROADCAST`
  unfoldable pub on_broadcast : Value → Exec S (Unit {0})
  unfolding to_string
  on_broadcast message = io.emit emit_event (to_string json message false)

  -- The listener of `EMIT_PRIVATE`
  unfoldable pub on_emit_private : Value → Value → Exec S (Unit {0})
  unfolding get_socket_ids_or_rooms to_string
  on_emit_private socket_ids_or_rooms message =
      let valid = get_socket_ids_or_rooms socket_ids_or_rooms in
      if truthy valid then io.emit_to valid emit_event (to_string json message false) else pure tt

  module _ (backing : Backing S) where
    -- `handleConnection`, which is `saveAndDispatchConnection`
    unfoldable pub handle_connection : Producer S → String → Exec S (Unit {0})
    unfolding Subscriptions.save dispatch connection_event
    handle_connection producer socket_id = do
      Subscriptions.save backing socket_id (field "subscriptionId" (str socket_id) end)
      dispatch producer (connection_event socket_id)
      pure tt

    -- `handleDisconnect` with `deleteConnection`
    unfoldable pub handle_disconnect : String → Exec S (Unit {0})
    unfolding Subscriptions.delete
    handle_disconnect socket_id = do
      io.leave socket_id new_connections
      Subscriptions.delete backing socket_id
      pure tt

    -- What `updateConnection` does with the subscription that was saved.
    unfoldable pub update_room : String → Subscription → Exec S (Unit {0})
    update_room socket_id subscription =
        if subscription.new_connections_listen
        then io.join socket_id new_connections
        else io.leave socket_id new_connections

    -- `handleReconnect` with `updateConnection`; `toObject` never throws.
    unfoldable pub handle_reconnect : String → String → Exec S (Unit {0})
    unfolding to_object Subscriptions.save update_room
    handle_reconnect socket_id message =
        let data_ = to_object json message in
        if is_object data_
        then Subscriptions.save backing socket_id
            (spread (fields_of data_) (field "subscriptionId" (str socket_id) end))
          >>= update_room socket_id
        else pure tt
