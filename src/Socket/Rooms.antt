-- ===== src/Socket/Rooms.antt =====
-- Which sockets are in the room of new connections, and when a connection is refused:
-- src/modules/events/websocket/server/WebSocket.server.ts.
use node_back_end_boilerplat.Socket.{
  SocketIo, new_connections, handle_connection, handle_reconnect, connection_event, update_room,
}
use node_back_end_boilerplat.Subscriptions
use node_back_end_boilerplat.Subscriptions.{Backing}
use node_back_end_boilerplat.Prelude.{String, Bool, true, false, ◌≡◌, if◌then◌else◌}
use node_back_end_boilerplat.Value.{str, field, end, spread, fields_of, is_object}
use node_back_end_boilerplat.Effects.{ok, err, ◌>>=◌, pure, ◌>>◌, bind-eq-err}
use node_back_end_boilerplat.Exceptions.{Thrown}
use node_back_end_boilerplat.Domain.Subscription.{Subscription}
use node_back_end_boilerplat.Storage.Json.{Json, to_object}
use node_back_end_boilerplat.Queue.Producer.{Producer, dispatch}
use node_back_end_boilerplat.Queue.Producer.Reports.{dispatch_total}

-- How socket.io's rooms behave: a socket that joins the room is in it, one that leaves is not.
pub record HasRoom {S : Type 0} (io : SocketIo S) : Type 0 where
  pub inside : S → String → Bool
  pub joined :
      (id : String) (s : S)
      → (io.join id new_connections s).0 ≡ ok tt × inside (io.join id new_connections s).1 id ≡ true
  pub left :
      (id : String) (s : S)
      → (io.leave id new_connections s).0 ≡ ok tt
        × inside (io.leave id new_connections s).1 id ≡ false

module _ {S : Type 0} (io : SocketIo S) (json : Json) (backing : Backing S) where
  room_lem :
      (room : HasRoom io) (id : String) (b : Bool) (s : S)
      → room.inside ((if b then io.join id new_connections else io.leave id new_connections) s).1 id
        ≡ b
  room_lem room id true s = (room.joined id s).1
  room_lem room id false s = (room.left id s).1

  -- After a client comes again with a message that is an object, and its subscription was saved, it is
  -- in the room of new connections exactly if the saved subscription listens to them.
  pub handle_reconnect_room :
      (room : HasRoom io) (id message : String) (s t : S) (subscription : Subscription)
      → is_object (to_object json message) ≡ true
      → Subscriptions.save backing id
          (spread (fields_of (to_object json message)) (field "subscriptionId" (str id) end))
          s
        ≡ (ok subscription, t)
      → room.inside (handle_reconnect io json backing id message s).1 id
        ≡ subscription.new_connections_listen
  unfolding handle_reconnect update_room ◌>>=◌
  handle_reconnect_room room id message s t subscription p q =
      rw (p, q) (room_lem room id subscription.new_connections_listen t)

  dispatched :
      (producer : Producer S) (id : String) (s : S)
      → (u : Unit {0}) × ((((dispatch producer (connection_event id)) >> pure tt) s).0 ≡ ok u)
  unfolding ◌>>=◌
  dispatched producer id s =
      let (v, p, q) = dispatch_total producer (connection_event id) s in (tt, rw p)

  -- A connection is refused only by what its subscription's saving throws: a queue that fails is no
  -- reason.
  pub handle_connection-eq-err :
      (producer : Producer S) (id : String) (s : S) (e : Thrown)
      → (handle_connection io json backing producer id s).0 ≡ err e
      → (Subscriptions.save backing id (field "subscriptionId" (str id) end) s).0 ≡ err e
  unfolding handle_connection
  handle_connection-eq-err producer id s e h =
      bind-eq-err (Subscriptions.save backing id (field "subscriptionId" (str id) end)) _ s e
        (λ subscription t. dispatched producer id t) h
