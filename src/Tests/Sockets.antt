-- ===== src/Tests/Sockets.antt =====
-- Examples of the server of sockets and of the queue's producer.
use node_back_end_boilerplat.Prelude.{Bool, true, false, ◌≡◌, ◌⊎◌, refl, some, none, [], Option}
use node_back_end_boilerplat.Value.{Value, Fields, str, bool, field, end, null, obj, truthy}
use node_back_end_boilerplat.Storage.Json.{Json, to_object}
use node_back_end_boilerplat.Storage.Redis.{RedisDriver}
use node_back_end_boilerplat.Storage.Mongo.{Filter, by_id}
use node_back_end_boilerplat.Subscriptions
use node_back_end_boilerplat.Subscriptions.{Backing, entity}
use node_back_end_boilerplat.Effects.{Exec, ok, pure, raise, ◌>>=◌}
use node_back_end_boilerplat.Exceptions.{Thrown, native, plain_error}
use node_back_end_boilerplat.Queue.Producer.{
  Producer, EventDispatch, dispatch, report_data, message_data, dispatched_sensitive_fields,
}
use node_back_end_boilerplat.Queue.Producer.Reports.{dispatch_total, report_data-HidesFields}
use node_back_end_boilerplat.Value.Masking.Hidden.{HidesFields}
use node_back_end_boilerplat.Socket.{SocketIo, handle_reconnect}
use node_back_end_boilerplat.Socket.Rooms.{HasRoom, handle_reconnect_room}

-- The store is whether the one socket is in the room.
abbrev io_of : SocketIo Bool
io_of = record {
  join = λ id room s. (ok tt, true);
  leave = λ id room s. (ok tt, false);
  emit = λ event text. pure tt;
  emit_to = λ ids event text. pure tt;
  fetch_sockets = pure [];
}

room_of : HasRoom io_of
room_of = record { inside = λ s id. s; joined = λ id s. (refl, refl); left = λ id s. (refl, refl) }

abbrev json_of : Json
json_of = record { parse = λ t. some (obj end); stringify = λ v. "{}"; string_of = λ v. "1" }

abbrev down : Thrown
down = native (plain_error "down")

abbrev redis_of : RedisDriver Bool
redis_of = record {
  get_text = λ k. pure none;
  set_text = λ k t. pure "OK";
  expire = λ k n. pure tt;
  keys_like = λ p. pure [];
  get_texts = λ ks. pure [];
  remove_key = λ k. pure 0;
  flush = pure "OK";
  connect_socket = pure tt;
  quit = pure "OK";
  status = λ s. "ready";
}

abbrev listening : Fields
listening = field "_id" (str "d1") (
    field "subscriptionId" (str "s1")
      (field "listen" (obj (field "newConnections" (bool true) end)) end))

abbrev find_in : Filter → Exec Bool (Option Fields)
find_in (by_id id) = pure (some listening)
find_in f = pure none

-- The subscriptions with a search of one's own.
abbrev searched_by : (Filter → Exec Bool (Option Fields)) → Backing Bool
searched_by find = record {
  clock = record { now = 9; from_iso = λ t. 0 };
  string_of = λ v. "d1";
  json = json_of;
  redis = redis_of;
  subscriptions = record {
    insert_document = λ o. pure (str "d1");
    find_document = find;
    find_documents = λ f. pure [];
    set_document = λ f o. pure tt;
    delete_document = λ f. pure 0;
  };
  subscriptions_time_to_live = 60;
}

abbrev producer_of : Producer Bool
producer_of = record {
  producer_name = "EventsQueueProducer";
  application_name = "app";
  queue_url = "http://queue.fifo";
  json = json_of;
  send = λ command input. raise down;
  generate_uuid = λ s. ("u1", s);
  iso_now = λ s. "2026-01-01T00:00:00";
  utc_now = λ s. "2026-01-01T00:00:00.000Z";
  hashing = λ t. some "abc";
  capture = λ e data_ user s. s;
}

handle_reconnect_room_example :
    room_of.inside (handle_reconnect io_of json_of (searched_by find_in) "s1" "{}" false).1 "s1"
    ≡ true
unfolding Subscriptions.save entity to_object ◌>>=◌
handle_reconnect_room_example =
    handle_reconnect_room io_of json_of (searched_by find_in) room_of "s1" "{}" false false
      (entity (searched_by find_in) listening) refl refl

abbrev event_of : EventDispatch
event_of = record {
  payload = field "password" (str "secret") end;
  schema = "NEW_CONNECTION";
  author = none;
  title = none;
}

dispatch_total_example :
    (v : Value) × ((dispatch producer_of event_of false).0 ≡ ok v)
    × ((v ≡ null) ⊎ (truthy v ≡ true))
dispatch_total_example = dispatch_total producer_of event_of false

report_data-HidesFields_example :
    HidesFields
      (report_data event_of.payload (message_data "u1" "NEW_CONNECTION" "a" "t"))
      dispatched_sensitive_fields
      "***"
report_data-HidesFields_example =
    report_data-HidesFields event_of.payload "u1" "NEW_CONNECTION" "a" "t"
