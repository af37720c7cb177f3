-- ===== src/Tests/Queues.antt =====
-- Examples on a small queue: src/modules/events/queue.
use node_back_end_boilerplat.Queue.Handler.{
  Message, Outside, process, execute, save_failed, get_message_body,
}
use node_back_end_boilerplat.Queue.Consumer.{
  Consumer, DeleteMessage, handle_message, reset_errors_count,
}
use node_back_end_boilerplat.Prelude.{
  String, List, [], ◌∷◌, some, none, true, false, Bool, ◌≡◌, refl, arith, or_else, includes, eq_iff,
  ◌==◌, if◌then◌else◌,
}
use node_back_end_boilerplat.Value.{null}
use node_back_end_boilerplat.Queue.NotLost.{
  Promises, Answer, IsKept, execute_answers, handle_message-IsKept,
}
use node_back_end_boilerplat.Queue.Errors.{counted}
use node_back_end_boilerplat.Effects.{ok, throw_exception, try_catch, ◌>>=◌}
use node_back_end_boilerplat.Exceptions.{Thrown, http, exception, internal, plain_error, contract}

-- The identifiers of the messages in the queue and of those that are saved.
pub record World : Type 0 where
  pub queue : List String
  pub saved : List String

abbrev id_text : Message → String
id_text m = or_else m.message_id ""

abbrev without : String → List String → List String
without id [] = []
without id (x ∷ xs) = let rest = without id xs in if x == id then rest else x ∷ rest

-- Every payload is refused by its schema.
abbrev outside : Outside World
outside = record {
  parse = λ s. none;
  validate = λ v. throw_exception contract (plain_error "refused");
  send = λ e w. (ok tt, w);
  pull_hook = λ event o w. (ok tt, w);
  insert_unprocessed = λ m w. (ok (some "db1"), record w { saved = id_text m ∷ w.saved });
}

abbrev delete_message : DeleteMessage World
delete_message m w = (ok true, record w { queue = without (id_text m) w.queue })

abbrev Queued : Message → World → Type 0
Queued m w = includes w.queue (id_text m) ≡ true

abbrev Saved : Message → World → Type 0
Saved m w = includes w.saved (id_text m) ≡ true

saved_first : (id : String) (ids : List String) → includes (id ∷ ids) id ≡ true
saved_first id ids = ground (arith, eq_iff id id)

promises : Promises outside delete_message Queued Saved
promises = record {
  send_keeps = λ e m. record { keeps = λ w q. q };
  pull_hook_keeps = λ event o m. record { keeps = λ w q. q };
  insert_keeps = λ m. record { keeps = λ w q. q };
  insert_saves = λ m w id h. saved_first (id_text m) w.saved;
  delete_keeps = λ m. record { keeps = λ w q. q };
}

abbrev message : Message
message = record { message_id = some "m1"; body = some "{}" }

abbrev world : World
world = record { queue = "m1" ∷ "m2" ∷ []; saved = [] }

abbrev consumer : Consumer World
consumer = record { errors_count = 0; disabled = false; outside = world }

abbrev failure : Thrown
failure = http (exception internal (plain_error "timeout") false)

-- The refused message is saved and taken from the queue.
refused_message :
    handle_message outside delete_message null message consumer
    ≡ (ok tt, record consumer { outside = record { queue = "m2" ∷ []; saved = "m1" ∷ [] } })
unfolding handle_message execute process save_failed get_message_body try_catch ◌>>=◌
    reset_errors_count
refused_message = refl

execute_answers_example :
    (b : Bool) × ((execute outside null message world).0 ≡ ok b)
    × Answer outside delete_message Queued Saved null message world b
        (execute outside null message world).1
execute_answers_example =
    execute_answers outside delete_message Queued Saved promises null message world refl

handle_message-IsKept_example :
    IsKept outside delete_message Queued Saved null message world
      (handle_message outside delete_message null message consumer).1.outside
handle_message-IsKept_example =
    handle_message-IsKept outside delete_message Queued Saved promises null message consumer refl

-- A consumer that has counted eight errors.
abbrev tired : Consumer World
tired = counted consumer 8
