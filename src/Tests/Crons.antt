-- ===== src/Tests/Crons.antt =====
-- Examples of the task that looks at the services, and of the shutdown.
use node_back_end_boilerplat.Prelude.{Bool, true, false, ◌≡◌, none, []}
use node_back_end_boilerplat.Effects.{ok, pure, raise, try_catch, ◌>>=◌}
use node_back_end_boilerplat.Exceptions.{native, plain_error}
use node_back_end_boilerplat.Storage.Redis
use node_back_end_boilerplat.Cron.{BackingServices, execute}
use node_back_end_boilerplat.Cron.Away.{IsAway, cache_away, execute_cuts}

-- The store is whether the sockets are cut; Redis is down.
abbrev services_of : BackingServices Bool
services_of = record {
  query_database = pure tt;
  initialize_database = pure tt;
  json = record { parse = λ t. none; stringify = λ v. "{}"; string_of = λ v. "" };
  mongo = record { connect_client = pure tt; close_client = pure tt; is_connected = λ s. true };
  redis = record {
    get_text = λ k. pure none;
    set_text = λ k t. pure "OK";
    expire = λ k n. pure tt;
    keys_like = λ p. pure [];
    get_texts = λ ks. pure [];
    remove_key = λ k. pure 0;
    flush = pure "OK";
    connect_socket = raise (native (plain_error "down"));
    quit = pure "OK";
    status = λ s. "end";
  };
  disconnect_all_sockets = λ s. (ok tt, true);
}

redis_down : IsAway services_of
unfolding Redis.is_connected Redis.connect try_catch ◌>>=◌
redis_down = cache_away (λ s h. cc) (λ s h. cc)

execute_cuts_example :
    (t : Bool) × (execute services_of false ≡ services_of.disconnect_all_sockets t)
execute_cuts_example = execute_cuts services_of false redis_down
