-- ===== src/Lifecycle.antt =====
-- src/modules/core/start/Lifecycle.service.ts: what is closed when the program stops. The calls that
-- close are arguments; a promise that one of them starts without waiting is part of the call.
pub mod Shutdown
use node_back_end_boilerplat.Prelude.{Bool, true, false, if◌then◌else◌, List, [], ◌∷◌}
use node_back_end_boilerplat.Value.{Value, bool}
use node_back_end_boilerplat.Effects.{Exec, pure, try_catch, ◌>>=◌, ◌>>◌}

-- The calls of `onModuleDestroy`, `beforeApplicationShutdown` and the listener.
pub record Closing (S : Type 0) : Type 0 where
  pub stop_cron : Exec S (Unit {0})
  pub disable_consumer : Exec S (Unit {0})
  pub disconnect_all_sockets : Exec S (Unit {0})
  pub disconnect_sockets_server : Exec S (Unit {0})
  pub close_http : Exec S (Unit {0})
  pub listen_http : Exec S (Unit {0})
  pub destroy_cognito : Exec S (Unit {0})
  pub destroy_sqs : Exec S (Unit {0})
  pub destroy_sns : Exec S (Unit {0})
  pub destroy_s3 : Exec S (Unit {0})
  pub redis_is_connected : S → Bool
  pub disconnect_redis : Exec S Bool
  pub mongo_is_connected : S → Bool
  pub disconnect_mongo : Exec S Bool
  pub destroy_database : Exec S (Unit {0})

-- Calls one after the other.
abbrev pub in_order : {S : Type 0} → List (Exec S (Unit {0})) → Exec S (Unit {0})
in_order [] = pure tt
in_order (m ∷ ms) = m >> in_order ms

-- `try { m } catch (error) { this.logger.error(error) }`
unfoldable pub or_logged : {S : Type 0} → Exec S (Unit {0}) → Exec S (Unit {0})
or_logged m = try_catch m (λ _. pure tt)

-- `if (connected === true) try { … } catch …`
unfoldable pub if_connected : {S : Type 0} → (S → Bool) → Exec S Bool → Exec S (Unit {0})
unfolding or_logged
if_connected is_connected m s = if is_connected s then or_logged (m >> pure tt) s else pure tt s

module _ {S : Type 0} (closing : Closing S) where
  -- `onModuleDestroy`: one `try` around nine calls.
  unfoldable pub on_module_destroy : Exec S (Unit {0})
  unfolding or_logged
  on_module_destroy = or_logged (
      in_order (
        closing.stop_cron ∷ closing.disable_consumer ∷ closing.disconnect_all_sockets
        ∷ closing.disconnect_sockets_server ∷ closing.close_http ∷ closing.destroy_cognito
        ∷ closing.destroy_sqs ∷ closing.destroy_sns ∷ closing.destroy_s3 ∷ []))

  -- `beforeApplicationShutdown`: a `try` around each of three.
  unfoldable pub before_application_shutdown : Exec S (Unit {0})
  unfolding if_connected or_logged
  before_application_shutdown = do
    if_connected closing.redis_is_connected closing.disconnect_redis
    if_connected closing.mongo_is_connected closing.disconnect_mongo
    or_logged closing.destroy_database

  -- The listener of `DISABLE_ALL_ROUTES`
  unfoldable pub on_disable_all_routes : Value → Exec S (Unit {0})
  on_disable_all_routes (bool true) = closing.close_http
  on_disable_all_routes (bool false) = closing.listen_http
  on_disable_all_routes v = pure tt
