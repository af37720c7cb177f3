-- ===== src/Cron.antt =====
-- src/modules/core/cron/tasks/SyncCron.task.ts, with `testConnection` and `startConnection` of
-- src/modules/core/infra/database/connection.ts: every five minutes the services behind the program are
-- looked at, and sockets are cut while one is away. The flags of the task outlive what its `try` throws.
pub mod Away
pub mod Job
use node_back_end_boilerplat.Storage.Redis
use node_back_end_boilerplat.Storage.Redis.{RedisDriver}
use node_back_end_boilerplat.Storage.Mongo
use node_back_end_boilerplat.Storage.Mongo.{MongoDriver}
use node_back_end_boilerplat.Prelude.{Bool, true, false, if◌then◌else◌, ◌&&◌}
use node_back_end_boilerplat.Effects.{Exec, Result, ok, err, pure, try_catch, ◌>>=◌, ◌>>◌}
use node_back_end_boilerplat.Storage.Json.{Json}

-- The services, and the cutting of all sockets.
pub record BackingServices (S : Type 0) : Type 0 where
  pub query_database : Exec S (Unit {0})
  pub initialize_database : Exec S (Unit {0})
  pub json : Json
  pub mongo : MongoDriver S
  pub redis : RedisDriver S
  pub disconnect_all_sockets : Exec S (Unit {0})

-- `isDatabaseActive`, `isDatalakeActive` and `isCacheActive`
pub record Active : Type 0 where
  pub database : Bool
  pub datalake : Bool
  pub cache : Bool

abbrev pub none_active : Active
none_active = record { database = false; datalake = false; cache = false }

abbrev pub set_database : Bool → Active → Active
set_database b active = record active { database = b }

abbrev pub set_datalake : Bool → Active → Active
set_datalake b active = record active { datalake = b }

abbrev pub set_cache : Bool → Active → Active
set_cache b active = record active { cache = b }

-- `flag = await m`: a throw leaves the flag.
abbrev pub stored :
    {S : Type 0}
    → Result Bool
    → (Bool → Active → Active)
    → S
    → Active
    → Result (Unit {0}) × (S × Active)
stored (ok b) set s active = (ok tt, (s, set b active))
stored (err e) set s active = (err e, (s, active))

unfoldable pub assign :
    {S : Type 0} → (Bool → Active → Active) → Exec S Bool → Exec (S × Active) (Unit {0})
assign set m (s, active) = let (r, s') = m s in stored r set s' active

-- `if (!flag) m`
unfoldable pub unless :
    {S : Type 0} → (Active → Bool) → Exec (S × Active) (Unit {0}) → Exec (S × Active) (Unit {0})
unless flag m (s, active) = if flag active then (ok tt, (s, active)) else m (s, active)

-- What is read of the store.
abbrev pub reading : {S : Type 0} → (S → Bool) → Exec S Bool
reading f s = (ok (f s), s)

module _ {S : Type 0} (services : BackingServices S) where
  -- `testConnection`
  unfoldable pub test_connection : Exec S Bool
  test_connection = try_catch (services.query_database >> pure true) (λ _. pure false)

  -- `startConnection`
  unfoldable pub start_connection : Exec S (Unit {0})
  start_connection = try_catch services.initialize_database (λ _. pure tt)

  -- The `try` of `execute`
  unfoldable pub connect_services : Exec (S × Active) (Unit {0})
  unfolding assign unless test_connection start_connection Mongo.connect Redis.connect
      Redis.is_connected
  connect_services = do
    assign set_database test_connection
    assign set_datalake (reading services.mongo.is_connected)
    assign set_cache (reading (Redis.is_connected services.json services.redis))
    unless (λ active. active.database) (assign set_database (start_connection >> test_connection))
    unless (λ active. active.datalake) (assign set_datalake (Mongo.connect services.mongo))
    unless (λ active. active.cache) (assign set_cache (Redis.connect services.json services.redis))

  -- `execute`; what the cutting of the sockets throws is not caught.
  unfoldable pub execute : Exec S (Unit {0})
  unfolding connect_services
  execute s =
      let (s', active) = (connect_services (s, none_active)).1 in
      if active.database && (active.datalake && active.cache)
      then (ok tt, s')
      else services.disconnect_all_sockets s'
