-- ===== src/Cron/Away.antt =====
-- When src/modules/core/cron/tasks/SyncCron.task.ts cuts the sockets.
use node_back_end_boilerplat.Cron.{
  BackingServices, Active, stored, assign, unless, reading, test_connection, connect_services,
  execute, set_database, none_active, set_datalake, set_cache, start_connection,
}
use node_back_end_boilerplat.Storage.Mongo
use node_back_end_boilerplat.Storage.Redis
use node_back_end_boilerplat.Prelude.{Bool, true, false, ◌≡◌, ◌≢◌, refl, if◌then◌else◌, arith, ◌&&◌}
use node_back_end_boilerplat.Effects.{Exec, Result, ok, err, ◌>>◌, bind-eq-ok}
use node_back_end_boilerplat.Effects.Preserves.{Preserves, Preserves-bind}

-- The action never answers true.
abbrev pub NeverTrue : {S : Type 0} → Exec S Bool → Type 0
NeverTrue {S = S} m = (s : S) → (m s).0 ≢ ok true

-- One of the three services that stays away: what is asked about it never answers that it is there.
pub data IsAway {S : Type 0} (services : BackingServices S) : Type 0 where
  database_away : NeverTrue (test_connection services) → IsAway services
  datalake_away :
      NeverTrue (reading services.mongo.is_connected)
      → NeverTrue (Mongo.connect services.mongo)
      → IsAway services
  cache_away :
      NeverTrue (reading (Redis.is_connected services.json services.redis))
      → NeverTrue (Redis.connect services.json services.redis)
      → IsAway services

module _ {S : Type 0} where
  abbrev Holds : (Active → Type 0) → S × Active → Type 0
  Holds P state = P state.1

  stored_keeps :
      (P : Active → Type 0) (set : Bool → Active → Active) (r : Result Bool) (s : S)
      (active : Active)
      → ((b : Bool) → r ≡ ok b → P active → P (set b active))
      → P active
      → P (stored r set s active).1.1
  stored_keeps P set (ok b) s active h p = h b refl p
  stored_keeps P set (err e) s active h p = p

  Preserves-assign :
      (P : Active → Type 0) (set : Bool → Active → Active) (m : Exec S Bool)
      → ((s : S) (b : Bool) (active : Active) → (m s).0 ≡ ok b → P active → P (set b active))
      → Preserves (Holds P) (assign set m)
  unfolding assign
  Preserves-assign P set m h = record {
    keeps = λ (s, active) p. stored_keeps P set (m s).0 (m s).1 active (λ b q. h s b active q) p;
  }

  unless_keeps :
      (P : Active → Type 0) (flag : Active → Bool) (m : Exec (S × Active) (Unit {0})) (b : Bool)
      (state : S × Active)
      → Preserves (Holds P) m
      → P state.1
      → P ((if b then (ok tt, state) else m state)).1.1
  unless_keeps P flag m true state h p = p
  unless_keeps P flag m false state h p = h.keeps state p

  Preserves-unless :
      (P : Active → Type 0) (flag : Active → Bool) (m : Exec (S × Active) (Unit {0}))
      → Preserves (Holds P) m
      → Preserves (Holds P) (unless flag m)
  unfolding unless
  Preserves-unless P flag m h = record {
    keeps = λ (s, active) p. unless_keeps P flag m (flag active) (s, active) h p;
  }

  -- A flag that is set by what never answers true stays false.
  never : (m : Exec S Bool) (s : S) (b : Bool) → NeverTrue m → (m s).0 ≡ ok b → b ≡ false
  never m s true h p = absurd (h s p)
  never m s false h p = refl

  NeverTrue-bind : {A : Type 0} (m : Exec S A) (n : Exec S Bool) → NeverTrue n → NeverTrue (m >> n)
  NeverTrue-bind m n h s p = let (a, q, r) = bind-eq-ok m (λ _. n) s true p in h (m s).1 r

module _ {S : Type 0} (services : BackingServices S) where
  connect_services-Preserves :
      (P : Active → Type 0)
      → Preserves (Holds P) (assign set_database (test_connection services))
      → Preserves (Holds P) (assign set_datalake (reading services.mongo.is_connected))
      → Preserves
          (Holds P)
          (assign set_cache (reading (Redis.is_connected services.json services.redis)))
      → Preserves
          (Holds P)
          (assign set_database (start_connection services >> test_connection services))
      → Preserves (Holds P) (assign set_datalake (Mongo.connect services.mongo))
      → Preserves (Holds P) (assign set_cache (Redis.connect services.json services.redis))
      → Preserves (Holds P) (connect_services services)
  unfolding connect_services
  connect_services-Preserves P a b c d e f = Preserves-bind _ _ a (λ _. Preserves-bind _ _ b (λ _.
      Preserves-bind _ _ c (λ _.
        Preserves-bind _ _ (Preserves-unless P _ _ d)
          (λ _. Preserves-bind _ _ (Preserves-unless P _ _ e) (λ _. Preserves-unless P _ _ f)))))

  -- The flags after the `try`.
  abbrev flags : S → Active
  flags s = (connect_services services (s, none_active)).1.1

  database_flag : (s : S) → NeverTrue (test_connection services) → (flags s).database ≡ false
  database_flag s away =
      let P : Active → Type 0 = λ active. active.database ≡ false in
      (connect_services-Preserves P
          (Preserves-assign P set_database _
            (λ t b active q p. never (test_connection services) t b away q))
          (Preserves-assign P set_datalake _ (λ t b active q p. p))
          (Preserves-assign P set_cache _ (λ t b active q p. p))
          (Preserves-assign P set_database _ (λ t b active q p.
            never (start_connection services >> test_connection services) t b
              (NeverTrue-bind _ _ away) q))
          (Preserves-assign P set_datalake _ (λ t b active q p. p))
          (Preserves-assign P set_cache _ (λ t b active q p. p))).keeps
        (s, none_active) refl

  datalake_flag :
      (s : S)
      → NeverTrue (reading services.mongo.is_connected)
      → NeverTrue (Mongo.connect services.mongo)
      → (flags s).datalake ≡ false
  datalake_flag s away still_away =
      let P : Active → Type 0 = λ active. active.datalake ≡ false in
      (connect_services-Preserves P (Preserves-assign P set_database _ (λ t b active q p. p))
          (Preserves-assign P set_datalake _
            (λ t b active q p. never (reading services.mongo.is_connected) t b away q))
          (Preserves-assign P set_cache _ (λ t b active q p. p))
          (Preserves-assign P set_database _ (λ t b active q p. p))
          (Preserves-assign P set_datalake _
            (λ t b active q p. never (Mongo.connect services.mongo) t b still_away q))
          (Preserves-assign P set_cache _ (λ t b active q p. p))).keeps
        (s, none_active) refl

  cache_flag :
      (s : S)
      → NeverTrue (reading (Redis.is_connected services.json services.redis))
      → NeverTrue (Redis.connect services.json services.redis)
      → (flags s).cache ≡ false
  cache_flag s away still_away =
      let P : Active → Type 0 = λ active. active.cache ≡ false in
      (connect_services-Preserves P (Preserves-assign P set_database _ (λ t b active q p. p))
          (Preserves-assign P set_datalake _ (λ t b active q p. p))
          (Preserves-assign P set_cache _ (λ t b active q p.
            never (reading (Redis.is_connected services.json services.redis)) t b away q))
          (Preserves-assign P set_database _ (λ t b active q p. p))
          (Preserves-assign P set_datalake _ (λ t b active q p. p))
          (Preserves-assign P set_cache _ (λ t b active q p.
            never (Redis.connect services.json services.redis) t b still_away q))).keeps
        (s, none_active) refl

  away_flag :
      (s : S)
      → IsAway services
      → (flags s).database && ((flags s).datalake && (flags s).cache) ≡ false
  away_flag s (database_away a) = rw (database_flag s a)
  away_flag s (datalake_away a b) = ground (arith, datalake_flag s a b)
  away_flag s (cache_away a b) = ground (arith, cache_flag s a b)

  -- While the database, Mongo or Redis stays away, the task ends in the cutting of all sockets, in some
  -- state that the attempts to connect left, and ends as the cutting ends: whatever the attempts throw,
  -- it is neither left before the cutting nor thrown on.
  pub execute_cuts :
      (s : S) → IsAway services → (t : S) × (execute services s ≡ services.disconnect_all_sockets t)
  unfolding execute
  execute_cuts s away = ((connect_services services (s, none_active)).1.0, rw (away_flag s away))
