-- ===== src/Lifecycle/Shutdown.antt =====
-- What src/modules/core/start/Lifecycle.service.ts closes although something fails.
use node_back_end_boilerplat.Lifecycle.{
  Closing, on_module_destroy, before_application_shutdown, or_logged, if_connected,
}
use node_back_end_boilerplat.Prelude.{Bool, ◌≡◌, refl, Bool-cases, inl, inr, ap, ◌∙◌}
use node_back_end_boilerplat.Effects.{Exec, Result, ok, err, recover, pure, try_catch, ◌>>=◌, ◌>>◌}

module _ {S : Type 0} where
  recovered : (r : Result (Unit {0})) (s : S) → (recover r (λ _. pure tt) s).0 ≡ ok tt
  recovered (ok tt) s = refl
  recovered (err e) s = refl

  or_logged_total : (m : Exec S (Unit {0})) (s : S) → (or_logged m s).0 ≡ ok tt
  unfolding or_logged try_catch
  or_logged_total m s = recovered (m s).0 (m s).1

  if_connected_total : (f : S → Bool) (m : Exec S Bool) (s : S) → (if_connected f m s).0 ≡ ok tt
  unfolding if_connected
  if_connected_total f m s = elim (Bool-cases (f s)) [
    | inl p ↦ rw p (or_logged_total (m >> pure tt) s)
    | inr p ↦ rw p
  ]

  -- A step that returns hands its store on.
  next_step : (m n : Exec S (Unit {0})) (s : S) → (m s).0 ≡ ok tt → (m >> n) s ≡ n (m s).1
  unfolding ◌>>=◌
  next_step m n s p = rw p

  ends_with_database :
      (closing : Closing S) (s : S)
      → (t : S) × (before_application_shutdown closing s ≡ or_logged closing.destroy_database t)
  unfolding before_application_shutdown
  ends_with_database closing s =
      let redis = if_connected closing.redis_is_connected closing.disconnect_redis in
      let mongo = if_connected closing.mongo_is_connected closing.disconnect_mongo in
      let t = (redis s).1 in
      (
        (mongo t).1,
        next_step redis (mongo >> or_logged closing.destroy_database) s
              (if_connected_total closing.redis_is_connected closing.disconnect_redis s)
            ∙ next_step mongo (or_logged closing.destroy_database) t
                (if_connected_total closing.mongo_is_connected closing.disconnect_mongo t),
      )

  -- The program always stops: neither step of the shutdown throws, and the connection to the database is
  -- asked to close in the end, whatever the closing of Redis and Mongo throw.
  pub shutdown_total :
      (closing : Closing S) (s : S)
      → ((on_module_destroy closing s).0 ≡ ok tt)
        × ((before_application_shutdown closing s).0 ≡ ok tt)
        × ((t : S) × (before_application_shutdown closing s ≡ or_logged closing.destroy_database t))
  unfolding on_module_destroy
  shutdown_total closing s =
      let (t, p) = ends_with_database closing s in
      (
        or_logged_total _ s,
        ap (λ result. result.0) p ∙ or_logged_total closing.destroy_database t,
        ends_with_database closing s,
      )
