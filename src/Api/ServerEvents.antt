-- ===== src/Api/ServerEvents.antt =====
-- src/modules/events/api/controllers/ServerEvents.controller.ts: the subscription of a socket, sent to a
-- client every five seconds, ten times. Each reading is taken to end within the five seconds, and the
-- times of the events are not modelled.
use node_back_end_boilerplat.Prelude.{refl, ap₂, ◌≡◌, map}
use node_back_end_boilerplat.Controller.{get_subscription}
use node_back_end_boilerplat.Subscriptions.{Backing}
use node_back_end_boilerplat.Prelude.{ℕ, zero, suc, ◌+◌, String, List, [], ◌∷◌, map, ◌≡◌}
use node_back_end_boilerplat.Value.{Fields}
use node_back_end_boilerplat.Effects.{
  Exec, pure, try_catch, ◌>>=◌, Result, ok, recover, continue, err,
}
use node_back_end_boilerplat.Exceptions.{Thrown}

-- The data of an event: the attempt, and the subscription or what was thrown.
pub data Event : Type 0 where
  content : ℕ → Fields → Event
  error : ℕ → Thrown → Event

abbrev pub attempt : Event → ℕ
attempt (content n o) = n
attempt (error n e) = n

abbrev pub event_limit : ℕ
event_limit = 10

module _ {S : Type 0} (backing : Backing S) (subscription_id : String) where
  -- The function of `switchMap`
  unfoldable pub event_of : ℕ → Exec S Event
  unfolding get_subscription
  event_of index =
      try_catch
        (do
          subscription ← get_subscription backing subscription_id
          pure (content (index + 1) subscription))
        (λ e. pure (error (index + 1) e))

  -- `interval(…).pipe(take(…), switchMap(…))`: what is left to take, and the index.
  unfoldable pub events_from : ℕ → ℕ → Exec S (List Event)
  unfolding event_of
  events_from zero index = pure []
  events_from (suc left) index = do
    event ← event_of index
    events ← events_from left (index + 1)
    pure (event ∷ events)

  -- `getSubscription`
  unfoldable pub subscription_events : Exec S (List Event)
  unfolding events_from
  subscription_events = events_from event_limit 0

-- The attempts from an index on.
abbrev pub numbered : ℕ → ℕ → List ℕ
numbered zero index = []
numbered (suc left) index = (index + 1) ∷ numbered left (index + 1)

-- What an event tells of what a reading gave.
abbrev pub event_as : ℕ → Result Fields → Event
event_as n (ok subscription) = content n subscription
event_as n (err e) = error n e

-- The readings, one after the other, each on what the one before left.
pub readings : {S : Type 0} → Backing S → String → ℕ → ℕ → S → List Event
readings backing id zero index s = []
readings backing id (suc left) index s =
    let (r, s') = get_subscription backing id s in
    event_as (index + 1) r ∷ readings backing id left (index + 1) s'

module _ {S : Type 0} (backing : Backing S) (id : String) where
  told :
      (index : ℕ) (r : Result Fields) (s : S)
      → recover
          (continue r (λ subscription. pure (content (index + 1) subscription)) s).0
          (λ e. pure (error (index + 1) e))
          (continue r (λ subscription. pure (content (index + 1) subscription)) s).1
        ≡ (ok (event_as (index + 1) r), s)
  told index (ok subscription) s = refl
  told index (err e) s = refl

  event_of_lem :
      (index : ℕ) (s : S)
      → event_of backing id index s ≡ (
        ok (event_as (index + 1) (get_subscription backing id s).0),
        (get_subscription backing id s).1,
      )
  unfolding event_of try_catch ◌>>=◌
  event_of_lem index s =
      told index (get_subscription backing id s).0 (get_subscription backing id s).1

  behind :
      (event : Event) (r : Result (List Event)) (events : List Event) (s : S)
      → r ≡ ok events
      → (continue r (λ rest. pure (event ∷ rest)) s).0 ≡ ok (event ∷ events)
  behind event r events s h = rw h

  events_from_lem :
      (left index : ℕ) (s : S)
      → (events_from backing id left index s).0 ≡ ok (readings backing id left index s)
  unfolding events_from readings ◌>>=◌
  events_from_lem zero index s = refl
  events_from_lem (suc left) index s = rw (event_of_lem index s) (
      behind _ _ _ (events_from backing id left (index + 1) _).1
        (events_from_lem left (index + 1) _))

  attempt-event_as : (n : ℕ) (r : Result Fields) → attempt (event_as n r) ≡ n
  attempt-event_as n (ok subscription) = refl
  attempt-event_as n (err e) = refl

  attempts-readings :
      (left index : ℕ) (s : S)
      → map attempt (readings backing id left index s) ≡ numbered left index
  unfolding readings
  attempts-readings zero index s = refl
  attempts-readings (suc left) index s =
      ap₂ (◌∷◌) (attempt-event_as (index + 1) (get_subscription backing id s).0)
        (attempts-readings left (index + 1) (get_subscription backing id s).1)

  -- Where each reading ends before the next begins, the client is sent ten events, numbered from one to
  -- ten, whatever the readings throw: each has the subscription that its reading gave, or else the error
  -- that it threw, and the stream never fails.
  pub subscription_events_lem :
      (s : S)
      → ((subscription_events backing id s).0 ≡ ok (readings backing id event_limit 0 s))
        × (map attempt (readings backing id event_limit 0 s) ≡ numbered event_limit 0)
  unfolding subscription_events
  subscription_events_lem s = (events_from_lem event_limit 0 s, attempts-readings event_limit 0 s)
