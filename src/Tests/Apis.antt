-- ===== src/Tests/Apis.antt =====
-- Examples of the routes of events.
use node_back_end_boilerplat.Tests.Subscriptions.{backing_of, no_entries}
use node_back_end_boilerplat.Api.ServerEvents.{
  subscription_events, subscription_events_lem, readings, event_limit, attempt, numbered,
}
use node_back_end_boilerplat.Effects.{ok}
use node_back_end_boilerplat.Prelude.{map, ◌≡◌}

subscription_events_lem_example :
    ((subscription_events backing_of "s1" no_entries).0
      ≡ ok (readings backing_of "s1" event_limit 0 no_entries))
    × (map attempt (readings backing_of "s1" event_limit 0 no_entries) ≡ numbered event_limit 0)
subscription_events_lem_example = subscription_events_lem backing_of "s1" no_entries
