-- ===== src/Tests/Throttlers.antt =====
-- Examples on a storage that counts its hits: src/modules/common/guards.
use node_back_end_boilerplat.Throttler.{
  Platform, ThrottlerOptions, ContextKind, ws_context, constant, can_activate, Hit, StorageRecord,
  other_context, run_throttlers, run_throttler, handle_ws_event, get_throttler_data, resolve_value,
}
use node_back_end_boilerplat.Prelude.{
  ℕ, String, ◌+◌, ltb, some, none, true, false, refl, ◌≡◌, [], ◌∷◌, ap,
}
use node_back_end_boilerplat.Effects.{ok, ◌>>=◌}
use node_back_end_boilerplat.Text.{Lacks}
use node_back_end_boilerplat.Throttler.Blocking.{Answers, IsVerdict, can_activate-IsVerdict}
use node_back_end_boilerplat.Throttler.Keys.{generate_key_injective}
use node_back_end_boilerplat.Throttler.Passing.{LetThrough, can_activate-LetThrough}

-- The hits so far.
abbrev record_of : Hit → ℕ → StorageRecord
record_of hit hits = record {
  total_hits = hits + 1;
  time_to_expire = 60;
  is_blocked = ltb hit.limit (hits + 1);
  time_to_block_expire = 30;
}

abbrev platform : Platform ContextKind ℕ
platform = record {
  kind = λ context. context;
  handler_throttler = λ context. none;
  class_throttler = λ context. none;
  increment = λ hit hits. (ok (record_of hit hits), hits + 1);
  header = λ name n hits. (ok tt, hits);
  to_upper_case = λ text. text;
}

answers : Answers platform
answers = record {
  increment_answers = λ hit. record { returns = λ hits. (record_of hit hits, refl) };
  header_answers = λ name n. record { returns = λ hits. (tt, refl) };
}

abbrev twice : ThrottlerOptions ContextKind
twice = record {
  name = some "short";
  limit = constant 2;
  ttl = constant 1000;
  block_duration = constant 0;
  skip_if = none;
}

abbrev event : ContextKind
event = ws_context (some "socket1") "emit"

second_event : can_activate platform (twice ∷ []) event 1 ≡ (ok true, 2)
unfolding can_activate run_throttlers run_throttler handle_ws_event get_throttler_data resolve_value
    ◌>>=◌
second_event = refl

unknown_context : can_activate platform (twice ∷ []) other_context 1 ≡ (ok false, 1)
unfolding can_activate run_throttlers run_throttler ◌>>=◌
unknown_context = refl

can_activate-IsVerdict_example : IsVerdict platform (can_activate platform (twice ∷ []) event 2).0
can_activate-IsVerdict_example = can_activate-IsVerdict platform answers (twice ∷ []) event 2 refl

abbrev address : String
address = "10.0.0.1"

abbrev route : String
route = "[GET]/"

no_colon : Lacks b':' address
no_colon = (refl, (refl, (refl, (refl, (refl, (refl, (refl, (refl, tt))))))))

generate_key_injective_example : (address ≡ address) × (route ≡ route)
generate_key_injective_example =
    generate_key_injective "short" "http" address address route route no_colon no_colon refl

can_activate-LetThrough_example : LetThrough platform event (twice ∷ []) 1
can_activate-LetThrough_example =
    can_activate-LetThrough platform (twice ∷ []) event 1 (ap (λ p. p.0) second_event)
