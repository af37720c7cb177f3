-- ===== src/Throttler.antt =====
-- src/modules/common/guards/CustomThrottler.guard.ts, over a context `C` and a storage `S`. Log
-- lines are not modelled; the numbers of a header stay numbers.
pub mod Keys
pub mod Blocking
pub mod Passing
use node_back_end_boilerplat.Text.{split, first}
use node_back_end_boilerplat.Prelude.{
  ℕ, String, Bool, true, false, Option, none, some, or_else, or_option, is_truthy, if◌then◌else◌,
  join_text, ◌-◌, List, [], ◌∷◌, ◌++◌, ◌&&◌,
}
use node_back_end_boilerplat.Effects.{Exec, pure, raise, ◌>>=◌, ◌>>◌}
use node_back_end_boilerplat.Exceptions.{Thrown, http, exception, too_many_requests, detailed_error}
use node_back_end_boilerplat.Value.{str, num, obj, field, end}

-- `Resolvable<number>`
pub data Resolvable (C : Type 0) : Type 0 where
  constant : ℕ → Resolvable C
  computed : (C → ℕ) → Resolvable C

-- `ThrottlerOptions`; a missing duration of a block is `undefined` in the source and 0 here.
pub record ThrottlerOptions (C : Type 0) : Type 0 where
  pub name : Option String
  pub limit : Resolvable C
  pub ttl : Resolvable C
  pub block_duration : Resolvable C
  pub skip_if : Option (C → Bool)

-- `ThrottlerStorageRecord`
pub record StorageRecord : Type 0 where
  pub total_hits : ℕ
  pub time_to_expire : ℕ
  pub is_blocked : Bool
  pub time_to_block_expire : ℕ

-- The arguments of `increment`.
pub record Hit : Type 0 where
  pub key : String
  pub ttl : ℕ
  pub limit : ℕ
  pub block_duration : ℕ
  pub throttler_name : String

-- What the guard reads of a request.
pub record Request : Type 0 where
  pub method : String
  pub original_url : String
  pub url : String
  pub route_url : Option String
  pub ip : Option String
  pub remote_address : Option String

pub data ContextKind : Type 0 where
  http_context : Request → ContextKind
  ws_context : Option String → String → ContextKind
  other_context : ContextKind

-- NestJS: the kind of a context, the two decorators' throttlers, the storage, the response header,
-- and `toUpperCase`.
pub record Platform (C S : Type 0) : Type 0 where
  pub kind : C → ContextKind
  pub handler_throttler : C → Option (ThrottlerOptions C)
  pub class_throttler : C → Option (ThrottlerOptions C)
  pub increment : Hit → Exec S StorageRecord
  pub header : String → ℕ → Exec S (Unit {0})
  pub to_upper_case : String → String

-- `resolveValue`
unfoldable pub resolve_value : {C : Type 0} → C → Resolvable C → ℕ
resolve_value context (constant n) = n
resolve_value context (computed f) = f context

-- `generateKey`
unfoldable pub generate_key : String → String → String → String → String
generate_key throttler_name client_context client_id call_code = join_text "CustomThrottlerGuard:" (
    join_text throttler_name (
      join_text ":"
        (join_text client_context (join_text ":" (join_text client_id (join_text ":" call_code))))))

-- `a || b` on texts.
abbrev pub or_text : Option String → Option String → Option String
or_text a b = if is_truthy a then a else b

-- The name and the numbers of a throttler in a context.
pub record ThrottlerData : Type 0 where
  pub name : String
  pub ttl : ℕ
  pub limit : ℕ
  pub block_duration : ℕ

-- `getThrottlerData`
unfoldable pub get_throttler_data : {C : Type 0} → C → ThrottlerOptions C → ThrottlerData
unfolding resolve_value
get_throttler_data context throttler = record {
  name = or_else throttler.name "default";
  ttl = resolve_value context throttler.ttl;
  limit = resolve_value context throttler.limit;
  block_duration = resolve_value context throttler.block_duration;
}

abbrev pub hit_of : ThrottlerData → String → Hit
hit_of values key = record {
  key = key;
  ttl = values.ttl;
  limit = values.limit;
  block_duration = values.block_duration;
  throttler_name = values.name;
}

-- `throwException`
unfoldable pub too_many : Hit → String → StorageRecord → Thrown
too_many hit tracker r = http (
    exception too_many_requests
      (detailed_error "Too Many Requests/Events/Retries" (
        obj (
          field "key" (str hit.key) (
            field "tracker" (str tracker) (
              field "ttl" (num hit.ttl) (
                field "limit" (num hit.limit) (
                  field "totalHits" (num r.total_hits) (
                    field "timeToExpire" (num r.time_to_expire)
                      (field "timeToBlockExpire" (num r.time_to_block_expire) end)))))))))
      false)

-- `getCustomThrottlers`
abbrev pub listed : {A : Type 0} → Option A → List A
listed none = []
listed (some a) = a ∷ []

abbrev pub is_skipped : {C : Type 0} → C → ThrottlerOptions C → Bool
is_skipped context throttler = elim throttler.skip_if [ none ↦ false | some skip ↦ skip context ]

-- `if (isBlocked) this.throwException(…)`
abbrev pub check_blocked : {S : Type 0} → Hit → String → StorageRecord → Exec S (Unit {0})
check_blocked hit tracker r = if r.is_blocked then raise (too_many hit tracker r) else pure tt

module _ {C S : Type 0} (platform : Platform C S) where
  -- `getRoute`
  unfoldable pub get_route : Request → String
  unfolding split
  get_route request = join_text "[" (
      join_text (platform.to_upper_case request.method) (
        join_text "]" (
          or_else
            (or_text request.route_url
              (or_text (first (split b'?' request.original_url)) (first (split b'?' request.url))))
            "")))

  -- `handleHttpRequest`; `Math.max(0, limit - totalHits)` is the subtraction that stops at 0.
  unfoldable pub handle_http_request : Request → ThrottlerData → Exec S Bool
  unfolding get_route generate_key
  handle_http_request request values =
      let ip = or_else (or_option request.ip request.remote_address) "_" in
      let hit = hit_of values (generate_key values.name "http" ip (get_route request)) in
      (do
        r ← platform.increment hit
        platform.header (join_text "X-RateLimit-Limit-" values.name) values.limit
        platform.header (join_text "X-RateLimit-Remaining-" values.name)
            (values.limit - r.total_hits)
        platform.header (join_text "X-RateLimit-Reset-" values.name) r.time_to_expire
        (if r.is_blocked then platform.header "Retry-After" r.time_to_block_expire else pure tt)
        check_blocked hit ip r
        pure true)

  -- `handleWsEvent`
  unfoldable pub handle_ws_event : Option String → String → ThrottlerData → Exec S Bool
  unfolding generate_key
  handle_ws_event socket_id event values =
      let id = or_else socket_id "_" in
      let hit = hit_of values (generate_key values.name "ws" id event) in
      (do r ← platform.increment hit; check_blocked hit id r; pure true)

  -- The `switch` on the kind of the context.
  abbrev pub handle_kind : ContextKind → ThrottlerData → Exec S Bool
  handle_kind (http_context request) values = handle_http_request request values
  handle_kind (ws_context socket_id event) values = handle_ws_event socket_id event values
  handle_kind other_context values = pure false

  -- One round of the loop.
  unfoldable pub run_throttler : C → ThrottlerOptions C → Exec S Bool
  unfolding handle_http_request handle_ws_event get_throttler_data
  run_throttler context throttler =
      if is_skipped context throttler
      then pure true
      else handle_kind (platform.kind context) (get_throttler_data context throttler)

  -- The loop of `canActivate`, with `every` on what it collected.
  unfoldable pub run_throttlers : C → List (ThrottlerOptions C) → Exec S Bool
  unfolding run_throttler
  run_throttlers context [] = pure true
  run_throttlers context (throttler ∷ throttlers) = do
    continues ← run_throttler context throttler
    rest ← run_throttlers context throttlers
    pure (continues && rest)

  -- `canActivate`
  unfoldable pub can_activate : List (ThrottlerOptions C) → C → Exec S Bool
  unfolding run_throttlers
  can_activate global_throttlers context = run_throttlers context (
      global_throttlers
      ++ listed (platform.handler_throttler context)
      ++ listed (platform.class_throttler context))
