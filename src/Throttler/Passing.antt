-- ===== src/Throttler/Passing.antt =====
-- What a request that passes the throttler was asked: CustomThrottler.guard.ts of
-- src/modules/common/guards.
use node_back_end_boilerplat.Throttler.{
  Platform, ThrottlerOptions, can_activate, run_throttlers, run_throttler, Hit, StorageRecord,
  ContextKind, http_context, ws_context, other_context, handle_kind, is_skipped, ThrottlerData,
  handle_http_request, handle_ws_event, check_blocked, hit_of, generate_key, get_route,
  get_throttler_data, listed,
}
use node_back_end_boilerplat.Effects.{Result, ok, bind-eq-ok}
use node_back_end_boilerplat.Prelude.{
  String, Bool, true, false, ◌≡◌, refl, Bool-cases, inl, inr, Option, some, none, or_else,
  or_option, ◌⊎◌, List, [], ◌∷◌, ◌++◌, ◌&&◌, ◌∙◌, ap, arith,
}

check_blocked_inv :
    {S : Type 0} (hit : Hit) (tracker : String) (r : StorageRecord) (s : S) (b : Unit {0})
    → (check_blocked hit tracker r s).0 ≡ ok b
    → r.is_blocked ≡ false
check_blocked_inv hit tracker r s b h = elim (Bool-cases r.is_blocked) [
  | inl blocked ↦ ground arith
  | inr free ↦ free
]

ok_both : (a b : Bool) → ◌≡◌ {A = Result Bool} (ok (a && b)) (ok true) → (a ≡ true) × (b ≡ true)
ok_both true true h = (refl, refl)
ok_both true false h = cc
ok_both false b h = cc

module _ {C S : Type 0} (platform : Platform C S) where
  -- What the storage is asked for a context, if it is asked.
  abbrev pub counted_hit : ContextKind → ThrottlerData → Option Hit
  unfolding get_route generate_key
  counted_hit (http_context request) values = some (
      hit_of values (
        generate_key values.name "http" (or_else (or_option request.ip request.remote_address) "_")
          (get_route platform request)))
  counted_hit (ws_context socket_id event) values =
      some (hit_of values (generate_key values.name "ws" (or_else socket_id "_") event))
  counted_hit other_context values = none

  -- The storage was asked for the context, and did not say that the key is blocked.
  abbrev pub WasFree : ContextKind → ThrottlerData → S → Type 0
  WasFree kind values s =
      (hit : Hit) × (r : StorageRecord) × (counted_hit kind values ≡ some hit)
      × ((platform.increment hit s).0 ≡ ok r)
      × (r.is_blocked ≡ false)

  handle_kind_free :
      (kind : ContextKind) (values : ThrottlerData) (s : S)
      → (handle_kind platform kind values s).0 ≡ ok true
      → WasFree kind values s
  unfolding handle_http_request handle_ws_event counted_hit
  handle_kind_free (http_context request) values s h =
      let (r, asked, run1) = bind-eq-ok _ _ s true h in
      let (_, _, run2) = bind-eq-ok _ _ _ true run1 in
      let (_, _, run3) = bind-eq-ok _ _ _ true run2 in
      let (_, _, run4) = bind-eq-ok _ _ _ true run3 in
      let (_, _, run5) = bind-eq-ok _ _ _ true run4 in
      let (b, checked, _) = bind-eq-ok _ _ _ true run5 in
      (_, r, refl, asked, check_blocked_inv _ _ r _ b checked)
  handle_kind_free (ws_context socket_id event) values s h =
      let (r, asked, run1) = bind-eq-ok _ _ s true h in
      let (b, checked, _) = bind-eq-ok _ _ _ true run1 in
      (_, r, refl, asked, check_blocked_inv _ _ r _ b checked)
  handle_kind_free other_context values s h = cc

  -- The throttler is skipped, or the storage let the context through.
  abbrev pub LetsThrough : C → ThrottlerOptions C → S → Type 0
  LetsThrough context throttler s =
      (is_skipped context throttler ≡ true)
      ⊎ WasFree (platform.kind context) (get_throttler_data context throttler) s

  -- Every throttler let the context through, each on the storage that those before it left.
  pub LetThrough : C → List (ThrottlerOptions C) → S → Type 0
  LetThrough context [] s = Unit
  LetThrough context (throttler ∷ throttlers) s =
      LetsThrough context throttler s
      × LetThrough context throttlers (run_throttler platform context throttler s).1

  run_throttler_free :
      (context : C) (throttler : ThrottlerOptions C) (s : S)
      → (run_throttler platform context throttler s).0 ≡ ok true
      → LetsThrough context throttler s
  unfolding run_throttler
  run_throttler_free context throttler s h = elim (Bool-cases (is_skipped context throttler)) [
    | inl skipped ↦ inl skipped
    | inr counted ↦ inr (handle_kind_free (platform.kind context) _ s (rw counted at h))
  ]

  run_throttlers-LetThrough :
      (context : C) (throttlers : List (ThrottlerOptions C)) (s : S)
      → (run_throttlers platform context throttlers s).0 ≡ ok true
      → LetThrough context throttlers s
  unfolding run_throttlers LetThrough
  run_throttlers-LetThrough context [] s h = tt
  run_throttlers-LetThrough context (throttler ∷ throttlers) s h =
      let (a, here, run1) = bind-eq-ok _ _ s true h in
      let (b, later, run2) = bind-eq-ok _ _ _ true run1 in
      let (p, q) = ok_both a b run2 in
      (
        run_throttler_free context throttler s (here ∙ ap ok p),
        run_throttlers-LetThrough context throttlers _ (later ∙ ap ok q),
      )

  -- Nobody who is blocked passes: where the guard says true, each of the throttlers, the global ones
  -- first and then those of the handler and of its class, was skipped, or the storage counted the
  -- request under its key and did not say that it is blocked.
  pub can_activate-LetThrough :
      (global_throttlers : List (ThrottlerOptions C)) (context : C) (s : S)
      → (can_activate platform global_throttlers context s).0 ≡ ok true
      → LetThrough context
          (global_throttlers
            ++ listed (platform.handler_throttler context)
            ++ listed (platform.class_throttler context))
          s
  unfolding can_activate
  can_activate-LetThrough global_throttlers context s h = run_throttlers-LetThrough context _ s h
