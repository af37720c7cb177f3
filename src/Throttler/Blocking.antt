-- ===== src/Throttler/Blocking.antt =====
-- Who passes the throttler: src/modules/common/guards/CustomThrottler.guard.ts.
use node_back_end_boilerplat.Throttler.{
  Platform, ThrottlerOptions, can_activate, run_throttlers, run_throttler, too_many, Hit,
  StorageRecord, ContextKind, http_context, ws_context, other_context, check_blocked, Request,
  ThrottlerData, handle_http_request, handle_ws_event, handle_kind, is_skipped,
}
use node_back_end_boilerplat.Prelude.{
  String, Bool, true, false, ◌≡◌, refl, Bool-cases, inl, inr, if◌then◌else◌, ℕ, Option, ◌&&◌, List,
  [], ◌∷◌,
}
use node_back_end_boilerplat.Effects.{Result, ok, err, Exec, pure, ◌>>=◌, continue}

-- An HTTP request or a WebSocket event.
abbrev pub is_served : ContextKind → Bool
is_served other_context = false
is_served _ = true

-- An action that never throws.
pub record Returns {S A : Type 0} (m : Exec S A) : Type 0 where
  pub returns : (s : S) → (a : A) × ((m s).0 ≡ ok a)

module _ {S : Type 0} where
  Returns-pure : {A : Type 0} (a : A) → Returns {S = S} (pure a)
  Returns-pure a = record { returns = λ s. (a, refl) }

  Returns-if :
      {A : Type 0} (b : Bool) (m n : Exec S A)
      → Returns m
      → Returns n
      → Returns (if b then m else n)
  Returns-if true m n h k = h
  Returns-if false m n h k = k

module _ {C S : Type 0} (platform : Platform C S) where
  -- The storage answered this of a hit, at some time.
  pub record IsRecordOf (hit : Hit) (r : StorageRecord) : Type 0 where
    pub asked : S
    pub answered : (platform.increment hit asked).0 ≡ ok r

  -- The request passes, or it is refused with the exception of a hit, and of the record that the storage
  -- answered of this hit, which says that the key is blocked.
  pub data IsVerdict : Result Bool → Type 0 where
    passes : IsVerdict (ok true)
    refused :
        (hit : Hit) (tracker : String) (r : StorageRecord)
        → IsRecordOf hit r
        → r.is_blocked ≡ true
        → IsVerdict (err (too_many hit tracker r))

  record Decides (m : Exec S Bool) : Type 0 where
    decides : (s : S) → IsVerdict (m s).0

  Decides-true : Decides (pure true)
  Decides-true = record { decides = λ s. passes }

  Decides-bind :
      {A : Type 0} (m : Exec S A) (f : A → Exec S Bool)
      → Returns m
      → ((a : A) → Decides (f a))
      → Decides (m >>= f)
  unfolding ◌>>=◌
  Decides-bind m f h k = record {
    decides = λ s. let (a, e) = h.returns s in rw e ((k a).decides (m s).1);
  }

  -- What follows on a hit may rely on the record being the storage's.
  Decides-increment :
      (hit : Hit) (f : StorageRecord → Exec S Bool)
      → Returns (platform.increment hit)
      → ((r : StorageRecord) → IsRecordOf hit r → Decides (f r))
      → Decides (platform.increment hit >>= f)
  unfolding ◌>>=◌
  Decides-increment hit f h k = record {
    decides = λ s.
        let (r, e) = h.returns s in
        rw e ((k r (record { asked = s; answered = e })).decides (platform.increment hit s).1);
  }

  Decides-check_blocked :
      (hit : Hit) (tracker : String) (r : StorageRecord)
      → IsRecordOf hit r
      → Decides (check_blocked hit tracker r >>= λ _. pure true)
  unfolding ◌>>=◌ too_many
  Decides-check_blocked hit tracker r of_hit = record {
    decides = λ s. elim (Bool-cases r.is_blocked) [
      | inl blocked ↦ rw blocked (refused hit tracker r of_hit blocked)
      | inr free ↦ rw free passes
    ];
  }

  rest_lem :
      (r : Result Bool) (s : S) → IsVerdict r → IsVerdict (continue r (λ b. pure (true && b)) s).0
  rest_lem _ s passes = passes
  rest_lem _ s (refused hit tracker r of_hit h) = refused hit tracker r of_hit h

  both_lem :
      (r : Result Bool) (n : Exec S Bool) (s : S)
      → IsVerdict r
      → Decides n
      → IsVerdict (continue r (λ a. n >>= λ b. pure (a && b)) s).0
  unfolding ◌>>=◌
  both_lem _ n s passes k = rest_lem (n s).0 (n s).1 (k.decides s)
  both_lem _ n s (refused hit tracker r of_hit h) k = refused hit tracker r of_hit h

  Decides-both :
      (m n : Exec S Bool) → Decides m → Decides n → Decides (m >>= λ a. n >>= λ b. pure (a && b))
  unfolding ◌>>=◌
  Decides-both m n h k = record { decides = λ s. both_lem (m s).0 n (m s).1 (h.decides s) k }

  -- The storage and the response answer every call; they do not throw.
  pub record Answers : Type 0 where
    pub increment_answers : (hit : Hit) → Returns (platform.increment hit)
    pub header_answers : (name : String) (n : ℕ) → Returns (platform.header name n)

  module _ (answers : Answers) where
    handle_http_request-Decides :
        (request : Request) (values : ThrottlerData)
        → Decides (handle_http_request platform request values)
    unfolding handle_http_request
    handle_http_request-Decides request values =
        Decides-increment _ _ (answers.increment_answers _) (λ r of_hit.
          search
            (Decides-bind, Decides-check_blocked, Returns-if, Returns-pure, answers.header_answers)
            depth 20)

    handle_ws_event-Decides :
        (socket_id : Option String) (event : String) (values : ThrottlerData)
        → Decides (handle_ws_event platform socket_id event values)
    unfolding handle_ws_event
    handle_ws_event-Decides socket_id event values =
        Decides-increment _ _ (answers.increment_answers _)
          (λ r of_hit. Decides-check_blocked _ _ r of_hit)

    handle_kind-Decides :
        (kind : ContextKind) (values : ThrottlerData)
        → is_served kind ≡ true
        → Decides (handle_kind platform kind values)
    handle_kind-Decides (http_context request) values h = handle_http_request-Decides request values
    handle_kind-Decides (ws_context socket_id event) values h =
        handle_ws_event-Decides socket_id event values
    handle_kind-Decides other_context values h = cc

    run_throttler-Decides :
        (context : C) (throttler : ThrottlerOptions C)
        → is_served (platform.kind context) ≡ true
        → Decides (run_throttler platform context throttler)
    unfolding run_throttler
    run_throttler-Decides context throttler h = elim (Bool-cases (is_skipped context throttler)) [
      | inl skipped ↦ rw skipped Decides-true
      | inr counted ↦ rw counted (handle_kind-Decides (platform.kind context) _ h)
    ]

    run_throttlers-Decides :
        (context : C) (throttlers : List (ThrottlerOptions C))
        → is_served (platform.kind context) ≡ true
        → Decides (run_throttlers platform context throttlers)
    unfolding run_throttlers
    run_throttlers-Decides context [] h = Decides-true
    run_throttlers-Decides context (throttler ∷ throttlers) h =
        Decides-both _ _ (run_throttler-Decides context throttler h)
          (run_throttlers-Decides context throttlers h)

    -- On an HTTP request and on a WebSocket event the guard says true or throws: if the storage and
    -- the response answer, it never answers false, and what it throws is the too many requests
    -- exception of a hit and of the record that the storage answered of this very hit, which says that
    -- the key is blocked.
    pub can_activate-IsVerdict :
        (global_throttlers : List (ThrottlerOptions C)) (context : C) (s : S)
        → is_served (platform.kind context) ≡ true
        → IsVerdict (can_activate platform global_throttlers context s).0
    unfolding can_activate
    can_activate-IsVerdict global_throttlers context s h =
        (run_throttlers-Decides context _ h).decides s
