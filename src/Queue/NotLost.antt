-- ===== src/Queue/NotLost.antt =====
-- No message is lost: src/modules/events/queue, the consumer and its handler together.
use node_back_end_boilerplat.Effects.Preserves.{
  Preserves, preserves_rules, Preserves-if, Preserves-bind, Preserves-pure,
}
use node_back_end_boilerplat.Queue.Handler.{
  Message, Outside, process, handle_by_schema, handle_by_domain_event, Emission, send_validated,
  EventPayload, execute, save_failed,
}
use node_back_end_boilerplat.Queue.Consumer.{
  DeleteMessage, delete_done, reset_errors_count, Consumer, handle_message,
  save_unprocessed_message, handle_processing_error,
}
use node_back_end_boilerplat.Prelude.{
  String, Option, ◌≡◌, inl, inr, refl, true, false, Bool, ◌⊎◌, Bool-cases, is_truthy, if◌then◌else◌,
  none, some,
}
use node_back_end_boilerplat.Value.{Value, Fields}
use node_back_end_boilerplat.Effects.{ok, try_catch, ◌>>=◌, Result-cases, ◌>>◌, pure}
use node_back_end_boilerplat.Exceptions.{Thrown}

module _ {S : Type 0} (outside : Outside S) (delete_message : DeleteMessage S)
    (Queued Saved : Message → S → Type 0) where
  -- What the queue and the database promise: other calls leave a queued message in the queue, an
  -- insertion that returns has saved the message, and a saved one stays saved.
  pub record Promises : Type 0 where
    pub send_keeps : (e : Emission) (m : Message) → Preserves (Queued m) (outside.send e)
    pub pull_hook_keeps :
        (event : String) (o : Fields) (m : Message)
        → Preserves (Queued m) (outside.pull_hook event o)
    pub insert_keeps : (m : Message) → Preserves (Queued m) (outside.insert_unprocessed m)
    pub insert_saves :
        (m : Message) (s : S) (id : Option String)
        → (outside.insert_unprocessed m s).0 ≡ ok id
        → Saved m (outside.insert_unprocessed m s).1
    pub delete_keeps : (m : Message) → Preserves (Saved m) (delete_message m)

  -- What an answer of `execute` says of the message: done, or still in the queue.
  abbrev pub Answer : Value → Message → S → Bool → S → Type 0
  Answer env_secret_hash m s true t = ((process outside env_secret_hash m s).0 ≡ ok tt) ⊎ Saved m t
  Answer env_secret_hash m s false t = Queued m t

  -- The message was processed, or is in the queue still, or is saved as unprocessed.
  abbrev pub IsKept : Value → Message → S → S → Type 0
  IsKept env_secret_hash m s t =
      ((process outside env_secret_hash m s).0 ≡ ok tt) ⊎ Queued m t ⊎ Saved m t

  module _ (promises : Promises) where
    handle_by_domain_event-Preserves :
        (m : Message) (value : EventPayload)
        → Preserves (Queued m) (handle_by_domain_event outside value)
    unfolding handle_by_domain_event
    handle_by_domain_event-Preserves m value = search (preserves_rules, promises.pull_hook_keeps)

    send_validated-Preserves :
        (env_secret_hash : Value) (m : Message) (value : EventPayload) (e : Emission)
        → Preserves (Queued m) (send_validated outside env_secret_hash value e)
    unfolding send_validated
    send_validated-Preserves env_secret_hash m value e =
        search (preserves_rules, promises.send_keeps)

    handle_by_schema-Preserves :
        (env_secret_hash : Value) (m : Message) (value : EventPayload)
        → Preserves (Queued m) (handle_by_schema outside env_secret_hash value)
    unfolding handle_by_schema
    handle_by_schema-Preserves env_secret_hash m value =
        search
          (
            preserves_rules, handle_by_domain_event-Preserves, send_validated-Preserves,
            promises.send_keeps,
          )
          depth 12

    process-Preserves :
        (env_secret_hash : Value) (m message : Message)
        → Preserves (Queued m) (process outside env_secret_hash message)
    unfolding process
    process-Preserves env_secret_hash m message =
        search (preserves_rules, handle_by_schema-Preserves)

    save_failed_lem :
        (env_secret_hash : Value) (m : Message) (s t : S)
        → Queued m t
        → (b : Bool) × ((save_failed outside m t).0 ≡ ok b)
          × Answer env_secret_hash m s b (save_failed outside m t).1
    unfolding save_failed try_catch ◌>>=◌
    save_failed_lem env_secret_hash m s t q =
        elim (Result-cases (outside.insert_unprocessed m t).0) [
          | inl (id, inserted) ↦
              rw inserted (true, refl, inr (promises.insert_saves m t id inserted))
          | inr (e, failed) ↦ rw failed (false, refl, (promises.insert_keeps m).keeps t q)
        ]

    -- The handler always answers a queued message, if the outside keeps its promises: it never
    -- throws, whatever the message and the services do. If it answers true, the message was
    -- processed or is saved as unprocessed; if it answers false, the message is in the queue still.
    pub execute_answers :
        (env_secret_hash : Value) (m : Message) (s : S)
        → Queued m s
        → (b : Bool) × ((execute outside env_secret_hash m s).0 ≡ ok b)
          × Answer env_secret_hash m s b (execute outside env_secret_hash m s).1
    unfolding execute try_catch ◌>>=◌
    execute_answers env_secret_hash m s q =
        elim (Result-cases (process outside env_secret_hash m s).0) [
          | inl (u, done) ↦ rw done (true, refl, inl done)
          | inr (e, failed) ↦ rw failed (
              save_failed_lem env_secret_hash m s _
                ((process-Preserves env_secret_hash m m).keeps s q))
        ]

    -- The end of `handleMessage`, on the answer of the handler.
    finish_lem :
        (env_secret_hash : Value) (m : Message) (s : S) (b : Bool) (c : Consumer S)
        → Answer env_secret_hash m s b c.outside
        → IsKept env_secret_hash m s
            ((delete_done outside delete_message m b >> reset_errors_count) c).1.outside
    unfolding ◌>>=◌ reset_errors_count
    finish_lem env_secret_hash m s false c a = inr (inl a)
    finish_lem env_secret_hash m s true c (inl done) = inl done
    finish_lem env_secret_hash m s true c (inr saved) =
        let kept = (promises.delete_keeps m).keeps c.outside saved in
        elim (Result-cases (delete_message m c.outside).0) [
          | inl (u, deleted) ↦ rw deleted (inr (inr kept))
          | inr (e, failed) ↦ rw failed (inr (inr kept))
        ]

    -- No message is lost by handling it, if the queue and the database keep their promises:
    -- whatever fails, a queued message that the consumer handles was processed, is in the queue
    -- still, or is saved as unprocessed.
    pub handle_message-IsKept :
        (env_secret_hash : Value) (m : Message) (c : Consumer S)
        → Queued m c.outside
        → IsKept env_secret_hash m c.outside
            (handle_message outside delete_message env_secret_hash m c).1.outside
    unfolding handle_message ◌>>=◌
    handle_message-IsKept env_secret_hash m c q = elim (Bool-cases c.disabled) [
      | inl off ↦ rw off (inr (inl q))
      | inr on ↦
          let (b, answered, a) = execute_answers env_secret_hash m c.outside q in
          rw (on, answered) (finish_lem env_secret_hash m c.outside b _ a)
    ]

    delete_stored_lem :
        (m : Message) (id : Option String) (t : S)
        → Saved m t
        → Saved m ((if is_truthy id then (delete_message m >> pure tt) else pure tt) t).1
    delete_stored_lem m none t saved = saved
    delete_stored_lem m (some id) t saved =
        (Preserves-if (is_truthy (some id)) (delete_message m >> pure tt) (pure tt)
            (Preserves-bind (delete_message m) (λ _. pure tt) (promises.delete_keeps m)
              (λ _. Preserves-pure tt))
            (Preserves-pure tt)).keeps
          t saved

    save_unprocessed_message_lem :
        (m : Message) (t : S)
        → Queued m t
        → Queued m (save_unprocessed_message outside delete_message m t).1
          ⊎ Saved m (save_unprocessed_message outside delete_message m t).1
    unfolding save_unprocessed_message ◌>>=◌
    save_unprocessed_message_lem m t q = elim (Result-cases (outside.insert_unprocessed m t).0) [
      | inr (e, failed) ↦ rw failed (inl ((promises.insert_keeps m).keeps t q))
      | inl (id, inserted) ↦
          let saved = promises.insert_saves m t id inserted in
          rw inserted (inr (delete_stored_lem m id _ saved))
    ]

    -- A processing error does not lose its queued message either, under the same promises: the
    -- consumer never throws on it, and the message is in the queue still or is saved as
    -- unprocessed.
    pub handle_processing_error-keeps :
        (error : Thrown) (m : Message) (c : Consumer S)
        → Queued m c.outside
        → ((handle_processing_error outside delete_message error m c).0 ≡ ok tt)
          × (Queued m (handle_processing_error outside delete_message error m c).1.outside
              ⊎ Saved m (handle_processing_error outside delete_message error m c).1.outside)
    unfolding handle_processing_error try_catch
    handle_processing_error-keeps error m c q =
        let kept = save_unprocessed_message_lem m c.outside q in
        elim (Result-cases (save_unprocessed_message outside delete_message m c.outside).0) [
          | inl (u, returned) ↦ rw returned (refl, kept)
          | inr (e, thrown) ↦ rw thrown (refl, kept)
        ]
