-- ===== src/Queue/Consumer.antt =====
-- src/modules/events/queue/consumers: the consumer's state and its handlers of a batch, of a
-- processing error, of an error and of a timeout. Reports to the error tracker and log lines are
-- not modelled.
use node_back_end_boilerplat.Queue.Handler.{Message, Outside, execute}
use node_back_end_boilerplat.Prelude.{
  ℕ, Bool, true, false, is_truthy, or_else, if◌then◌else◌, ltb, ◌+◌, List, [], ◌∷◌, join_text,
}
use node_back_end_boilerplat.Value.{Value, str}
use node_back_end_boilerplat.Effects.{ok, err, Exec, pure, try_catch, ◌>>=◌, ◌>>◌}
use node_back_end_boilerplat.Exceptions.{Thrown, http, exception, internal, detailed_error}

-- `errorsCount`, `disabled` and the outside world.
pub record Consumer (S : Type 0) : Type 0 where
  pub errors_count : ℕ
  pub disabled : Bool
  pub outside : S

-- `this.sqsClient.deleteMessage(this.queueUrl, message)`
abbrev pub DeleteMessage : Type 0 → Type 0
DeleteMessage S = Message → Exec S Bool

-- An action on the outside world, which leaves the consumer's own state.
abbrev pub on_outside : {S A : Type 0} → Exec S A → Exec (Consumer S) A
on_outside m c = let (r, s) = m c.outside in (r, record c { outside = s })

module _ {S : Type 0} where
  -- `disable` and `enable`
  unfoldable pub disable : Exec (Consumer S) (Unit {0})
  disable c = (ok tt, record c { disabled = true })

  unfoldable pub enable : Exec (Consumer S) (Unit {0})
  enable c = (ok tt, record c { disabled = false })

  -- `resetErrorsCount`
  unfoldable pub reset_errors_count : Exec (Consumer S) (Unit {0})
  reset_errors_count c = (ok tt, record c { errors_count = 0 })

  -- `increaseError`
  unfoldable pub increase_error : Thrown → Exec (Consumer S) (Unit {0})
  increase_error error c =
      let counted = record c { errors_count = c.errors_count + 1 } in
      if ltb (c.errors_count + 1) 10 then (ok tt, counted) else (err error, counted)

  -- `handleError` and `handleTimeoutError`
  unfoldable pub handle_error : Thrown → Exec (Consumer S) (Unit {0})
  unfolding increase_error
  handle_error error = increase_error error

  unfoldable pub handle_timeout_error : Thrown → Exec (Consumer S) (Unit {0})
  unfolding increase_error
  handle_timeout_error error = increase_error error

  abbrev pub require_enabled : Message → Exec (Consumer S) (Unit {0})
  require_enabled message c =
      if c.disabled
      then (
        err (
            http (
              exception internal
                (detailed_error "Consumer EventsQueueConsumer is disabled"
                  (str (join_text "MessageId: " (or_else message.message_id "undefined"))))
                false)),
        c,
      )
      else (ok tt, c)

  module _ (outside : Outside S) (delete_message : DeleteMessage S) where
    -- `if (done) await this.deleteMessage(message)`
    abbrev pub delete_done : Message → Bool → Exec (Consumer S) (Unit {0})
    delete_done message done =
        if done then on_outside (delete_message message) >> pure tt else pure tt

    -- `handleMessage`
    unfoldable pub handle_message : Value → Message → Exec (Consumer S) (Unit {0})
    unfolding execute reset_errors_count
    handle_message env_secret_hash message = do
      require_enabled message
      done ← on_outside (execute outside env_secret_hash message)
      delete_done message done
      reset_errors_count

    -- `handleMessageBatch`
    unfoldable pub handle_message_batch : Value → List Message → Exec (Consumer S) (Unit {0})
    unfolding handle_message
    handle_message_batch env_secret_hash [] = pure tt
    handle_message_batch env_secret_hash (message ∷ messages) =
        handle_message env_secret_hash message >> handle_message_batch env_secret_hash messages

    -- `saveUnprocessedMessage`
    unfoldable pub save_unprocessed_message : Message → Exec S (Unit {0})
    save_unprocessed_message message = do
      was_stored ← outside.insert_unprocessed message
      if is_truthy was_stored then delete_message message >> pure tt else pure tt

    -- `handleProcessingError`
    unfoldable pub handle_processing_error : Thrown → Message → Exec (Consumer S) (Unit {0})
    unfolding save_unprocessed_message
    handle_processing_error error message =
        on_outside (try_catch (save_unprocessed_message message) (λ _. pure tt))
