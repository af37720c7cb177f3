-- ===== src/Queue/Producer/Reports.antt =====
-- What src/modules/events/queue/producers answers and reports.
use node_back_end_boilerplat.Queue.Producer.{
  Producer, EventDispatch, dispatch, mask_sensitive_data, report_data, message_data, report_failure,
  build_message_data, build_deduplication_id, send_params, dispatched_sensitive_fields, fields_of,
}
use node_back_end_boilerplat.Prelude.{
  String, ◌≡◌, ◌⊎◌, inl, inr, refl, Bool-cases, true, false, sym, join_text, subst, includes, ◌∙◌,
}
use node_back_end_boilerplat.Value.{
  Value, Fields, null, truthy, obj, str, fields_of, undefined, num, field,
}
use node_back_end_boilerplat.Value.Masking.{replace_value, check_fields_existence, replace_fields}
use node_back_end_boilerplat.Value.Masking.Laws.{replace_value_unchanged}
use node_back_end_boilerplat.Value.Masking.Hidden.{IsMasked, HidesFields, replace_value-IsMasked}
use node_back_end_boilerplat.Effects.{Result, ok, err, try_catch, ◌>>=◌, recover}
use node_back_end_boilerplat.Aws.Sqs.{send_message}
use node_back_end_boilerplat.Aws.Errors.{send_message-eq-ok}

mask_sensitive_data_lem :
    (o : Fields)
    → mask_sensitive_data (obj o) ≡ replace_value (obj o) dispatched_sensitive_fields (str "***")
unfolding mask_sensitive_data replace_fields
mask_sensitive_data_lem o =
    elim (Bool-cases (check_fields_existence (obj o) dispatched_sensitive_fields)) [
      | inl found ↦ rw found
      | inr clean ↦
          rw clean (sym (replace_value_unchanged (obj o) dispatched_sensitive_fields "***" clean))
    ]

masked_fields :
    (payload : Fields)
    → HidesFields (fields_of (mask_sensitive_data (obj payload))) dispatched_sensitive_fields "***"
unfolding replace_value IsMasked
masked_fields payload =
    subst (λ v. HidesFields (fields_of v) dispatched_sensitive_fields "***")
      (sym (mask_sensitive_data_lem payload))
      (replace_value-IsMasked (obj payload) dispatched_sensitive_fields "***")

not_listed : (v : Value) → false ≡ true → (v ≡ undefined) ⊎ (v ≡ str "***")
not_listed v h = cc

hides :
    (k : String) (v : Value) (o : Fields)
    → includes dispatched_sensitive_fields k ≡ false
    → IsMasked v dispatched_sensitive_fields "***"
    → HidesFields o dispatched_sensitive_fields "***"
    → HidesFields (field k v o) dispatched_sensitive_fields "***"
unfolding IsMasked
hides k v o p h rest = (λ q. not_listed v (sym p ∙ q), h, rest)

-- A report of a message that was not sent hides, at any depth of its payload, what stands at the names
-- password, newPassword, cvv and pin.
pub report_data-HidesFields :
    (payload : Fields) (id schema source timestamp : String)
    → HidesFields
        (report_data payload (message_data id schema source timestamp))
        dispatched_sensitive_fields
        "***"
unfolding report_data message_data IsMasked
report_data-HidesFields payload id schema source timestamp =
    let masked = fields_of (mask_sensitive_data (obj payload)) in
    let timed = field "timestamp" (str timestamp) masked in
    let sourced = field "source" (str source) timed in
    let versioned = field "schemaVersion" (num 1) sourced in
    let named = field "schema" (str schema) versioned in
    hides "id" (str id) named refl tt (
      hides "schema" (str schema) versioned refl tt (
        hides "schemaVersion" (num 1) sourced refl tt (
          hides "source" (str source) timed refl tt
            (hides "timestamp" (str timestamp) masked refl tt (masked_fields payload)))))

module _ {S : Type 0} (producer : Producer S) (event : EventDispatch) where
  recovered :
      (r : Result Value) (s : S) (data_ : Fields)
      → ((v : Value) → r ≡ ok v → truthy v ≡ true)
      → (v : Value) × ((recover r (report_failure producer event data_) s).0 ≡ ok v)
        × ((v ≡ null) ⊎ (truthy v ≡ true))
  unfolding report_failure
  recovered (ok v) s data_ h = (v, refl, inr (h v refl))
  recovered (err e) s data_ h = (null, refl, inl refl)

  -- A dispatch never throws: whatever SQS answers or throws, it returns, with a message's identifier
  -- that is not empty, or with null.
  pub dispatch_total :
      (s : S)
      → (v : Value) × ((dispatch producer event s).0 ≡ ok v) × ((v ≡ null) ⊎ (truthy v ≡ true))
  unfolding dispatch ◌>>=◌ try_catch build_message_data
  dispatch_total s =
      let t = (producer.generate_uuid s).1 in
      let data_ =
        message_data (producer.generate_uuid s).0 event.schema
          (join_text producer.producer_name (join_text ", " producer.application_name))
          (producer.iso_now t) in
      let params =
        send_params producer event data_ (build_deduplication_id producer event.payload t) in
      recovered (send_message producer.send producer.json params t).0
        (send_message producer.send producer.json params t).1 data_
        (λ v h. send_message-eq-ok producer.send producer.json params t v h)
