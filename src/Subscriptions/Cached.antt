-- ===== src/Subscriptions/Cached.antt =====
-- What the cache of src/modules/app/subscription/services/Subscription.service.ts keeps of a
-- subscription.
use node_back_end_boilerplat.Domain.Subscription.{
  Subscription, new_subscription, get_attributes, or_undefined,
}
use node_back_end_boilerplat.Prelude.{ℕ, String, true, false, ◌≡◌, refl, Bool, ◌⊎◌, inl, inr}
use node_back_end_boilerplat.Domain.Dates.{Clock}
use node_back_end_boilerplat.Storage.Json.Written.{json_value, json_fields, json_value_idempotent}
use node_back_end_boilerplat.Value.{
  Value, undefined, null, str, is_defined, is_null_or_undefined, Fields, field, end,
}

-- A text, or what stands for one that is missing.
pub data IsTextOr (missing : Value) : Value → Type 0 where
  or_missing : IsTextOr missing missing
  or_text : (s : String) → IsTextOr missing (str s)

pub data IsText : Value → Type 0 where
  text : (s : String) → IsText (str s)

-- The identifiers of a subscription are texts; those of its document and its client may be missing.
pub record IsTextual (s : Subscription) : Type 0 where
  pub database_id_textual : IsTextOr undefined s.database_id
  pub subscription_id_text : IsText s.subscription_id
  pub client_id_textual : IsTextOr null s.client_id

module _ (iso : ℕ → String) where
  -- A subscription with the date of its last update as a text.
  unfoldable pub seen : Subscription → Subscription
  unfolding json_value
  seen s = record s { updated_at = json_value iso s.updated_at }

  -- The field of the last update, as it is written.
  updated_field : Value → Fields
  unfolding json_value
  updated_field v = json_fields iso (field "updatedAt" (or_undefined v) end)

  updated-cases :
      (v : Value)
      → is_defined v ≡ true
      → (v ≡ null)
        ⊎ ((updated_field v ≡ field "updatedAt" (json_value iso v) end)
            × (is_null_or_undefined (json_value iso v) ≡ false))
  unfolding json_value json_fields updated_field
  updated-cases undefined h = cc
  updated-cases null h = inl refl
  updated-cases v h = inr (refl, refl)

  module _ (clock : Clock) (string_of : Value → String)
      (iso_read : (t : ℕ) → clock.from_iso (iso t) ≡ t) where
    abbrev build : Value → Value → Value → Value → ℕ → Bool → Subscription
    build a b c d t n = record {
      database_id = a;
      subscription_id = b;
      client_id = c;
      created_at = t;
      updated_at = d;
      new_connections_listen = n;
    }

    abbrev Rebuilt : Subscription → Type 0
    Rebuilt s = new_subscription clock string_of (json_fields iso (get_attributes s)) ≡ seen s

    rebuilt :
        {a b c : Value} (d : Value) (t : ℕ) (n : Bool)
        → IsTextOr undefined a
        → IsText b
        → IsTextOr null c
        → is_defined d ≡ true
        → Rebuilt (build a b c d t n)
    unfolding new_subscription get_attributes json_fields json_value updated_field seen
    rebuilt d t n or_missing (text s) or_missing h = elim (updated-cases d h) [
      | inl p ↦ rw (p, iso_read)
      | inr (p, q) ↦ rw (p, q, iso_read)
    ]
    rebuilt d t n or_missing (text s) (or_text c) h = elim (updated-cases d h) [
      | inl p ↦ rw (p, iso_read)
      | inr (p, q) ↦ rw (p, q, iso_read)
    ]
    rebuilt d t n (or_text a) (text s) or_missing h = elim (updated-cases d h) [
      | inl p ↦ rw (p, iso_read)
      | inr (p, q) ↦ rw (p, q, iso_read)
    ]
    rebuilt d t n (or_text a) (text s) (or_text c) h = elim (updated-cases d h) [
      | inl p ↦ rw (p, iso_read)
      | inr (p, q) ↦ rw (p, q, iso_read)
    ]

    -- A subscription that is cached and built again from the entry is the one that was cached, with
    -- the date of its last update as a text, if its identifiers are texts or missing, its last update
    -- is not undefined, and reading a date's ISO text gives the date back.
    pub new_subscription-json_fields :
        (s : Subscription)
        → IsTextual s
        → is_defined s.updated_at ≡ true
        → new_subscription clock string_of (json_fields iso (get_attributes s)) ≡ seen s
    unfolding seen
    new_subscription-json_fields s h d =
        rebuilt s.updated_at s.created_at s.new_connections_listen h.database_id_textual
          h.subscription_id_text h.client_id_textual d

  pub seen_idempotent : (x : Subscription) → seen (seen x) ≡ seen x
  unfolding seen
  seen_idempotent x = rw (json_value_idempotent iso x.updated_at)

  pub seen-IsTextual : (x : Subscription) → IsTextual x → IsTextual (seen x)
  unfolding seen
  seen-IsTextual x h = record {
    database_id_textual = h.database_id_textual;
    subscription_id_text = h.subscription_id_text;
    client_id_textual = h.client_id_textual;
  }

  written_defined : (v : Value) → is_defined v ≡ true → is_defined (json_value iso v) ≡ true
  unfolding json_value
  written_defined undefined h = h
  written_defined v h = refl

  pub seen_defined :
      (x : Subscription) → is_defined x.updated_at ≡ true → is_defined (seen x).updated_at ≡ true
  unfolding seen
  seen_defined x h = written_defined x.updated_at h
