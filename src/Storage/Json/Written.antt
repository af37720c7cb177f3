-- ===== src/Storage/Json/Written.antt =====
-- What is left of a value that JSON.stringify writes and JSON.parse reads: a date is its ISO text, a
-- field that is undefined is gone, and an item that is undefined is null. src/modules/core/infra/cache
-- keeps every entry so.
use node_back_end_boilerplat.Prelude.{ℕ, String, ◌≡◌, refl, ap, ◌∙◌}
use node_back_end_boilerplat.Value.{
  Value, undefined, null, str, date, arr, obj, Fields, end, field, Items, nil, cons,
}

-- An item of a list.
abbrev item : Value → Value
item undefined = null
item v = v

-- A field, unless it is undefined.
abbrev kept_field : String → Value → Fields → Fields
kept_field k undefined o = o
kept_field k v o = field k v o

module _ (iso : ℕ → String) where
  unfoldable mutual
    pub json_value : Value → Value
    json_value (date t) = str (iso t)
    json_value (obj o) = obj (json_fields o)
    json_value (arr xs) = arr (json_items xs)
    json_value v = v

    pub json_fields : Fields → Fields
    json_fields end = end
    json_fields (field k v o) = kept_field k (json_value v) (json_fields o)

    pub json_items : Items → Items
    json_items nil = nil
    json_items (cons v xs) = cons (item (json_value v)) (json_items xs)

  kept_twice :
      (k : String) (w : Value) (o : Fields)
      → json_value w ≡ w
      → json_fields o ≡ o
      → json_fields (kept_field k w o) ≡ kept_field k w o
  unfolding json_fields
  kept_twice k undefined o p q = q
  kept_twice k w o p q = rw (p, q)

  item_twice : (w : Value) → json_value w ≡ w → json_value (item w) ≡ item w
  unfolding json_value
  item_twice undefined p = refl
  item_twice w p = p

  item_stays : (w : Value) → item (item w) ≡ item w
  item_stays undefined = refl
  item_stays w = refl

  settled : (w : Value) → json_value w ≡ w → item (json_value (item w)) ≡ item w
  settled w p = ap item (item_twice w p) ∙ item_stays w

  -- What was written and read once stays as it is.
  mutual
    unfolding json_value

    pub json_value_idempotent : (v : Value) → json_value (json_value v) ≡ json_value v
    json_value_idempotent (obj o) = ap obj (json_fields_idempotent o)
    json_value_idempotent (arr xs) = ap arr (json_items_idempotent xs)
    json_value_idempotent v = refl

    json_fields_idempotent : (o : Fields) → json_fields (json_fields o) ≡ json_fields o
    json_fields_idempotent end = refl
    json_fields_idempotent (field k v o) =
        kept_twice k (json_value v) (json_fields o) (json_value_idempotent v)
          (json_fields_idempotent o)

    json_items_idempotent : (xs : Items) → json_items (json_items xs) ≡ json_items xs
    json_items_idempotent nil = refl
    json_items_idempotent (cons v xs) =
        rw (settled (json_value v) (json_value_idempotent v), json_items_idempotent xs)
