-- ===== src/Value/Masking/Hidden.antt =====
-- What masking hides: src/modules/common/utils/masks.util.ts.
use node_back_end_boilerplat.Prelude.{
  String, true, ◌≡◌, ◌⊎◌, inl, inr, ◌&&◌, List, arith, includes, Bool-cases,
}
use node_back_end_boilerplat.Value.{
  Value, undefined, str, arr, obj, Items, nil, cons, Fields, end, field, is_object, is_defined,
}
use node_back_end_boilerplat.Value.Masking.{
  replace_value, replace_items, sensitive_data_fields, mask_object_sensitive_data,
}
use node_back_end_boilerplat.Value.Masking.Laws.{
  replaced_at, masked, masked-field, masked-end, mask_object_sensitive_data-eq-replace_value,
}

-- No value stands at one of the names, at any depth, but `undefined` and the replacement.
unfoldable mutual
  pub IsMasked : Value → List String → String → Type 0
  IsMasked (arr xs) fields t = AreMasked xs fields t
  IsMasked (obj o) fields t = HidesFields o fields t
  IsMasked v fields t = Unit

  pub AreMasked : Items → List String → String → Type 0
  AreMasked nil fields t = Unit
  AreMasked (cons v xs) fields t = IsMasked v fields t × AreMasked xs fields t

  pub HidesFields : Fields → List String → String → Type 0
  HidesFields end fields t = Unit
  HidesFields (field k v o) fields t =
      (includes fields k ≡ true → (v ≡ undefined) ⊎ (v ≡ str t))
      × IsMasked v fields t
      × HidesFields o fields t

replaced_at_hidden :
    (k t : String) (v : Value) (fields : List String)
    → includes fields k ≡ true
    → (replaced_at k v fields (str t) ≡ undefined) ⊎ (replaced_at k v fields (str t) ≡ str t)
replaced_at_hidden k t v fields h = ground arith

replaced_at-IsMasked :
    (k t : String) (v : Value) (fields : List String)
    → IsMasked v fields t
    → IsMasked (replaced_at k v fields (str t)) fields t
unfolding IsMasked
replaced_at-IsMasked k t v fields h = elim (Bool-cases (includes fields k && is_defined v)) [
  | inl hit ↦ rw hit tt
  | inr kept ↦ rw kept h
]

mutual
  unfolding replace_value IsMasked

  pub replace_value-IsMasked :
      (v : Value) (fields : List String) (t : String)
      → IsMasked (replace_value v fields (str t)) fields t
  replace_value-IsMasked (arr xs) fields t = replace_items-AreMasked xs fields t
  replace_value-IsMasked (obj o) fields t = masked-HidesFields o fields t
  replace_value-IsMasked v fields t = tt

  replace_items-AreMasked :
      (xs : Items) (fields : List String) (t : String)
      → AreMasked (replace_items xs fields (str t)) fields t
  replace_items-AreMasked nil fields t = tt
  replace_items-AreMasked (cons v xs) fields t =
      (replace_value-IsMasked v fields t, replace_items-AreMasked xs fields t)

  masked-HidesFields :
      (o : Fields) (fields : List String) (t : String) → HidesFields (masked o fields t) fields t
  masked-HidesFields end fields t = rw masked-end tt
  masked-HidesFields (field k v o) fields t = rw (masked-field k t v o fields) (
    replaced_at_hidden k t (replace_value v fields (str t)) fields,
    replaced_at-IsMasked k t (replace_value v fields (str t)) fields
        (replace_value-IsMasked v fields t),
    masked-HidesFields o fields t,
  )

-- Nothing sensitive is logged: in a masked object each of the five sensitive names, at any depth
-- and in arrays too, holds `undefined` or the replacement text.
pub mask_object_sensitive_data-IsMasked :
    (v : Value)
    → is_object v ≡ true
    → IsMasked (mask_object_sensitive_data v) sensitive_data_fields "***"
mask_object_sensitive_data-IsMasked v h =
    rw (mask_object_sensitive_data-eq-replace_value v h)
      (replace_value-IsMasked v sensitive_data_fields "***")
