-- ===== src/Value/Masking/Laws.antt =====
-- What masking guarantees: src/modules/common/utils/masks.util.ts and
-- objectRecursiveFunctions.util.ts.
use node_back_end_boilerplat.Prelude.{
  String, true, false, ◌≡◌, refl, ap, inl, inr, ◌==◌, ◌&&◌, if◌then◌else◌, List, [], ◌∷◌, arith,
  eq_iff, includes, Bool-cases, or_false, and_true, sym, ap₂, ◌∙◌,
}
use node_back_end_boilerplat.Value.{
  Value, undefined, null, str, arr, obj, Items, nil, cons, Fields, end, field, is_object,
  is_defined,
}
use node_back_end_boilerplat.Value.Masking.{
  has_fields_at_current_object_level, check_fields_existence, check_items, check_values,
  replace_key, apply_field_replacement, replace_value, replace_items, replace_values,
  replace_fields, sensitive_data_fields, string_to_replace, mask_object_sensitive_data,
}

-- What becomes of the value at one key.
abbrev pub replaced_at : String → Value → List String → Value → Value
replaced_at k v fields r = if includes fields k && is_defined v then r else v

apply_field_replacement-field :
    (k t : String) (v : Value) (o : Fields) (fields : List String)
    → apply_field_replacement (field k v o) fields (str t)
      ≡ field k (replaced_at k v fields (str t)) (apply_field_replacement o fields (str t))
unfolding apply_field_replacement
apply_field_replacement-field k t v o [] = refl
apply_field_replacement-field k t v o (key ∷ fields) = ground (
  arith,
  eq_iff k key,
  eq_iff key k,
  apply_field_replacement-field k t (if k == key && is_defined v then str t else v)
      (replace_key key (str t) o) fields,
)

apply_field_replacement-end :
    (t : String) (fields : List String) → apply_field_replacement end fields (str t) ≡ end
unfolding apply_field_replacement
apply_field_replacement-end t [] = refl
apply_field_replacement-end t (key ∷ fields) = apply_field_replacement-end t fields

-- The fields of a masked object.
abbrev pub masked : Fields → List String → String → Fields
masked o fields t = apply_field_replacement (replace_values o fields (str t)) fields (str t)

pub masked-field :
    (k t : String) (v : Value) (o : Fields) (fields : List String)
    → masked (field k v o) fields t
      ≡ field k (replaced_at k (replace_value v fields (str t)) fields (str t)) (masked o fields t)
unfolding replace_value
masked-field k t v o fields =
    apply_field_replacement-field k t (replace_value v fields (str t))
      (replace_values o fields (str t)) fields

pub masked-end : (t : String) (fields : List String) → masked end fields t ≡ end
unfolding replace_value
masked-end t fields = apply_field_replacement-end t fields

mutual
  unfolding check_fields_existence replace_value

  pub replace_value_unchanged :
      (v : Value) (fields : List String) (t : String)
      → check_fields_existence v fields ≡ false
      → replace_value v fields (str t) ≡ v
  replace_value_unchanged (arr xs) fields t h = ap arr (replace_items_unchanged xs fields t h)
  replace_value_unchanged (obj o) fields t h =
      ap obj (masked_unchanged o fields t (ground arith) (ground arith))
  replace_value_unchanged v fields t h = refl

  replace_items_unchanged :
      (xs : Items) (fields : List String) (t : String)
      → check_items xs fields ≡ false
      → replace_items xs fields (str t) ≡ xs
  replace_items_unchanged nil fields t h = refl
  replace_items_unchanged (cons v xs) fields t h =
      let (here, later) = or_false (check_fields_existence v fields) (check_items xs fields) h in
      ap₂ cons (replace_value_unchanged v fields t here) (replace_items_unchanged xs fields t later)

  masked_unchanged :
      (o : Fields) (fields : List String) (t : String)
      → has_fields_at_current_object_level o fields ≡ false
      → check_values o fields ≡ false
      → masked o fields t ≡ o
  masked_unchanged end fields t own h = apply_field_replacement-end t fields
  masked_unchanged (field k v o) fields t own h =
      let (own_here, own_later) =
        or_false (includes fields k) (has_fields_at_current_object_level o fields) own in
      let (here, later) = or_false (check_fields_existence v fields) (check_values o fields) h in
      masked-field k t v o fields
      ∙ ap₂ (field k) (rw own_here (replace_value_unchanged v fields t here))
          (masked_unchanged o fields t own_later later)

replace_fields-eq-replace_value :
    (v : Value)
    → is_object v ≡ true
    → replace_fields v sensitive_data_fields string_to_replace
      ≡ replace_value v sensitive_data_fields string_to_replace
unfolding replace_fields
replace_fields-eq-replace_value undefined h = cc
replace_fields-eq-replace_value null h = cc
replace_fields-eq-replace_value _ h = refl

-- The check before masking only saves work: on every object, masking is the replacement of the
-- five sensitive names throughout, whether or not one was found.
pub mask_object_sensitive_data-eq-replace_value :
    (v : Value)
    → is_object v ≡ true
    → mask_object_sensitive_data v ≡ replace_value v sensitive_data_fields string_to_replace
unfolding mask_object_sensitive_data
mask_object_sensitive_data-eq-replace_value v h =
    elim (Bool-cases (check_fields_existence v sensitive_data_fields)) [
      | inl found ↦ rw (h, found) (replace_fields-eq-replace_value v h)
      | inr clean ↦
          rw (h, clean) (sym (replace_value_unchanged v sensitive_data_fields "***" clean))
    ]

replaced_at_idempotent :
    (k t : String) (v : Value) (fields : List String)
    → replace_value (replace_value v fields (str t)) fields (str t) ≡ replace_value v fields (str t)
    → replaced_at k
        (replace_value
          (replaced_at k (replace_value v fields (str t)) fields (str t))
          fields
          (str t))
        fields
        (str t)
      ≡ replaced_at k (replace_value v fields (str t)) fields (str t)
unfolding replace_value
replaced_at_idempotent k t v fields h =
    elim (Bool-cases (includes fields k && is_defined (replace_value v fields (str t)))) [
      | inl hit ↦
          rw
            (
              hit,
              (and_true (includes fields k) (is_defined (replace_value v fields (str t))) hit).0,
            )
            refl
      | inr kept ↦ rw (kept, h, kept) refl
    ]

mutual
  unfolding replace_value

  replace_value_idempotent :
      (v : Value) (fields : List String) (t : String)
      → replace_value (replace_value v fields (str t)) fields (str t)
        ≡ replace_value v fields (str t)
  replace_value_idempotent (arr xs) fields t = ap arr (replace_items_idempotent xs fields t)
  replace_value_idempotent (obj o) fields t = ap obj (masked_idempotent o fields t)
  replace_value_idempotent v fields t = refl

  replace_items_idempotent :
      (xs : Items) (fields : List String) (t : String)
      → replace_items (replace_items xs fields (str t)) fields (str t)
        ≡ replace_items xs fields (str t)
  replace_items_idempotent nil fields t = refl
  replace_items_idempotent (cons v xs) fields t =
      ap₂ cons (replace_value_idempotent v fields t) (replace_items_idempotent xs fields t)

  masked_idempotent :
      (o : Fields) (fields : List String) (t : String)
      → masked (masked o fields t) fields t ≡ masked o fields t
  masked_idempotent end fields t = rw masked-end (masked-end t fields)
  masked_idempotent (field k v o) fields t = rw (masked-field k t v o fields) (
      masked-field k t (replaced_at k (replace_value v fields (str t)) fields (str t))
        (masked o fields t) fields
      ∙ ap₂ (field k) (replaced_at_idempotent k t v fields (replace_value_idempotent v fields t))
          (masked_idempotent o fields t))

is_object-replace_value :
    (v : Value) (fields : List String) (t : String)
    → is_object v ≡ true
    → is_object (replace_value v fields (str t)) ≡ true
unfolding replace_value
is_object-replace_value (arr xs) fields t h = refl
is_object-replace_value (obj o) fields t h = refl
is_object-replace_value v fields t h = h

-- Masking an object twice is masking it once.
pub mask_object_sensitive_data_idempotent :
    (v : Value)
    → is_object v ≡ true
    → mask_object_sensitive_data (mask_object_sensitive_data v) ≡ mask_object_sensitive_data v
mask_object_sensitive_data_idempotent v h = rw (mask_object_sensitive_data-eq-replace_value v h) (
    mask_object_sensitive_data-eq-replace_value
      (replace_value v sensitive_data_fields string_to_replace)
      (is_object-replace_value v sensitive_data_fields "***" h)
    ∙ replace_value_idempotent v sensitive_data_fields "***")
