-- ===== src/Value/Masking/Alike.antt =====
-- Values that differ only where masking hides: src/modules/common/utils/masks.util.ts.
use node_back_end_boilerplat.Prelude.{String, true, List, includes, ◌≡◌, refl, ap, ap₂, ◌∙◌, sym}
use node_back_end_boilerplat.Value.{
  Value, Fields, Items, obj, arr, str, field, cons, end, nil, is_defined, is_object,
}
use node_back_end_boilerplat.Value.Masking.{
  replace_value, replace_items, mask_object_sensitive_data, sensitive_data_fields,
}
use node_back_end_boilerplat.Value.Masking.Laws.{
  replaced_at, masked, masked-field, mask_object_sensitive_data-eq-replace_value,
}

-- The two are built the same, but for values at the names, which are defined in both.
mutual
  pub data Alike (names : List String) : Value → Value → Type 0 where
    same : (v : Value) → Alike names v v
    objects : {o p : Fields} → AlikeFields names o p → Alike names (obj o) (obj p)
    arrays : {xs ys : Items} → AlikeItems names xs ys → Alike names (arr xs) (arr ys)

  pub data AlikeFields (names : List String) : Fields → Fields → Type 0 where
    ends : AlikeFields names end end
    kept :
        {o p : Fields} {v w : Value} (k : String)
        → Alike names v w
        → AlikeFields names o p
        → AlikeFields names (field k v o) (field k w p)
    hidden :
        {o p : Fields} (k : String) (v w : Value)
        → includes names k ≡ true
        → is_defined v ≡ true
        → is_defined w ≡ true
        → AlikeFields names o p
        → AlikeFields names (field k v o) (field k w p)

  pub data AlikeItems (names : List String) : Items → Items → Type 0 where
    nils : AlikeItems names nil nil
    conses :
        {xs ys : Items} {v w : Value}
        → Alike names v w
        → AlikeItems names xs ys
        → AlikeItems names (cons v xs) (cons w ys)

is_defined-replace_value :
    (v : Value) (names : List String) (t : String)
    → is_defined (replace_value v names (str t)) ≡ is_defined v
unfolding replace_value
is_defined-replace_value (obj o) names t = refl
is_defined-replace_value (arr xs) names t = refl
is_defined-replace_value v names t = refl

-- What stands at a name is replaced.
replaced_at_name :
    (k : String) (v : Value) (names : List String) (t : String)
    → includes names k ≡ true
    → is_defined v ≡ true
    → replaced_at k (replace_value v names (str t)) names (str t) ≡ str t
replaced_at_name k v names t h d = rw (h, is_defined-replace_value v names t, d)

mutual
  unfolding replace_value

  pub replace_value-Alike :
      {v w : Value} (names : List String) (t : String)
      → Alike names v w
      → replace_value v names (str t) ≡ replace_value w names (str t)
  replace_value-Alike names t (same v) = refl
  replace_value-Alike names t (objects h) = ap obj (masked-AlikeFields names t h)
  replace_value-Alike names t (arrays h) = ap arr (replace_items-AlikeItems names t h)

  masked-AlikeFields :
      {o p : Fields} (names : List String) (t : String)
      → AlikeFields names o p
      → masked o names t ≡ masked p names t
  masked-AlikeFields names t ends = refl
  masked-AlikeFields names t (kept {o} {p} {v} {w} k h hs) =
      masked-field k t v o names
      ∙ ap₂ (λ u q. field k (replaced_at k u names (str t)) q) (replace_value-Alike names t h)
          (masked-AlikeFields names t hs)
      ∙ sym (masked-field k t w p names)
  masked-AlikeFields names t (hidden {o} {p} k v w at_name dv dw hs) =
      masked-field k t v o names
      ∙ ap₂ (field k)
          (replaced_at_name k v names t at_name dv ∙ sym (replaced_at_name k w names t at_name dw))
          (masked-AlikeFields names t hs)
      ∙ sym (masked-field k t w p names)

  replace_items-AlikeItems :
      {xs ys : Items} (names : List String) (t : String)
      → AlikeItems names xs ys
      → replace_items xs names (str t) ≡ replace_items ys names (str t)
  replace_items-AlikeItems names t nils = refl
  replace_items-AlikeItems names t (conses h hs) =
      ap₂ cons (replace_value-Alike names t h) (replace_items-AlikeItems names t hs)

-- Masking makes alike objects the same.
pub mask_object_sensitive_data-Alike :
    {v w : Value}
    → is_object v ≡ true
    → is_object w ≡ true
    → Alike sensitive_data_fields v w
    → mask_object_sensitive_data v ≡ mask_object_sensitive_data w
mask_object_sensitive_data-Alike {v} {w} hv hw h =
    mask_object_sensitive_data-eq-replace_value v hv
    ∙ replace_value-Alike sensitive_data_fields "***" h
    ∙ sym (mask_object_sensitive_data-eq-replace_value w hw)
