-- ===== src/Domain/Subscription/Laws.antt =====
-- Laws of src/modules/domain/entities/Subscription.entity.ts.
use node_back_end_boilerplat.Domain.Subscription.{
  Subscription, new_subscription, get_attributes, assigned, or_undefined, merged,
}
use node_back_end_boilerplat.Prelude.{String, true, false, ◌≡◌, refl, if◌then◌else◌, Bool}
use node_back_end_boilerplat.Domain.Dates.{Clock}
use node_back_end_boilerplat.Value.{
  Value, undefined, null, str, is_null, is_defined, is_null_or_undefined, Fields, get, truthy,
}

-- The optional fields are as a constructor leaves them: null or a value, never `undefined`, and the
-- subscription's identifier is there.
pub record IsBuilt (s : Subscription) : Type 0 where
  pub subscription_id_given : is_null_or_undefined s.subscription_id ≡ false
  pub client_id_defined : is_defined s.client_id ≡ true
  pub updated_at_defined : is_defined s.updated_at ≡ true
  pub database_id_not_null : is_null s.database_id ≡ false

kept : (v : Value) → is_null_or_undefined v ≡ false → assigned v (str "") ≡ v
kept v h = rw h

kept_defined : (v : Value) → is_defined v ≡ true → assigned (or_undefined v) null ≡ v
kept_defined undefined h = cc
kept_defined null h = refl
kept_defined v h = refl

kept_id : (v : Value) → is_null v ≡ false → assigned v undefined ≡ v
kept_id undefined h = refl
kept_id null h = cc
kept_id v h = refl

-- A subscription is rebuilt, whole, from its attributes, if it is as a constructor leaves it.
pub new_subscription-get_attributes :
    (clock : Clock) (string_of : Value → String) (s : Subscription)
    → IsBuilt s
    → new_subscription clock string_of (get_attributes s) ≡ s
unfolding new_subscription get_attributes
new_subscription-get_attributes clock string_of s h = λ i. record s {
  database_id = kept_id s.database_id h.database_id_not_null i;
  subscription_id = kept s.subscription_id h.subscription_id_given i;
  client_id = kept_defined s.client_id h.client_id_defined i;
  updated_at = kept_defined s.updated_at h.updated_at_defined i;
}

assigned_given :
    (v d : Value) → is_null_or_undefined d ≡ false → is_null_or_undefined (assigned v d) ≡ false
assigned_given undefined d h = h
assigned_given null d h = h
assigned_given v d h = refl

assigned_defined : (v d : Value) → is_defined d ≡ true → is_defined (assigned v d) ≡ true
assigned_defined undefined d h = h
assigned_defined null d h = h
assigned_defined v d h = refl

assigned_not_null : (v d : Value) → is_null d ≡ false → is_null (assigned v d) ≡ false
assigned_not_null undefined d h = h
assigned_not_null null d h = h
assigned_not_null v d h = refl

register_not_null :
    (given : Bool) (id : String) → is_null (if given then str id else undefined) ≡ false
register_not_null true id = refl
register_not_null false id = refl

-- Whatever register or message the constructor is given, the subscription that it builds has an
-- identifier of its socket, client and update fields that are null or a value, and a database
-- identifier that is not null.
pub new_subscription-IsBuilt :
    (clock : Clock) (string_of : Value → String) (o : Fields)
    → IsBuilt (new_subscription clock string_of o)
unfolding new_subscription
new_subscription-IsBuilt clock string_of o = record {
  subscription_id_given = assigned_given (get "subscriptionId" (merged o)) (str "") refl;
  client_id_defined = assigned_defined (get "clientId" (merged o)) null refl;
  updated_at_defined = assigned_defined (get "updatedAt" (merged o)) null refl;
  database_id_not_null =
      assigned_not_null (get "id" (merged o)) _
        (register_not_null (truthy (get "_id" o)) (string_of (get "_id" o)));
}
