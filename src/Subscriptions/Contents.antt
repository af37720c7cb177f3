-- ===== src/Subscriptions/Contents.antt =====
-- What a document holds of the subscription that `save` of
-- src/modules/app/subscription/services/Subscription.service.ts writes, and what is read of it again.
use node_back_end_boilerplat.Subscriptions.{Backing, entity}
use node_back_end_boilerplat.Subscriptions.Coherence.{Behaves}
use node_back_end_boilerplat.Subscriptions.Saving.{document_of}
use node_back_end_boilerplat.Domain.Subscription.{
  Subscription, get_attributes, new_subscription, merged, or_undefined, assigned,
}
use node_back_end_boilerplat.Value.{
  Value, undefined, null, obj, arr, str, date, bool, num, Fields, end, field, Items, nil, cons, get,
  is_defined,
}
use node_back_end_boilerplat.Prelude.{String, true, false, ◌≡◌, refl, Option, some, none, ◌==◌, ap}

unfoldable mutual
  -- A value as Mongo stores it: `undefined` becomes `null`.
  pub as_stored : Value → Value
  as_stored undefined = null
  as_stored null = null
  as_stored (obj o) = obj (fields_stored o)
  as_stored (arr xs) = arr (items_stored xs)
  as_stored (str s) = str s
  as_stored (date t) = date t
  as_stored (bool b) = bool b
  as_stored (num n) = num n

  pub fields_stored : Fields → Fields
  fields_stored end = end
  fields_stored (field k v o) = field k (as_stored v) (fields_stored o)

  pub items_stored : Items → Items
  items_stored nil = nil
  items_stored (cons v xs) = cons (as_stored v) (items_stored xs)

module _ {S : Type 0} (backing : Backing S) (rules : Behaves backing) where
  -- `insertOne` and `$set` of a subscription's attributes: each that is there stands in the document as it
  -- is stored, but for the document's own identifier.
  pub record KeepsFields : Type 0 where
    pub revised_field :
        (key : String) (o : Fields) (x : Subscription)
        → ("_id" == key) ≡ false
        → is_defined (get key (get_attributes x)) ≡ true
        → get key (rules.revised o (get_attributes x)) ≡ as_stored (get key (get_attributes x))
    pub fresh_field :
        (key : String) (s : S) (x : Subscription)
        → ("_id" == key) ≡ false
        → is_defined (get key (get_attributes x)) ≡ true
        → get key (rules.fresh (get_attributes x) s) ≡ as_stored (get key (get_attributes x))

  stored_field :
      (keeps : KeepsFields) (key : String) (x : Subscription) (found : Option Fields) (s : S)
      → ("_id" == key) ≡ false
      → is_defined (get key (get_attributes x)) ≡ true
      → get key (document_of backing rules (get_attributes x) found s)
        ≡ as_stored (get key (get_attributes x))
  stored_field keeps key x none s p q = keeps.fresh_field key s x p q
  stored_field keeps key x (some o) s p q = keeps.revised_field key o x p q

  client_stored : (v : Value) → assigned (as_stored (or_undefined v)) null ≡ as_stored v
  unfolding as_stored
  client_stored undefined = refl
  client_stored null = refl
  client_stored (obj o) = refl
  client_stored (arr xs) = refl
  client_stored (str s) = refl
  client_stored (date t) = refl
  client_stored (bool b) = refl
  client_stored (num n) = refl

  -- Of a subscription that is read, what was saved of another one.
  pub record Holds (x saved : Subscription) (id : String) : Type 0 where
    pub same_subscription : x.subscription_id ≡ str id
    pub same_client : x.client_id ≡ as_stored saved.client_id
    pub same_listening : x.new_connections_listen ≡ saved.new_connections_listen

  pub written-Holds :
      (keeps : KeepsFields) (x : Subscription) (id : String) (found : Option Fields) (s : S)
      → x.subscription_id ≡ str id
      → Holds (entity backing (document_of backing rules (get_attributes x) found s)) x id
  unfolding entity new_subscription merged get_attributes as_stored
  written-Holds keeps x id found s named =
      let listen = stored_field keeps "listen" x found s refl refl in
      let data_values = stored_field keeps "dataValues" x found s refl refl in
      let subscription = stored_field keeps "subscriptionId" x found s refl (ap is_defined named) in
      record {
        same_subscription = rw (listen, data_values, subscription, named);
        same_client = rw (listen, data_values) (client_stored x.client_id);
        same_listening = rw (listen, data_values);
      }
