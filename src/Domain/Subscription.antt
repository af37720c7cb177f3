-- ===== src/Domain/Subscription.antt =====
-- src/modules/domain/entities/Subscription.entity.ts. A field that no constructor assigned is
-- `undefined`; the texts of a subscription are values, as the constructor copies what it is given.
pub mod Laws
use node_back_end_boilerplat.Value.{
  Value, undefined, null, bool, str, date, obj, Fields, end, field, get, truthy, or_value, spread,
  fields_of, is_null_or_undefined,
}
use node_back_end_boilerplat.Prelude.{ℕ, String, Bool, true, false, if◌then◌else◌, is_blank, ◌==◌}
use node_back_end_boilerplat.Domain.Dates.{Clock, get_date}

pub record Subscription : Type 0 where
  pub database_id : Value
  pub subscription_id : Value
  pub client_id : Value
  pub created_at : ℕ
  pub updated_at : Value
  pub new_connections_listen : Bool

-- `if (!isNullOrUndefined(value)) this.field = value`, on the field's value before.
abbrev pub assigned : Value → Value → Value
assigned value before = if is_null_or_undefined value then before else value

-- `value?.[key]`
abbrev pub property_of : String → Value → Value
property_of key value = get key (fields_of value)

-- `{ ...dataValues, ...dataValues?.listen, ...dataValues.dataValues }`
unfoldable pub merged : Fields → Fields
merged o = spread (spread o (fields_of (get "listen" o))) (fields_of (get "dataValues" o))

-- `constructor`; `String(_id)` is an argument, for identifiers that are objects of the driver.
unfoldable pub new_subscription : Clock → (Value → String) → Fields → Subscription
unfolding merged get_date
new_subscription clock string_of o =
    let values = merged o in
    let register_id = get "_id" o in
    record {
      database_id =
          assigned (get "id" values)
            (if truthy register_id then str (string_of register_id) else undefined);
      subscription_id = assigned (get "subscriptionId" values) (str "");
      client_id = assigned (get "clientId" values) null;
      created_at = get_date clock (get "createdAt" values);
      updated_at = assigned (get "updatedAt" values) null;
      new_connections_listen = truthy (
          or_value (get "newConnections" values)
            (property_of "newConnections" (get "listen" values)));
    }

-- `value ?? undefined`
abbrev pub or_undefined : Value → Value
or_undefined value = or_value value undefined

-- `getAttributes`
unfoldable pub get_attributes : Subscription → Fields
get_attributes s = field "id" s.database_id (
    field "subscriptionId" s.subscription_id (
      field "dataValues"
        (obj (
          field "clientId" (or_undefined s.client_id) (
            field "createdAt" (date s.created_at)
              (field "updatedAt" (or_undefined s.updated_at) end))))
        (field "listen" (obj (field "newConnections" (bool s.new_connections_listen) end)) end)))

-- `setDatabaseId`, `setSubscriptionId` and `setClientId`
unfoldable pub set_database_id : String → Subscription → Subscription
set_database_id id s = if is_blank id then s else record s { database_id = str id }

unfoldable pub set_subscription_id : String → Subscription → Subscription
set_subscription_id id s = if is_blank id then s else record s { subscription_id = str id }

unfoldable pub set_client_id : String → Subscription → Subscription
set_client_id id s = if is_blank id then s else record s { client_id = str id }

-- `listenNewConnections` and `ignoreNewConnections`
unfoldable pub listen_new_connections : Subscription → Subscription
listen_new_connections s = record s { new_connections_listen = true }

unfoldable pub ignore_new_connections : Subscription → Subscription
ignore_new_connections s = record s { new_connections_listen = false }
