-- ===== src/Subscriptions.antt =====
-- src/modules/app/subscription/services/Subscription.service.ts: subscriptions in Mongo with a cache
-- in Redis in front of them.
pub mod Listing
pub mod Coherence
pub mod Reading
pub mod Deletion
pub mod Saving
pub mod Contents
pub mod Refinement
pub mod Cached
use node_back_end_boilerplat.Value
use node_back_end_boilerplat.Storage.Redis
use node_back_end_boilerplat.Storage.Redis.{RedisDriver, generate_key}
use node_back_end_boilerplat.Storage.Mongo
use node_back_end_boilerplat.Storage.Mongo.{Collection, by_subscription, every_document}
use node_back_end_boilerplat.Storage.Json.{Json}
use node_back_end_boilerplat.Domain.Subscription.{Subscription, new_subscription, get_attributes}
use node_back_end_boilerplat.Prelude.{
  ℕ, String, Bool, Option, some, none, true, false, if◌then◌else◌, is_truthy, or_else, List, [],
  ◌∷◌, map, length, eqb, ltb, not, ◌||◌,
}
use node_back_end_boilerplat.Domain.Dates.{Clock}
use node_back_end_boilerplat.Value.{Value, undefined, null, obj, Fields, end, truthy, fields_of}
use node_back_end_boilerplat.Effects.{Exec, ok, pure, fail, ◌>>=◌, ◌>>◌}
use node_back_end_boilerplat.Exceptions.{not_found, conflict, plain_error}

-- What the service is built with: the clock, `String` of a document's identifier, Redis with its
-- JSON, the collection of subscriptions and the time that an entry lives.
pub record Backing (S : Type 0) : Type 0 where
  pub clock : Clock
  pub string_of : Value → String
  pub json : Json
  pub redis : RedisDriver S
  pub subscriptions : Collection S
  pub subscriptions_time_to_live : ℕ

-- A document that may be missing, as a value.
abbrev pub found_value : Option Fields → Value
found_value none = null
found_value (some o) = obj o

-- `foundedSubscription?._id`
abbrev pub id_of : Option Fields → Value
id_of none = undefined
id_of (some o) = Value.get "_id" o

-- The key of a subscription in the cache.
unfoldable pub cache_key : String → String
unfolding generate_key
cache_key id = generate_key id "subscriptions"

module _ {S : Type 0} (backing : Backing S) where
  unfoldable pub entity : Fields → Subscription
  unfolding new_subscription
  entity o = new_subscription backing.clock backing.string_of o

  -- `getFromCache`, `saveOnCache`, `deleteFromCache` and `listFromCache`
  unfoldable pub get_from_cache : String → Exec S Value
  unfolding cache_key Redis.get
  get_from_cache id = Redis.get backing.json backing.redis (cache_key id)

  unfoldable pub save_on_cache : String → Fields → Exec S String
  unfolding cache_key Redis.set
  save_on_cache id data_ =
      Redis.set backing.json backing.redis (cache_key id) (obj data_)
        backing.subscriptions_time_to_live

  unfoldable pub delete_from_cache : String → Exec S ℕ
  unfolding cache_key Redis.delete
  delete_from_cache id = Redis.delete backing.json backing.redis (cache_key id)

  unfoldable pub list_from_cache : Exec S (List Fields)
  unfolding Redis.get_by_key_pattern
  list_from_cache = Redis.get_by_key_pattern backing.json backing.redis "subscriptions:*"

  -- The entry of the cache, or else the document.
  unfoldable pub find_saved : String → Exec S Value
  unfolding get_from_cache Mongo.find_one
  find_saved id = do
    cached ← get_from_cache id
    (if truthy cached
        then pure cached
        else Mongo.find_one backing.subscriptions (by_subscription id) >>= λ found.
            pure (found_value found))

  -- `if (!savedSubscription) throw …`
  unfoldable pub require_saved : Value → Exec S Fields
  require_saved saved =
      if truthy saved
      then pure (fields_of saved)
      else fail not_found (plain_error "Subscription not found!")

  -- `get`
  unfoldable pub get : String → Exec S Subscription
  unfolding entity find_saved require_saved save_on_cache get_attributes
  get id = do
    saved ← find_saved id
    document ← require_saved saved
    save_on_cache id (get_attributes (entity document))
    pure (entity document)

  -- The creation or the update of `save`; it answers with the identifier of the document.
  unfoldable pub write_document : Value → Fields → Exec S Value
  unfolding Mongo.insert_one Mongo.update_one
  write_document database_id data_ =
      if truthy database_id
      then Mongo.update_one backing.subscriptions database_id data_ >> pure database_id
      else Mongo.insert_one backing.subscriptions data_

  -- `if (!!foundedSubscription?._id) await this.saveOnCache(…)`
  unfoldable pub cache_document : String → Option Fields → Exec S (Unit {0})
  unfolding save_on_cache get_attributes
  cache_document id none = pure tt
  cache_document id (some document) =
      if truthy (Value.get "_id" document)
      then save_on_cache id (get_attributes (entity document)) >> pure tt
      else pure tt

  -- The document that was written is read again, cached and returned.
  unfoldable pub read_back : String → Value → Exec S Subscription
  unfolding cache_document Mongo.get
  read_back id database_id = do
    document ← Mongo.get backing.subscriptions database_id
    cache_document id document
    pure (entity (or_else document end))

  -- `save`
  unfoldable pub save : String → Fields → Exec S Subscription
  unfolding Mongo.find_one write_document read_back get_attributes
  save id data_ = do
    founded ← Mongo.find_one backing.subscriptions (by_subscription id)
    database_id ← write_document (id_of founded) (get_attributes (entity data_))
    (if truthy database_id
        then read_back id database_id
        else fail conflict (plain_error "Subscription not created or updated!"))

  -- `if (foundedSubscription?._id) …`
  unfoldable pub delete_document : Value → Exec S Bool
  unfolding Mongo.delete_one
  delete_document database_id =
      if truthy database_id
      then (do
        deleted_count ← Mongo.delete_one backing.subscriptions database_id
        pure (ltb 0 deleted_count))
      else pure false

  -- `delete`
  unfoldable pub delete : String → Exec S Bool
  unfolding Mongo.find_one delete_document delete_from_cache
  delete id = do
    founded ← Mongo.find_one backing.subscriptions (by_subscription id)
    deleted ← delete_document (id_of founded)
    delete_from_cache id
    pure deleted

  -- `list`
  unfoldable pub list : Bool → Exec S (List Subscription)
  unfolding list_from_cache Mongo.find_many
  list use_cache = do
    cached ← list_from_cache
    documents ←
        (if not use_cache || eqb (length cached) 0
          then Mongo.find_many backing.subscriptions every_document
          else pure cached)
    pure (map entity documents)
