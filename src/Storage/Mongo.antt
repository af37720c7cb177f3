-- ===== src/Storage/Mongo.antt =====
-- src/modules/core/infra/data/Mongo.client.ts: the operations on one collection and the ones that
use node_back_end_boilerplat.Prelude.{ℕ, String, Option, some, none, List, Bool, true, false, map}
use node_back_end_boilerplat.Value.{Value, Fields, str}
use node_back_end_boilerplat.Effects.{Exec, fail, try_catch, ◌>>◌, ok, pure, ◌>>=◌}
use node_back_end_boilerplat.Exceptions.{
  conflict, plain_error, integration, detailed_error, thrown_message,
}

-- need a database. A document is an object with its `_id`.

-- What a search asks for: `{ subscriptionId }`, `{ _id }` and `{}`.
pub data Filter : Type 0 where
  by_subscription : String → Filter
  by_id : Value → Filter
  every_document : Filter

-- The driver's collection; an insertion answers with `insertedId`, a deletion with `deletedCount`.
pub record Collection (S : Type 0) : Type 0 where
  pub insert_document : Fields → Exec S Value
  pub find_document : Filter → Exec S (Option Fields)
  pub find_documents : Filter → Exec S (List Fields)
  pub set_document : Filter → Fields → Exec S (Unit {0})
  pub delete_document : Filter → Exec S ℕ

module _ {S : Type 0} (collection : Collection S) where
  -- `insertOne`
  unfoldable pub insert_one : Fields → Exec S Value
  insert_one data_ = collection.insert_document data_

  -- `get`
  unfoldable pub get : Value → Exec S (Option Fields)
  get id = collection.find_document (by_id id)

  -- `findOne` and `findMany`
  unfoldable pub find_one : Filter → Exec S (Option Fields)
  find_one filter_data = collection.find_document filter_data

  unfoldable pub find_many : Filter → Exec S (List Fields)
  find_many filter_data = collection.find_documents filter_data

  -- `updateOne`, with `$set`
  unfoldable pub update_one : Value → Fields → Exec S (Unit {0})
  update_one id new_data = collection.set_document (by_id id) new_data

  -- `deleteOne`
  unfoldable pub delete_one : Value → Exec S ℕ
  delete_one id = collection.delete_document (by_id id)

-- `if (!database) throw …`, which five of the operations begin with.
unfoldable pub on_database : {S D A : Type 0} → Option D → (D → Exec S A) → Exec S A
on_database none use_database = fail conflict (plain_error "Database unexistent")
on_database (some database) use_database = use_database database

-- The operations of a collection on many documents.
pub record Batches (S : Type 0) : Type 0 where
  pub insert_documents : List Fields → Exec S (List Value)
  pub set_documents : Filter → Fields → Exec S ℕ
  pub delete_documents : Filter → Exec S ℕ

module _ {S : Type 0} (batches : Batches S) where
  -- `insertMany`, `updateMany` with `$set`, and `deleteMany`
  unfoldable pub insert_many : List Fields → Exec S (List Value)
  insert_many data_list = batches.insert_documents data_list

  unfoldable pub update_many : Filter → Fields → Exec S ℕ
  update_many filter_data new_data = batches.set_documents filter_data new_data

  unfoldable pub delete_many : Filter → Exec S ℕ
  delete_many filter_data = batches.delete_documents filter_data

-- A database of the driver; a collection is a `C`, and is listed with its name.
pub record Database (S C : Type 0) : Type 0 where
  pub command : Fields → Exec S Fields
  pub collections : Exec S (List (String × C))
  pub collection_of : String → C
  pub create : String → Exec S C
  pub drop : String → Exec S Bool

module _ {S C : Type 0} where
  -- `runCommand`
  unfoldable pub run_command : Option (Database S C) → Fields → Exec S Fields
  unfolding on_database
  run_command database command = on_database database (λ db. db.command command)

  -- `listCollections`
  unfoldable pub list_collections : Option (Database S C) → Exec S (List String)
  unfolding on_database
  list_collections database = on_database database λ db.
      db.collections >>= λ collection_list. pure (map (λ collection. collection.0) collection_list)

  -- `getCollection`, `createCollection` and `dropCollection`
  unfoldable pub get_collection : Option (Database S C) → String → Exec S C
  unfolding on_database
  get_collection database name = on_database database (λ db. pure (db.collection_of name))

  unfoldable pub create_collection : Option (Database S C) → String → Exec S C
  unfolding on_database
  create_collection database name = on_database database (λ db. db.create name)

  unfoldable pub drop_collection : Option (Database S C) → String → Exec S Bool
  unfolding on_database
  drop_collection database name = on_database database (λ db. db.drop name)

-- The driver's client, and whether its last event was `open`.
pub record MongoDriver (S : Type 0) : Type 0 where
  pub connect_client : Exec S (Unit {0})
  pub close_client : Exec S (Unit {0})
  pub is_connected : S → Bool

module _ {S : Type 0} (driver : MongoDriver S) where
  -- `connect`
  unfoldable pub connect : Exec S Bool
  connect =
      try_catch driver.connect_client (λ e.
        fail integration (detailed_error "Error to connect mongo client" (str (thrown_message e))))
      >> (λ s. (ok (driver.is_connected s), s))

  -- `disconnect`
  unfoldable pub disconnect : Exec S Bool
  disconnect = try_catch (driver.close_client >> pure true) (λ _. pure false)
