-- ===== src/Subscriptions/Coherence.antt =====
-- The cache of src/modules/app/subscription/services/Subscription.service.ts answers as the collection
-- behind it.
use node_back_end_boilerplat.Subscriptions
use node_back_end_boilerplat.Subscriptions.{Backing, cache_key, entity, truthy}
use node_back_end_boilerplat.Subscriptions.Cached.{IsTextual, seen, new_subscription-json_fields}
use node_back_end_boilerplat.Storage.Json.Written.{json_fields}
use node_back_end_boilerplat.Storage.Mongo.{by_subscription, by_id}
use node_back_end_boilerplat.Domain.Subscription.{Subscription, get_attributes}
use node_back_end_boilerplat.Prelude.{
  ℕ, String, true, false, ◌≡◌, Option, some, none, is_blank, ◌==◌, if◌then◌else◌,
}
use node_back_end_boilerplat.Storage.Mongo
use node_back_end_boilerplat.Effects.{◌>>=◌, ◌>>◌, pure, ok, throw_exception}
use node_back_end_boilerplat.Exceptions.{not_found, plain_error}
use node_back_end_boilerplat.Value.{null, Fields, obj, is_defined, Value, get, truthy, str}

-- How Redis, Mongo, JSON and the clock behave: `findOne` and `get` read, `set` and `del` write the one
-- entry and no document; `deleteOne`, `updateOne` and `insertOne` delete, revise and add the one
-- document of a subscription, and no entry. A document has an identifier of its own, which a revision
-- keeps and by which it is found. An ISO text is read as its date. `JSON.parse` reads what
-- `JSON.stringify` wrote of the subscriptions that can be cached, whose identifiers are texts or
-- missing.
pub record Behaves {S : Type 0} (backing : Backing S) : Type 1 where
  pub document : S → String → Option Fields
  pub entry : S → String → Option String
  pub put : String → String → S → S
  pub erase : Value → S → S
  pub drop : String → S → S
  pub deleted_count : Value → S → ℕ
  pub removed_count : String → S → ℕ
  pub iso : ℕ → String
  pub IsCacheable : Subscription → Type 0
  pub cacheable_textual : (x : Subscription) → IsCacheable x → IsTextual x
  pub cacheable_seen : (x : Subscription) → IsCacheable x → IsCacheable (seen iso x)
  pub finds :
      (id : String) (s : S)
      → backing.subscriptions.find_document (by_subscription id) s ≡ (ok (document s id), s)
  pub reads : (k : String) (s : S) → backing.redis.get_text k s ≡ (ok (entry s k), s)
  pub sets : (k t : String) (s : S) → backing.redis.set_text k t s ≡ (ok "OK", put k t s)
  pub expires : (k : String) (n : ℕ) (s : S) → backing.redis.expire k n s ≡ (ok tt, s)
  pub deletes :
      (v : Value) (s : S)
      → backing.subscriptions.delete_document (by_id v) s ≡ (ok (deleted_count v s), erase v s)
  pub removes :
      (k : String) (s : S) → backing.redis.remove_key k s ≡ (ok (removed_count k s), drop k s)
  pub entry_erase : (v : Value) (k : String) (s : S) → entry (erase v s) k ≡ entry s k
  pub document_erase :
      (id i : String) (o : Fields) (s : S)
      → document s id ≡ some o
      → document (erase (get "_id" o) s) i ≡ (if id == i then none else document s i)
  pub entry_drop :
      (k j : String) (s : S) → entry (drop k s) j ≡ (if k == j then none else entry s j)
  pub document_drop : (k id : String) (s : S) → document (drop k s) id ≡ document s id
  pub entry_put :
      (k t j : String) (s : S) → entry (put k t s) j ≡ (if k == j then some t else entry s j)
  pub document_put : (k t id : String) (s : S) → document (put k t s) id ≡ document s id
  pub revised : Fields → Fields → Fields
  pub fresh : Fields → S → Fields
  pub update : Value → Fields → S → S
  pub insert : Fields → S → S
  pub updates :
      (v : Value) (o : Fields) (s : S)
      → backing.subscriptions.set_document (by_id v) o s ≡ (ok tt, update v o s)
  pub inserts :
      (o : Fields) (s : S)
      → backing.subscriptions.insert_document o s ≡ (ok (get "_id" (fresh o s)), insert o s)
  pub identified :
      (id : String) (s : S) (o : Fields) → document s id ≡ some o → truthy (get "_id" o) ≡ true
  pub finds_id :
      (id : String) (s : S) (o : Fields)
      → document s id ≡ some o
      → backing.subscriptions.find_document (by_id (get "_id" o)) s ≡ (ok (some o), s)
  pub revised_id : (o n : Fields) → get "_id" (revised o n) ≡ get "_id" o
  pub entry_update :
      (v : Value) (o : Fields) (k : String) (s : S) → entry (update v o s) k ≡ entry s k
  pub entry_insert : (o : Fields) (k : String) (s : S) → entry (insert o s) k ≡ entry s k
  pub document_update :
      (id i : String) (o n : Fields) (s : S)
      → document s id ≡ some o
      → get "subscriptionId" n ≡ str id
      → document (update (get "_id" o) n s) i
        ≡ (if id == i then some (revised o n) else document s i)
  pub document_insert :
      (id i : String) (n : Fields) (s : S)
      → document s id ≡ none
      → get "subscriptionId" n ≡ str id
      → document (insert n s) i ≡ (if id == i then some (fresh n s) else document s i)
  pub iso_read : (t : ℕ) → backing.clock.from_iso (iso t) ≡ t
  pub parses :
      (x : Subscription)
      → IsCacheable x
      → backing.json.parse (backing.json.stringify (obj (get_attributes x)))
        ≡ some (obj (json_fields iso (get_attributes x)))
  pub stringify_not_blank : (o : Fields) → is_blank (backing.json.stringify (obj o)) ≡ false

module _ {S : Type 0} (backing : Backing S) (rules : Behaves backing) where
  -- The text that is cached for a subscription.
  abbrev pub written : Subscription → String
  written x = backing.json.stringify (obj (get_attributes x))

  -- An entry of the cache is what was written for a subscription that is the document's.
  pub record IsEntryOf (o : Fields) (t : String) : Type 0 where
    pub cached : Subscription
    pub cacheable : rules.IsCacheable cached
    pub cached_defined : is_defined cached.updated_at ≡ true
    pub same : seen rules.iso cached ≡ seen rules.iso (entity backing o)
    pub text : t ≡ written cached

  pub record Coherent (s : S) : Type 0 where
    pub documents_cacheable :
        (id : String) (o : Fields)
        → rules.document s id ≡ some o
        → rules.IsCacheable (entity backing o)
    pub entries :
        (id t : String)
        → rules.entry s (cache_key id) ≡ some t
        → (o : Fields) × (rules.document s id ≡ some o) × IsEntryOf o t

  -- `saveOnCache` leaves what was written.
  pub save_on_cache_lem :
      (id : String) (x : Subscription) (s : S)
      → Subscriptions.save_on_cache backing id (get_attributes x) s
        ≡ (ok "OK", rules.put (cache_key id) (written x) s)
  unfolding Subscriptions.save_on_cache ◌>>=◌
  save_on_cache_lem id x s = rw (rules.sets, rules.expires)

  -- The last step of `get`: the document is cached and its subscription answered.
  answers :
      (id : String) (o : Fields) (s : S)
      → (Subscriptions.save_on_cache backing id (get_attributes (entity backing o))
            >> pure (entity backing o))
          s
        ≡ (ok (entity backing o), rules.put (cache_key id) (written (entity backing o)) s)
  unfolding ◌>>=◌
  answers id o s = rw (save_on_cache_lem id (entity backing o) s)

  -- What `getFromCache` reads.
  read_entry :
      (id t : String) (o : Fields) (s : S) (e : IsEntryOf o t)
      → rules.entry s (cache_key id) ≡ some t
      → Subscriptions.get_from_cache backing id s
        ≡ (ok (obj (json_fields rules.iso (get_attributes e.cached))), s)
  unfolding Subscriptions.get_from_cache ◌>>=◌ cache_key
  read_entry id t o s e p =
      rw (rules.reads, p, e.text, rules.stringify_not_blank, rules.parses e.cached e.cacheable)

  read_none :
      (id : String) (s : S)
      → rules.entry s (cache_key id) ≡ none
      → Subscriptions.get_from_cache backing id s ≡ (ok null, s)
  unfolding Subscriptions.get_from_cache ◌>>=◌ cache_key
  read_none id s p = rw (rules.reads, p)

  -- The subscription of an entry.
  entity_lem :
      (o : Fields) (t : String) (e : IsEntryOf o t)
      → entity backing (json_fields rules.iso (get_attributes e.cached)) ≡ seen rules.iso e.cached
  unfolding entity
  entity_lem o t e =
      new_subscription-json_fields rules.iso backing.clock backing.string_of rules.iso_read e.cached
        (rules.cacheable_textual e.cached e.cacheable) e.cached_defined

  -- What `get` answers, and leaves, where the entry is there.
  pub get_of_entry :
      (id t : String) (o : Fields) (s : S)
      → (e : IsEntryOf o t) → rules.entry s (cache_key id) ≡ some t
      → Subscriptions.get backing id s ≡ (
        ok (seen rules.iso e.cached),
        rules.put (cache_key id) (written (seen rules.iso e.cached)) s,
      )
  unfolding Subscriptions.get Subscriptions.find_saved Subscriptions.require_saved ◌>>=◌
  get_of_entry id t o s e p = rw (
    read_entry id t o s e p,
    answers id (json_fields rules.iso (get_attributes e.cached)) s,
    entity_lem o t e,
  )

  -- Where there is no entry, it answers with the document.
  pub get_of_document :
      (id : String) (o : Fields) (s : S)
      → rules.entry s (cache_key id) ≡ none
      → rules.document s id ≡ some o
      → Subscriptions.get backing id s
        ≡ (ok (entity backing o), rules.put (cache_key id) (written (entity backing o)) s)
  unfolding Subscriptions.get Subscriptions.find_saved Subscriptions.require_saved ◌>>=◌
      Mongo.find_one
  get_of_document id o s p q = rw (read_none id s p, rules.finds, q, answers id o s)

  pub get_of_none :
      (id : String) (s : S)
      → rules.entry s (cache_key id) ≡ none
      → rules.document s id ≡ none
      → Subscriptions.get backing id s
        ≡ (throw_exception not_found (plain_error "Subscription not found!"), s)
  unfolding Subscriptions.get Subscriptions.find_saved Subscriptions.require_saved ◌>>=◌
      Mongo.find_one
  get_of_none id s p q = rw (read_none id s p, rules.finds, q)
