-- ===== src/Tests/Subscriptions.antt =====
-- Examples and tests of the subscriptions and their cache.
use Prim.Native.String.{String}
use node_back_end_boilerplat.Subscriptions
use node_back_end_boilerplat.Subscriptions.{Backing, entity}
use node_back_end_boilerplat.Subscriptions.Cached.{IsTextual, or_text, text, seen}
use node_back_end_boilerplat.Subscriptions.Coherence.{Behaves}
use node_back_end_boilerplat.Storage.Json.Written.{json_fields, json_value}
use node_back_end_boilerplat.Storage.Mongo.{Filter, by_subscription, by_id}
use node_back_end_boilerplat.Domain.Subscription.{Subscription, get_attributes, new_subscription}
use node_back_end_boilerplat.Prelude.{
  ℕ, true, ◌≡◌, refl, Option, some, none, ◌==◌, if◌then◌else◌, zero, suc, ap, [], ◌∷◌, subst, sym,
  Bool, false, List, Bool-cases, inl, inr, eq_iff, ◌∙◌, arith,
}
use node_back_end_boilerplat.Effects.{ok, pure, ◌>>=◌}
use node_back_end_boilerplat.Value
use node_back_end_boilerplat.Value.{Fields, str, date, bool, obj, field, end, Value, truthy}
use node_back_end_boilerplat.Domain.Dates.{Clock}
use node_back_end_boilerplat.Subscriptions.Refinement.{
  get_refines_collection, after, here, got, deleted, saved as saves,
}
use node_back_end_boilerplat.Subscriptions.Saving
use node_back_end_boilerplat.Subscriptions.Reading.{seen_result, expected}

-- A store of documents, by whether they are present, and of entries.
pub record World : Type 0 where
  pub present : String → Bool
  pub entries : String → Option String

-- The identifier of a document is an object of the driver.
abbrev object_id : String → Value
object_id id = obj (field "oid" (str id) end)

abbrev document_of : String → Fields
document_of id = field "_id" (object_id id) (
    field "subscriptionId" (str id) (
      field "dataValues" (obj (field "clientId" (str "c1") (field "createdAt" (date 7) end)))
        (field "listen" (obj (field "newConnections" (bool true) end)) end)))

-- Dates as texts of so many letters.
abbrev letters : ℕ → String
letters zero = ""
letters (suc n) = String.◌∷◌ "t" (letters n)

abbrev count : String → ℕ
count String.[] = 0
count (String.◌∷◌ c s) = suc (count s)

count-letters : (n : ℕ) → count (letters n) ≡ n
count-letters zero = refl
count-letters (suc n) = ap suc (count-letters n)

abbrev clock_of : Clock
clock_of = record { now = 9; from_iso = count }

abbrev saved : Subscription
unfolding new_subscription
saved = new_subscription clock_of (λ v. "d1") (document_of "s1")

abbrev document_if : Bool → String → Option Fields
document_if true id = some (document_of id)
document_if false id = none

abbrev found_in : Filter → World → Option Fields
found_in (by_subscription id) s = document_if (s.present id) id
found_in (by_id (obj (field k (str id) end))) s = document_if (s.present id) id
found_in _ s = none

abbrev mark : String → Bool → World → World
mark id b s = record s { present = λ i. if id == i then b else s.present i }

abbrev erase_document : Value → World → World
erase_document (obj (field k (str id) end)) s = mark id false s
erase_document v s = s

abbrev erase_found : Filter → World → World
erase_found (by_id v) s = erase_document v s
erase_found f s = s

-- A document is inserted under the text that it names; its other fields are those of every document.
abbrev named_text : Value → String
named_text (str id) = id
named_text v = ""

abbrev insert_named : Fields → World → World
insert_named o s = mark (named_text (Value.get "subscriptionId" o)) true s

abbrev fresh_document : Fields → Fields
fresh_document o = document_of (named_text (Value.get "subscriptionId" o))

abbrev put_entry : String → String → World → World
put_entry k t s = record s { entries = λ j. if k == j then some t else s.entries j }

abbrev drop_entry : String → World → World
drop_entry k s = record s { entries = λ j. if k == j then none else s.entries j }

abbrev pub backing_of : Backing World
unfolding json_fields get_attributes saved
backing_of = record {
  clock = clock_of;
  string_of = λ v. "d1";
  json = record {
    parse = λ t. some (obj (json_fields letters (get_attributes saved)));
    stringify = λ v. "{}";
    string_of = λ v. "";
  };
  redis = record {
    get_text = λ k s. (ok (s.entries k), s);
    set_text = λ k t s. (ok "OK", put_entry k t s);
    expire = λ k n. pure tt;
    keys_like = λ p. pure [];
    get_texts = λ ks. pure [];
    remove_key = λ k s. (ok 1, drop_entry k s);
    flush = pure "OK";
    connect_socket = pure tt;
    quit = pure "OK";
    status = λ s. "ready";
  };
  subscriptions = record {
    insert_document = λ o s. (ok (Value.get "_id" (fresh_document o)), insert_named o s);
    find_document = λ f s. (ok (found_in f s), s);
    find_documents = λ f. pure (document_of "s1" ∷ []);
    set_document = λ f o. pure tt;
    delete_document = λ f s. (ok 1, erase_found f s);
  };
  subscriptions_time_to_live = 60;
}

document_if_inv :
    (b : Bool) (id : String) (o : Fields)
    → document_if b id ≡ some o
    → (b ≡ true) × (o ≡ document_of id)
document_if_inv true id o p = ground arith
document_if_inv false id o p = cc

marked :
    (id i : String) (b : Bool) (s : World)
    → document_if ((mark id b s).present i) i
      ≡ (if id == i then document_if b id else document_if (s.present i) i)
marked id i b s = elim (Bool-cases (id == i)) [
  | inl q ↦ rw q (ap (document_if b) (sym ((eq_iff id i).0 q)))
  | inr q ↦ rw q
]

erased :
    (id i : String) (o : Fields) (s : World)
    → document_if (s.present id) id ≡ some o
    → document_if ((erase_document (Value.get "_id" o) s).present i) i
      ≡ (if id == i then none else document_if (s.present i) i)
erased id i o s p = rw (document_if_inv (s.present id) id o p).1 (marked id i false s)

found_by_id :
    (id : String) (o : Fields) (s : World)
    → document_if (s.present id) id ≡ some o
    → found_in (by_id (Value.get "_id" o)) s ≡ some o
found_by_id id o s p =
    rw (document_if_inv (s.present id) id o p).1 (rw (document_if_inv (s.present id) id o p).0)

revised_as :
    (id i : String) (o : Fields) (s : World)
    → document_if (s.present id) id ≡ some o
    → document_if (s.present i) i ≡ (if id == i then some o else document_if (s.present i) i)
revised_as id i o s p = elim (Bool-cases (id == i)) [
  | inl q ↦ rw q (ap (λ j. document_if (s.present j) j) (sym ((eq_iff id i).0 q)) ∙ p)
  | inr q ↦ rw q
]

inserted :
    (id i : String) (n : Fields) (s : World)
    → Value.get "subscriptionId" n ≡ str id
    → document_if ((insert_named n s).present i) i
      ≡ (if id == i then some (fresh_document n) else document_if (s.present i) i)
inserted id i n s p = rw p (marked id i true s)

entries_erased : (v : Value) (k : String) (s : World) → (erase_document v s).entries k ≡ s.entries k
entries_erased (obj (field j (str id) end)) k s = refl
entries_erased _ k s = refl

rules_of : Behaves backing_of
unfolding entity seen json_value saved backing_of
rules_of = record {
  document = λ s id. document_if (s.present id) id;
  entry = λ s k. s.entries k;
  put = put_entry;
  erase = erase_document;
  revised = λ o n. o;
  fresh = λ n s. fresh_document n;
  update = λ v o s. s;
  insert = insert_named;
  updates = λ v o s. refl;
  inserts = λ o s. refl;
  identified = λ id s o p. ap (λ d. truthy (Value.get "_id" d)) (document_if_inv _ id o p).1;
  finds_id = λ id s o p. ap (λ f. (ok f, s)) (found_by_id id o s p);
  revised_id = λ o n. refl;
  entry_update = λ v o k s. refl;
  entry_insert = λ o k s. refl;
  document_update = λ id i o n s p q. revised_as id i o s p;
  document_insert = λ id i n s p q. inserted id i n s q;
  drop = drop_entry;
  deleted_count = λ v s. 1;
  removed_count = λ k s. 1;
  deletes = λ v s. refl;
  removes = λ k s. refl;
  entry_erase = λ v k s. entries_erased v k s;
  document_erase = λ id i o s p. erased id i o s p;
  entry_drop = λ k j s. refl;
  document_drop = λ k id s. refl;
  iso = letters;
  IsCacheable = λ x. x ≡ saved;
  cacheable_textual = λ x p. subst IsTextual (sym p) (record {
    database_id_textual = or_text "d1";
    subscription_id_text = text "s1";
    client_id_textual = or_text "c1";
  });
  cacheable_seen = λ x p. ap (seen letters) p;
  finds = λ id s. refl;
  reads = λ k s. refl;
  sets = λ k t s. refl;
  expires = λ k n s. refl;
  entry_put = λ k t j s. refl;
  document_put = λ k t id s. refl;
  iso_read = count-letters;
  parses = λ x p. rw p;
  stringify_not_blank = λ o. refl;
}

abbrev pub no_entries : World
no_entries = record { present = λ id. id == "s1"; entries = λ k. none }

saved_cacheable :
    (i : String) (o : Fields) → document_if (i == "s1") i ≡ some o → entity backing_of o ≡ saved
unfolding entity saved backing_of
saved_cacheable i o p =
    let (same, built) = document_if_inv (i == "s1") i o p in
    ap (new_subscription clock_of (λ v. "d1")) (built ∙ ap document_of ((eq_iff i "s1").0 same))

-- The store after a call of `get` and one of `delete`.
abbrev read_once : World
read_once = (Subscriptions.get backing_of "s1" no_entries).1

abbrev deleted_then : World
deleted_then = (Subscriptions.delete backing_of "s1" read_once).1

-- What a client sends of itself.
abbrev content : Fields
content =
    field "subscriptionId" (str "s1")
      (field "listen" (obj (field "newConnections" (bool true) end)) end)

names_itself : (entity backing_of content).subscription_id ≡ str "s1"
unfolding entity new_subscription backing_of
names_itself = refl

saved_again : World
saved_again = (Subscriptions.save backing_of "s1" content deleted_then).1

-- Saving again inserts a document, since it was deleted.
inserted_cacheable :
    entity backing_of (
      Saving.document_of backing_of rules_of
        (get_attributes (entity backing_of content))
        (rules_of.document deleted_then "s1")
        deleted_then)
    ≡ saved
unfolding rules_of entity saved backing_of get_attributes new_subscription Subscriptions.delete
    Subscriptions.get ◌>>=◌
inserted_cacheable = refl

get_refines_collection_example :
    seen_result backing_of rules_of (Subscriptions.get backing_of "s1" saved_again).0
    ≡ expected backing_of rules_of (rules_of.document saved_again "s1")
unfolding rules_of saved_again
get_refines_collection_example =
    get_refines_collection backing_of rules_of no_entries saved_again "s1" (λ k. refl)
      saved_cacheable
      (after deleted_then saved_again
        (after read_once deleted_then (after no_entries read_once here (got "s1")) (deleted "s1"))
        (saves "s1" content names_itself inserted_cacheable))

abbrev with_key : Backing World
unfolding backing_of
with_key = record backing_of {
  redis = record backing_of.redis { keys_like = λ p. pure ("subscriptions:s1" ∷ []) };
}

abbrev listed : List Fields
unfolding json_fields get_attributes saved
listed =
    field "key" (str "subscriptions:s1")
      (field "value" (obj (json_fields letters (get_attributes saved))) end)
    ∷ []
