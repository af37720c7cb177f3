-- ===== src/Tests/Worlds.antt =====
-- Documents and entries in memory, with a `$set` that revises a document.
use Prim.Native.String.{String}
use node_back_end_boilerplat.Subscriptions.{Backing}
use node_back_end_boilerplat.Storage.Json.Written.{json_fields}
use node_back_end_boilerplat.Storage.Mongo.{Filter, by_subscription, by_id}
use node_back_end_boilerplat.Domain.Subscription.{Subscription, get_attributes}
use node_back_end_boilerplat.Prelude.{
  ℕ, ◌≡◌, refl, Option, some, none, ◌==◌, if◌then◌else◌, zero, suc, ap, [], Bool,
}
use node_back_end_boilerplat.Effects.{ok, pure}
use node_back_end_boilerplat.Value.{
  get, Fields, str, obj, field, end, Value, truthy, null, fields_of,
}
use node_back_end_boilerplat.Subscriptions.Contents.{as_stored, fields_stored}

-- The fields of each document but its identifier, and the entries.
pub record World : Type 0 where
  pub bodies : String → Option Fields
  pub entries : String → Option String

-- The identifier of a document is an object of the driver.
abbrev pub object_id : String → Value
object_id id = obj (field "oid" (str id) end)

abbrev pub document_as : String → Option Fields → Option Fields
document_as id none = none
document_as id (some body) = some (field "_id" (object_id id) body)

-- Fields that hide those of a document.
abbrev pub over : Fields → Fields → Fields
over end o = o
over (field k v n) o = field k v (over n o)

unfoldable pub revised_document : Fields → Fields → Fields
unfolding as_stored
revised_document o n = field "_id" (get "_id" o) (over (fields_stored n) o)

unfoldable pub revised_body : String → Fields → Option Fields → Option Fields
unfolding as_stored
revised_body id n none = none
revised_body id n (some body) = some (over (fields_stored n) (field "_id" (object_id id) body))

abbrev pub found_in : Filter → World → Option Fields
found_in (by_subscription id) s = document_as id (s.bodies id)
found_in (by_id (obj (field k (str id) end))) s = document_as id (s.bodies id)
found_in _ s = none

abbrev pub put_body : String → Option Fields → World → World
put_body id body s = record s { bodies = λ i. if id == i then body else s.bodies i }

abbrev pub erase_document : Value → World → World
erase_document (obj (field k (str id) end)) s = put_body id none s
erase_document v s = s

abbrev erase_found : Filter → World → World
erase_found (by_id v) s = erase_document v s
erase_found f s = s

abbrev pub update_document : Value → Fields → World → World
update_document (obj (field k (str id) end)) n s = put_body id (revised_body id n (s.bodies id)) s
update_document v n s = s

abbrev update_found : Filter → Fields → World → World
update_found (by_id v) n s = update_document v n s
update_found f n s = s

abbrev named_text : Value → String
named_text (str id) = id
named_text v = ""

abbrev own_name : Fields → String
own_name n = named_text (get "subscriptionId" n)

unfoldable pub insert_named : Fields → World → World
unfolding as_stored
insert_named n s = put_body (own_name n) (some (fields_stored n)) s

unfoldable pub fresh_document : Fields → Fields
unfolding as_stored
fresh_document n = field "_id" (object_id (own_name n)) (fields_stored n)

abbrev pub put_entry : String → String → World → World
put_entry k t s = record s { entries = λ j. if k == j then some t else s.entries j }

abbrev pub drop_entry : String → World → World
drop_entry k s = record s { entries = λ j. if k == j then none else s.entries j }

abbrev pub letters : ℕ → String
letters zero = ""
letters (suc n) = String.◌∷◌ "t" (letters n)

abbrev count : String → ℕ
count String.[] = 0
count (String.◌∷◌ c s) = suc (count s)

pub count-letters : (n : ℕ) → count (letters n) ≡ n
count-letters zero = refl
count-letters (suc n) = ap suc (count-letters n)

-- The subscription before, which does not listen, and after the save.
abbrev pub saved_as : Bool → Subscription
saved_as listens = record {
  database_id = str "d1";
  subscription_id = str "s1";
  client_id = str (if listens then "c2" else "c1");
  created_at = 9;
  updated_at = null;
  new_connections_listen = listens;
}

abbrev pub listening : Value → Bool
listening v = truthy (get "newConnections" (fields_of (get "listen" (fields_of v))))

unfoldable pub parsed : Bool → Value
unfolding json_fields get_attributes
parsed listens = obj (json_fields letters (get_attributes (saved_as listens)))

unfoldable pub backing_of : Backing World
unfolding parsed insert_named fresh_document
backing_of = record {
  clock = record { now = 9; from_iso = count };
  string_of = λ v. "d1";
  json = record {
    parse = λ t. some (parsed (t == "{+}"));
    stringify = λ v. if listening v then "{+}" else "{-}";
    string_of = λ v. "";
  };
  redis = record {
    get_text = λ k s. (ok (s.entries k), s);
    set_text = λ k t s. (ok "OK", put_entry k t s);
    expire = λ k n. pure tt;
    keys_like = λ p. pure [];
    get_texts = λ ks. pure [];
    remove_key = λ k s. (ok 1, drop_entry k s);
    flush = pure "OK";
    connect_socket = pure tt;
    quit = pure "OK";
    status = λ s. "ready";
  };
  subscriptions = record {
    insert_document = λ n s. (ok (get "_id" (fresh_document n)), insert_named n s);
    find_document = λ f s. (ok (found_in f s), s);
    find_documents = λ f. pure [];
    set_document = λ f n s. (ok tt, update_found f n s);
    delete_document = λ f s. (ok 1, erase_found f s);
  };
  subscriptions_time_to_live = 60;
}
