-- ===== src/Tests/Revisions.antt =====
-- The store in memory behaves as Redis, Mongo and JSON do, and keeps the fields that it is given.
pub mod Savings
use Prim.Native.String.{String}
use node_back_end_boilerplat.Subscriptions
use node_back_end_boilerplat.Subscriptions.{Backing, entity}
use node_back_end_boilerplat.Subscriptions.Cached.{IsTextual, or_text, text, seen}
use node_back_end_boilerplat.Subscriptions.Coherence.{Behaves}
use node_back_end_boilerplat.Storage.Json.Written.{json_fields, json_value}
use node_back_end_boilerplat.Storage.Mongo.{Filter, by_subscription, by_id}
use node_back_end_boilerplat.Domain.Subscription.{
  Subscription, get_attributes, new_subscription, merged,
}
use node_back_end_boilerplat.Prelude.{
  is_blank, ℕ, true, ◌≡◌, refl, Option, some, none, ◌==◌, if◌then◌else◌, zero, suc, ap, [], subst,
  sym, Bool, false, Bool-cases, inl, inr, eq_iff, ◌∙◌, arith,
}
use node_back_end_boilerplat.Effects.{ok, pure}
use node_back_end_boilerplat.Value.{
  get, Fields, str, date, bool, obj, field, end, Value, truthy, null, fields_of, is_defined,
}
use node_back_end_boilerplat.Subscriptions.Refinement.{get-save, empty-Coherent}
use node_back_end_boilerplat.Subscriptions.Reading.{seen_result}
use node_back_end_boilerplat.Subscriptions.Contents.{as_stored, KeepsFields, fields_stored}
use node_back_end_boilerplat.Subscriptions.Saving.{document_of}
use node_back_end_boilerplat.Tests.Worlds.{
  World, object_id, document_as, over, revised_document, revised_body, found_in, put_body,
  erase_document, update_document, insert_named, fresh_document, put_entry, drop_entry, letters,
  count-letters, saved_as, listening, parsed, backing_of,
}

pub document_as_inv :
    (id : String) (found : Option Fields) (o : Fields)
    → document_as id found ≡ some o
    → (body : Fields) × (found ≡ some body) × (o ≡ field "_id" (object_id id) body)
document_as_inv id none o p = cc
document_as_inv id (some body) o p = (body, refl, ground arith)

put_document :
    (id i : String) (body : Option Fields) (s : World)
    → document_as i ((put_body id body s).bodies i)
      ≡ (if id == i then document_as id body else document_as i (s.bodies i))
put_document id i body s = elim (Bool-cases (id == i)) [
  | inl q ↦ rw q (ap (λ j. document_as j body) (sym ((eq_iff id i).0 q)))
  | inr q ↦ rw q
]

erased :
    (id i : String) (o : Fields) (s : World)
    → document_as id (s.bodies id) ≡ some o
    → document_as i ((erase_document (get "_id" o) s).bodies i)
      ≡ (if id == i then none else document_as i (s.bodies i))
erased id i o s p =
    let (body, there, same) = document_as_inv id (s.bodies id) o p in
    rw same (put_document id i none s)

found_by_id :
    (id : String) (o : Fields) (s : World)
    → document_as id (s.bodies id) ≡ some o
    → found_in (by_id (get "_id" o)) s ≡ some o
found_by_id id o s p =
    let (body, there, same) = document_as_inv id (s.bodies id) o p in
    ap (λ d. found_in (by_id (get "_id" d)) s) same ∙ p

revised :
    (id i : String) (o n : Fields) (s : World)
    → document_as id (s.bodies id) ≡ some o
    → document_as i ((update_document (get "_id" o) n s).bodies i)
      ≡ (if id == i then some (revised_document o n) else document_as i (s.bodies i))
unfolding revised_document revised_body
revised id i o n s p =
    let (body, there, same) = document_as_inv id (s.bodies id) o p in
    rw same (
      put_document id i (revised_body id n (s.bodies id)) s
      ∙ ap
          (λ b.
            if id == i then document_as id (revised_body id n b) else document_as i (s.bodies i))
          there)

inserted :
    (id i : String) (n : Fields) (s : World)
    → get "subscriptionId" n ≡ str id
    → document_as i ((insert_named n s).bodies i)
      ≡ (if id == i then some (fresh_document n) else document_as i (s.bodies i))
unfolding insert_named fresh_document
inserted id i n s p = rw p (put_document id i (some (fields_stored n)) s)

entries_erased : (v : Value) (k : String) (s : World) → (erase_document v s).entries k ≡ s.entries k
entries_erased (obj (field j (str id) end)) k s = refl
entries_erased _ k s = refl

entries_updated :
    (v : Value) (n : Fields) (k : String) (s : World)
    → (update_document v n s).entries k ≡ s.entries k
unfolding revised_body
entries_updated (obj (field j (str id) end)) n k s = refl
entries_updated _ n k s = refl

identified :
    (id : String) (o : Fields) (found : Option Fields)
    → document_as id found ≡ some o
    → truthy (get "_id" o) ≡ true
identified id o found p = rw (document_as_inv id found o p).2

revised_identifier : (o n : Fields) → get "_id" (revised_document o n) ≡ get "_id" o
unfolding revised_document
revised_identifier o n = refl

entries_inserted :
    (n : Fields) (k : String) (s : World) → (insert_named n s).entries k ≡ s.entries k
unfolding insert_named
entries_inserted n k s = refl

not_blank : (b : Bool) → is_blank (if b then "{+}" else "{-}") ≡ false
not_blank true = refl
not_blank false = refl

-- One of the two subscriptions.
abbrev pub IsOurs : Subscription → Type 0
IsOurs x = (listens : Bool) × (x ≡ saved_as listens)

textual : (x : Subscription) → IsOurs x → IsTextual x
textual x (listens, p) = subst IsTextual (sym p) (record {
  database_id_textual = or_text "d1";
  subscription_id_text = text "s1";
  client_id_textual = or_text (if listens then "c2" else "c1");
})

parsed_back :
    (listens : Bool)
    → backing_of.json.parse (backing_of.json.stringify (obj (get_attributes (saved_as listens))))
      ≡ some (obj (json_fields letters (get_attributes (saved_as listens))))
unfolding backing_of parsed get_attributes
parsed_back true = refl
parsed_back false = refl

pub rules_of : Behaves backing_of
unfolding seen json_value backing_of
rules_of = record {
  document = λ s id. document_as id (s.bodies id);
  entry = λ s k. s.entries k;
  put = put_entry;
  erase = erase_document;
  revised = revised_document;
  fresh = λ n s. fresh_document n;
  update = update_document;
  insert = insert_named;
  updates = λ v o s. refl;
  inserts = λ o s. refl;
  identified = λ id s o p. identified id o _ p;
  finds_id = λ id s o p. ap (λ f. (ok f, s)) (found_by_id id o s p);
  revised_id = λ o n. revised_identifier o n;
  entry_update = λ v o k s. entries_updated v o k s;
  entry_insert = λ o k s. entries_inserted o k s;
  document_update = λ id i o n s p q. revised id i o n s p;
  document_insert = λ id i n s p q. inserted id i n s q;
  drop = drop_entry;
  deleted_count = λ v s. 1;
  removed_count = λ k s. 1;
  deletes = λ v s. refl;
  removes = λ k s. refl;
  entry_erase = λ v k s. entries_erased v k s;
  document_erase = λ id i o s p. erased id i o s p;
  entry_drop = λ k j s. refl;
  document_drop = λ k id s. refl;
  iso = letters;
  IsCacheable = IsOurs;
  cacheable_textual = textual;
  cacheable_seen = λ x (listens, p). (listens, ap (seen letters) p);
  finds = λ id s. refl;
  reads = λ k s. refl;
  sets = λ k t s. refl;
  expires = λ k n s. refl;
  entry_put = λ k t j s. refl;
  document_put = λ k t id s. refl;
  iso_read = count-letters;
  parses = λ x (listens, p).
      subst
        (λ y.
          backing_of.json.parse (backing_of.json.stringify (obj (get_attributes y)))
          ≡ some (obj (json_fields letters (get_attributes y))))
        (sym p) (parsed_back listens);
  stringify_not_blank = λ o. not_blank (listening (obj o));
}

stored-get :
    (key : String) (n : Fields)
    → is_defined (get key n) ≡ true
    → get key (fields_stored n) ≡ as_stored (get key n)
unfolding as_stored
stored-get key end h = cc
stored-get key (field k v n) h = elim (Bool-cases (k == key)) [
  | inl q ↦ rw q
  | inr q ↦ rw q (stored-get key n (rw q at h))
]

over-get :
    (key : String) (n o : Fields)
    → is_defined (get key n) ≡ true
    → get key (over (fields_stored n) o) ≡ as_stored (get key n)
unfolding as_stored
over-get key end o h = cc
over-get key (field k v n) o h = elim (Bool-cases (k == key)) [
  | inl q ↦ rw q
  | inr q ↦ rw q (over-get key n o (rw q at h))
]

pub keeps : KeepsFields backing_of rules_of
unfolding rules_of revised_document fresh_document
keeps = record {
  revised_field = λ key o x p q. rw p (over-get key (get_attributes x) o q);
  fresh_field = λ key s x p q. rw p (stored-get key (get_attributes x) q);
}
