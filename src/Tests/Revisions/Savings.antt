-- ===== src/Tests/Revisions/Savings.antt =====
-- An example of saving, on a collection that revises its documents.
use Prim.Native.String.{String}
use node_back_end_boilerplat.Subscriptions
use node_back_end_boilerplat.Subscriptions.{Backing, entity}
use node_back_end_boilerplat.Domain.Subscription.{
  Subscription, get_attributes, new_subscription, merged,
}
use node_back_end_boilerplat.Prelude.{
  true, ◌≡◌, refl, some, none, ◌==◌, if◌then◌else◌, ap, Bool, false, eq_iff, ◌∙◌, arith,
}
use node_back_end_boilerplat.Effects.{ok}
use node_back_end_boilerplat.Value.{Fields, str, date, bool, obj, field, end}
use node_back_end_boilerplat.Subscriptions.Refinement.{get-save, empty-Coherent}
use node_back_end_boilerplat.Subscriptions.Reading.{seen_result}
use node_back_end_boilerplat.Subscriptions.Contents.{as_stored}
use node_back_end_boilerplat.Subscriptions.Saving.{document_of}
use node_back_end_boilerplat.Tests.Worlds.{
  World, object_id, document_as, revised_document, saved_as, backing_of,
}
use node_back_end_boilerplat.Tests.Revisions.{document_as_inv, IsOurs, rules_of, keeps}

-- The document before, and what is saved.
abbrev old_body : Fields
old_body = field "subscriptionId" (str "s1") (
    field "dataValues" (obj (field "clientId" (str "c1") (field "createdAt" (date 9) end)))
      (field "listen" (obj (field "newConnections" (bool false) end)) end))

abbrev before : World
before = record { bodies = λ id. if id == "s1" then some old_body else none; entries = λ k. none }

abbrev content : Fields
content = field "subscriptionId" (str "s1") (
    field "clientId" (str "c2") (field "listen" (obj (field "newConnections" (bool true) end)) end))

names_itself : (entity backing_of content).subscription_id ≡ str "s1"
unfolding entity new_subscription merged backing_of
names_itself = refl

old_subscription : entity backing_of (field "_id" (object_id "s1") old_body) ≡ saved_as false
unfolding entity new_subscription merged backing_of
old_subscription = refl

old_body_inv :
    (b : Bool) (body : Fields)
    → (if b then some old_body else none) ≡ some body
    → (b ≡ true) × (body ≡ old_body)
old_body_inv true body h = ground arith
old_body_inv false body h = cc

old_cacheable :
    (i : String) (o : Fields)
    → document_as i (before.bodies i) ≡ some o
    → IsOurs (entity backing_of o)
old_cacheable i o p =
    let (body, there, same) = document_as_inv i (before.bodies i) o p in
    let (named, old) = old_body_inv (i == "s1") body there in
    (
      false,
      ap (entity backing_of) (
            same
            ∙ ap (field "_id" (object_id i)) old
            ∙ ap (λ id. field "_id" (object_id id) old_body) ((eq_iff i "s1").0 named))
          ∙ old_subscription,
    )

saved_cacheable : IsOurs (
    entity backing_of (
      document_of backing_of rules_of
        (get_attributes (entity backing_of content))
        (rules_of.document before "s1")
        before))
unfolding rules_of entity new_subscription merged backing_of get_attributes revised_document
    as_stored
saved_cacheable = (true, refl)

get-save_example :
    (x : Subscription) × ((Subscriptions.save backing_of "s1" content before).0 ≡ ok x)
    × (seen_result backing_of rules_of
          (Subscriptions.get backing_of "s1"
            (Subscriptions.save backing_of "s1" content before).1).0
        ≡ seen_result backing_of rules_of (ok x))
    × (x.subscription_id ≡ str "s1")
    × (x.client_id ≡ str "c2")
    × (x.new_connections_listen ≡ true)
unfolding rules_of entity new_subscription merged backing_of as_stored
get-save_example =
    get-save backing_of rules_of before "s1" content keeps
      (empty-Coherent backing_of rules_of before (λ k. refl) old_cacheable) names_itself
      saved_cacheable
