-- ===== src/Subscriptions/Refinement.antt =====
-- `get` of src/modules/app/subscription/services/Subscription.service.ts against the collection alone,
-- over any number of calls of `get`,
-- `save` and `delete` and expiries.
use node_back_end_boilerplat.Subscriptions
use node_back_end_boilerplat.Subscriptions.{
  Backing, cache_key, entity, get_attributes, ok, Subscription,
}
use node_back_end_boilerplat.Subscriptions.Coherence.{Behaves, Coherent}
use node_back_end_boilerplat.Prelude.{String, ◌≡◌, refl, ◌⊎◌, some, none, sym, ◌∙◌, subst, ap}
use node_back_end_boilerplat.Value.{Fields, str}
use node_back_end_boilerplat.Subscriptions.Reading.{
  expected, seen_result, refines, expired_keeps, is_absent,
}
use node_back_end_boilerplat.Subscriptions.Saving.{
  save_lem, save-Coherent, stored-Writes, stored, document_of, named, own,
}
use node_back_end_boilerplat.Subscriptions.Deletion.{delete_lem, erased-Spares, drop-Coherent}
use node_back_end_boilerplat.Subscriptions.Contents.{KeepsFields, as_stored, written-Holds}
use node_back_end_boilerplat.Domain.Subscription.{Subscription}

module _ {S : Type 0} (backing : Backing S) (rules : Behaves backing) where
  -- A call of `get`, of `delete`, or of `save` with the identifier that its data name and with what can
  -- be cached, or an entry of the cache that is gone.
  pub data Step (s : S) : S → Type 0 where
    got : (id : String) → Step s (Subscriptions.get backing id s).1
    deleted : (id : String) → Step s (Subscriptions.delete backing id s).1
    saved :
        (id : String) (content : Fields)
        → (entity backing content).subscription_id ≡ str id
        → rules.IsCacheable (
            entity backing (
              document_of backing rules
                (get_attributes (entity backing content))
                (rules.document s id)
                s))
        → Step s (Subscriptions.save backing id content s).1
    expired :
        (t : S)
        → ((id : String) → rules.document t id ≡ rules.document s id)
        → ((k : String) → (rules.entry t k ≡ none) ⊎ (rules.entry t k ≡ rules.entry s k))
        → Step s t

  pub data Reach (s : S) : S → Type 0 where
    here : Reach s s
    after : (t u : S) → Reach s t → Step t u → Reach s u

  kept_once : (s t : S) → Coherent backing rules s → Step s t → Coherent backing rules t
  kept_once s t c (got id) = (refines backing rules id s c).coherent
  kept_once s t c (deleted id) =
      subst (Coherent backing rules)
        (sym (delete_lem backing rules id s (rules.document s id) refl))
        (drop-Coherent backing rules id s _ c
          (erased-Spares backing rules id s (rules.document s id) refl))
  kept_once s t c (saved id content named_so cacheable) =
      let n = get_attributes (entity backing content) in
      let found = rules.document s id in
      subst (Coherent backing rules)
        (sym (ap (λ r. r.1) (save_lem backing rules id content found s refl named_so)))
        (save-Coherent backing rules id (document_of backing rules n found s) s
          (stored backing rules n found s) c
          (stored-Writes backing rules id n found s refl
            (named backing rules (entity backing content) ∙ named_so))
          cacheable)
  kept_once s t c (expired _ documents gone) = expired_keeps backing rules s t c documents gone

  kept_throughout : (s t : S) → Coherent backing rules s → Reach s t → Coherent backing rules t
  kept_throughout s t c here = c
  kept_throughout s u c (after t _ r step) = kept_once t u (kept_throughout s t c r) step

  pub empty-Coherent :
      (s : S)
      → ((k : String) → rules.entry s k ≡ none)
      → ((id : String) (o : Fields)
          → rules.document s id ≡ some o
          → rules.IsCacheable (entity backing o))
      → Coherent backing rules s
  empty-Coherent s none_there cacheable = record {
    documents_cacheable = cacheable;
    entries = λ i t p. absurd (is_absent (sym (none_there (cache_key i)) ∙ p));
  }

  -- Whatever calls of `get`, `save` and `delete` and expiries there were since the cache was empty, a
  -- call of `get` answers what the collection holds now, up to the date of the last update, which an
  -- entry of the cache has as a text: the subscription of its document, or that it is not found. It is
  -- so where each call of `save` is given the identifier that its data name, where the documents can
  -- be cached as JSON, and where Redis, Mongo and JSON behave.
  pub get_refines_collection :
      (s t : S) (id : String)
      → ((k : String) → rules.entry s k ≡ none)
      → ((i : String) (o : Fields)
          → rules.document s i ≡ some o
          → rules.IsCacheable (entity backing o))
      → Reach s t
      → seen_result backing rules (Subscriptions.get backing id t).0
        ≡ expected backing rules (rules.document t id)
  get_refines_collection s t id no_entry cacheable r =
      (refines backing rules id t
        (kept_throughout s t (empty-Coherent s no_entry cacheable) r)).as_expected

  answered :
      (o : Fields)
      → expected backing rules (some o) ≡ seen_result backing rules (ok (entity backing o))
  unfolding expected seen_result
  answered o = refl

  -- What was saved is read: where the cache is coherent, a call of `save` with the identifier that its
  -- data name, and with what can be cached, returns a subscription of this identifier, with the client
  -- that the data name, as it is stored, and with their listening flag; and a call of `get` after it answers
  -- the same subscription, up to the date of the last update; if Redis, Mongo and JSON behave, and if an
  -- insertion and a `$set` keep the fields that they are given.
  pub get-save :
      (s : S) (id : String) (content : Fields)
      → KeepsFields backing rules
      → Coherent backing rules s
      → (entity backing content).subscription_id ≡ str id
      → rules.IsCacheable (
          entity backing (
            document_of backing rules
              (get_attributes (entity backing content))
              (rules.document s id)
              s))
      → (x : Subscription) × ((Subscriptions.save backing id content s).0 ≡ ok x)
        × (seen_result backing rules
              (Subscriptions.get backing id (Subscriptions.save backing id content s).1).0
            ≡ seen_result backing rules (ok x))
        × (x.subscription_id ≡ str id)
        × (x.client_id ≡ as_stored (entity backing content).client_id)
        × (x.new_connections_listen ≡ (entity backing content).new_connections_listen)
  get-save s id content keeps c named_so cacheable =
      let n = get_attributes (entity backing content) in
      let o = document_of backing rules n (rules.document s id) s in
      let result = save_lem backing rules id content (rules.document s id) s refl named_so in
      let writes =
        stored-Writes backing rules id n (rules.document s id) s refl
          (named backing rules (entity backing content) ∙ named_so) in
      let t = (Subscriptions.save backing id content s).1 in
      let holds =
        written-Holds backing rules keeps (entity backing content) id (rules.document s id) s
          named_so in
      (
        entity backing o,
        ap (λ r. r.0) result,
        (refines backing rules id t
              (kept_once s t c (saved id content named_so cacheable))).as_expected
            ∙ ap (expected backing rules) (
                ap (λ r. rules.document r.1 id) result
                ∙ rules.document_put _ _ id _
                ∙ own backing rules id o s _ writes)
            ∙ answered o,
        holds.same_subscription,
        holds.same_client,
        holds.same_listening,
      )
