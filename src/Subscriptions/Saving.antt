-- ===== src/Subscriptions/Saving.antt =====
-- What `save` of src/modules/app/subscription/services/Subscription.service.ts answers and leaves of a
-- coherent cache.
use node_back_end_boilerplat.Subscriptions
use node_back_end_boilerplat.Subscriptions.{Backing, cache_key, entity}
use node_back_end_boilerplat.Subscriptions.Coherence.{Behaves, Coherent, written, save_on_cache_lem}
use node_back_end_boilerplat.Subscriptions.Reading.{
  some_inv, cache_key_injective, entity_defined, entry_if,
}
use node_back_end_boilerplat.Subscriptions.Deletion.{key_differs}
use node_back_end_boilerplat.Storage.Mongo
use node_back_end_boilerplat.Domain.Subscription.{Subscription, get_attributes}
use node_back_end_boilerplat.Effects.{ok, ◌>>=◌}
use node_back_end_boilerplat.Value.{Fields, get, str}
use node_back_end_boilerplat.Prelude.{
  String, Bool, true, false, ◌≡◌, refl, Option, some, none, ◌==◌, if◌then◌else◌, Bool-cases, eq_iff,
  sym, ◌∙◌, ap, inl, inr, subst,
}

module _ {S : Type 0} (backing : Backing S) (rules : Behaves backing) where
  -- The store after the document is written, and the document.
  abbrev pub stored : Fields → Option Fields → S → S
  stored n none s = rules.insert n s
  stored n (some o) s = rules.update (get "_id" o) n s

  abbrev pub document_of : Fields → Option Fields → S → Fields
  document_of n none s = rules.fresh n s
  document_of n (some o) s = rules.revised o n

  -- One document is written, and no entry.
  pub record Writes (id : String) (o : Fields) (s w : S) : Type 0 where
    pub same_entries : (k : String) → rules.entry w k ≡ rules.entry s k
    pub documents :
        (i : String) → rules.document w i ≡ (if id == i then some o else rules.document s i)

  pub stored-Writes :
      (id : String) (n : Fields) (found : Option Fields) (s : S)
      → rules.document s id ≡ found
      → get "subscriptionId" n ≡ str id
      → Writes id (document_of n found s) s (stored n found s)
  stored-Writes id n none s p q = record {
    same_entries = λ k. rules.entry_insert n k s;
    documents = λ i. rules.document_insert id i n s p q;
  }
  stored-Writes id n (some o) s p q = record {
    same_entries = λ k. rules.entry_update (get "_id" o) n k s;
    documents = λ i. rules.document_update id i o n s p q;
  }

  pub named : (x : Subscription) → get "subscriptionId" (get_attributes x) ≡ x.subscription_id
  unfolding get_attributes
  named x = refl

  written_if :
      (id i : String) (o : Fields) (s w : S) (b : Bool)
      → Writes id o s w
      → (id == i) ≡ b
      → rules.document w i ≡ (if b then some o else rules.document s i)
  written_if id i o s w b h p = h.documents i ∙ ap (λ c. if c then some o else rules.document s i) p

  pub own : (id : String) (o : Fields) (s w : S) → Writes id o s w → rules.document w id ≡ some o
  own id o s w h =
      h.documents id ∙ ap (λ b. if b then some o else rules.document s id) ((eq_iff id id).1 refl)

  others :
      (id i : String) (o : Fields) (s w : S)
      → Writes id o s w
      → (id == i) ≡ false
      → rules.document w i ≡ rules.document s i
  others id i o s w h p = h.documents i ∙ ap (λ b. if b then some o else rules.document s i) p

  read_back_lem :
      (id : String) (o : Fields) (w : S)
      → rules.document w id ≡ some o
      → Subscriptions.read_back backing id (get "_id" o) w ≡ (
        ok (entity backing o),
        rules.put (cache_key id) (written backing rules (entity backing o)) w,
      )
  unfolding Subscriptions.read_back Subscriptions.cache_document Mongo.get ◌>>=◌
  read_back_lem id o w p = rw (
    rules.finds_id id w o p,
    rules.identified id w o p,
    save_on_cache_lem backing rules id (entity backing o) w,
  )

  -- `save` answers the subscription of the document that it leaves, and caches it.
  pub save_lem :
      (id : String) (content : Fields) (found : Option Fields) (s : S)
      → rules.document s id ≡ found
      → (entity backing content).subscription_id ≡ str id
      → let n = get_attributes (entity backing content) in
        let o = document_of n found s in
        Subscriptions.save backing id content s ≡ (
          ok (entity backing o),
          rules.put (cache_key id) (written backing rules (entity backing o)) (stored n found s),
        )
  unfolding Subscriptions.save Subscriptions.write_document Mongo.find_one Mongo.insert_one
      Mongo.update_one ◌>>=◌
  save_lem id content none s p q =
      let n = get_attributes (entity backing content) in
      let o = rules.fresh n s in
      let w = rules.insert n s in
      let there = own id o s w (stored-Writes id n none s p (named (entity backing content) ∙ q)) in
      rw (rules.finds, p, rules.inserts, rules.identified id w o there, read_back_lem id o w there)
  save_lem id content (some d) s p q =
      let n = get_attributes (entity backing content) in
      let o = rules.revised d n in
      let w = rules.update (get "_id" d) n s in
      let there =
        own id o s w (stored-Writes id n (some d) s p (named (entity backing content) ∙ q)) in
      rw (rules.finds, p, rules.identified id s d p, rules.updates, rules.identified id s d p)
        (subst
          (λ v. Subscriptions.read_back backing id v w ≡ (
            ok (entity backing o),
            rules.put (cache_key id) (written backing rules (entity backing o)) w,
          ))
          (rules.revised_id d n) (read_back_lem id o w there))

  -- The cache stays coherent, if the subscription that is saved can be cached.
  pub save-Coherent :
      (id : String) (o : Fields) (s w : S)
      → Coherent backing rules s
      → Writes id o s w
      → rules.IsCacheable (entity backing o)
      → Coherent backing rules
          (rules.put (cache_key id) (written backing rules (entity backing o)) w)
  save-Coherent id o s w c h cacheable = record {
    documents_cacheable = λ i d p. elim (Bool-cases (id == i)) [
      | inl q ↦
          subst (λ x. rules.IsCacheable (entity backing x))
            (some_inv o d
              (sym (written_if id i o s w true h q) ∙ sym (rules.document_put _ _ i w) ∙ p))
            cacheable
      | inr q ↦
          c.documents_cacheable i d
            (sym (others id i o s w h q) ∙ sym (rules.document_put _ _ i w) ∙ p)
    ];
    entries = λ i t p. elim (Bool-cases (cache_key id == cache_key i)) [
      | inl q ↦ (
        o,
        rules.document_put _ _ i w
            ∙ ap (rules.document w) (sym (cache_key_injective id i q))
            ∙ own id o s w h,
        record {
          cached = entity backing o;
          cacheable = cacheable;
          cached_defined = entity_defined backing rules o;
          same = refl;
          text =
              some_inv t (written backing rules (entity backing o))
                (sym p ∙ entry_if backing rules id i (entity backing o) w true q);
        },
      )
      | inr q ↦
          let before =
            sym (h.same_entries (cache_key i))
            ∙ sym (entry_if backing rules id i (entity backing o) w false q)
            ∙ p in
          let (d, there, entry) = c.entries i t before in
          (
            d,
            rules.document_put _ _ i w
                ∙ others id i o s w h (key_differs backing rules id i q)
                ∙ there,
            entry,
          )
    ];
  }
