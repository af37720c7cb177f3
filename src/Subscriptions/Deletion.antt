-- ===== src/Subscriptions/Deletion.antt =====
-- What `delete` of src/modules/app/subscription/services/Subscription.service.ts leaves of a coherent
-- cache.
use node_back_end_boilerplat.Subscriptions
use node_back_end_boilerplat.Value
use node_back_end_boilerplat.Subscriptions.{Backing, cache_key, entity}
use node_back_end_boilerplat.Subscriptions.Coherence.{Behaves, Coherent}
use node_back_end_boilerplat.Prelude.{
  String, true, false, ◌≡◌, refl, Bool, ◌⊎◌, inl, inr, Option, some, none, ◌==◌, if◌then◌else◌,
  Bool-cases, eq_iff, sym, ◌∙◌, ap, subst,
}
use node_back_end_boilerplat.Effects.{◌>>=◌}
use node_back_end_boilerplat.Value.{Fields, is_defined, truthy}
use mathlib.Core.Bool.{false≢true}
use node_back_end_boilerplat.Subscriptions.Reading.{is_absent}

module _ {S : Type 0} (backing : Backing S) (rules : Behaves backing) where
  -- The store after the document of a subscription is deleted, if it has one.
  abbrev pub erased : S → Option Fields → S
  erased s none = s
  erased s (some o) = if truthy (Value.get "_id" o) then rules.erase (Value.get "_id" o) s else s

  pub delete_lem :
      (id : String) (s : S) (found : Option Fields)
      → rules.document s id ≡ found
      → (Subscriptions.delete backing id s).1 ≡ rules.drop (cache_key id) (erased s found)
  unfolding Subscriptions.delete Subscriptions.delete_document Subscriptions.delete_from_cache ◌>>=◌
  delete_lem id s none p = rw (rules.finds, p, rules.removes)
  delete_lem id s (some o) p = elim (Bool-cases (truthy (Value.get "_id" o))) [
    | inl q ↦ rw (rules.finds, p, q, rules.deletes, rules.removes)
    | inr q ↦ rw (rules.finds, p, q, rules.removes)
  ]

  -- Another subscription keeps its entry and its document.
  pub record Spares (id : String) (s u : S) : Type 0 where
    pub same_entries : (k : String) → rules.entry u k ≡ rules.entry s k
    pub others : (i : String) → (id == i) ≡ false → rules.document u i ≡ rules.document s i
    pub own : (rules.document u id ≡ none) ⊎ (rules.document u id ≡ rules.document s id)

  others_kept :
      (id : String) (o : Fields) (s : S) (b : Bool)
      → rules.document s id ≡ some o
      → Spares id s (if b then rules.erase (Value.get "_id" o) s else s)
  others_kept id o s true p = record {
    same_entries = λ k. rules.entry_erase (Value.get "_id" o) k s;
    others =
        λ i h. rules.document_erase id i o s p ∙ ap (λ b. if b then none else rules.document s i) h;
    own = inl (
        rules.document_erase id id o s p
        ∙ ap (λ b. if b then none else rules.document s id) ((eq_iff id id).1 refl));
  }
  others_kept id o s false p = record {
    same_entries = λ k. refl;
    others = λ i h. refl;
    own = inr refl;
  }

  pub erased-Spares :
      (id : String) (s : S) (found : Option Fields)
      → rules.document s id ≡ found
      → Spares id s (erased s found)
  erased-Spares id s none p = record {
    same_entries = λ k. refl;
    others = λ i h. refl;
    own = inr refl;
  }
  erased-Spares id s (some o) p = others_kept id o s (truthy (Value.get "_id" o)) p

  -- A document is gone or as it was.
  spared :
      (id i : String) (s u : S)
      → Spares id s u
      → (rules.document u i ≡ none) ⊎ (rules.document u i ≡ rules.document s i)
  spared id i s u h = elim (Bool-cases (id == i)) [
    | inl p ↦
        subst (λ j. (rules.document u j ≡ none) ⊎ (rules.document u j ≡ rules.document s j))
          ((eq_iff id i).0 p) h.own
    | inr p ↦ inr (h.others i p)
  ]

  dropped_if :
      (id i : String) (u : S) (b : Bool)
      → (cache_key id == cache_key i) ≡ b
      → rules.entry (rules.drop (cache_key id) u) (cache_key i)
        ≡ (if b then none else rules.entry u (cache_key i))
  dropped_if id i u b p =
      rules.entry_drop _ _ u ∙ ap (λ c. if c then none else rules.entry u (cache_key i)) p

  -- Subscriptions whose keys differ differ.
  pub key_differs : (id i : String) → (cache_key id == cache_key i) ≡ false → (id == i) ≡ false
  key_differs id i p = elim (Bool-cases (id == i)) [
    | inl q ↦ absurd (
        false≢true
          (sym p ∙ (eq_iff (cache_key id) (cache_key i)).1 (ap cache_key ((eq_iff id i).0 q))))
    | inr q ↦ q
  ]

  kept_entry :
      (id i t : String) (s u : S)
      → Spares id s u
      → rules.entry (rules.drop (cache_key id) u) (cache_key i) ≡ some t
      → ((id == i) ≡ false) × (rules.entry s (cache_key i) ≡ some t)
  kept_entry id i t s u h p = elim (Bool-cases (cache_key id == cache_key i)) [
    | inl q ↦ absurd (is_absent (sym (dropped_if id i u true q) ∙ p))
    | inr q ↦ (
      key_differs id i q,
      sym (h.same_entries (cache_key i)) ∙ sym (dropped_if id i u false q) ∙ p,
    )
  ]

  pub drop-Coherent :
      (id : String) (s u : S)
      → Coherent backing rules s
      → Spares id s u
      → Coherent backing rules (rules.drop (cache_key id) u)
  drop-Coherent id s u c h = record {
    documents_cacheable = λ i o p. elim (spared id i s u h) [
      | inl q ↦ absurd (is_absent (sym q ∙ sym (rules.document_drop _ i u) ∙ p))
      | inr q ↦ c.documents_cacheable i o (sym q ∙ sym (rules.document_drop _ i u) ∙ p)
    ];
    entries = λ i t p.
        let (differs, q) = kept_entry id i t s u h p in
        let (o, d, e) = c.entries i t q in
        (o, rules.document_drop _ i u ∙ h.others i differs ∙ d, e);
  }
