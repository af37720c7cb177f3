-- ===== src/Subscriptions/Reading.antt =====
-- What `get` of src/modules/app/subscription/services/Subscription.service.ts answers and caches, on a
-- coherent cache, and what an expiry leaves.
use node_back_end_boilerplat.Subscriptions
use node_back_end_boilerplat.Subscriptions.{Backing, cache_key, entity}
use node_back_end_boilerplat.Subscriptions.Cached.{seen, seen_idempotent, seen_defined}
use node_back_end_boilerplat.Subscriptions.Coherence.{
  Behaves, Coherent, written, get_of_entry, get_of_document, get_of_none,
}
use node_back_end_boilerplat.Domain.Subscription.{Subscription}
use node_back_end_boilerplat.Domain.Subscription.Laws.{new_subscription-IsBuilt}
use node_back_end_boilerplat.Prelude.{
  String, true, false, ◌≡◌, refl, Bool, ◌⊎◌, inl, inr, Option, some, none, ◌==◌, if◌then◌else◌,
  Bool-cases, eq_iff, Option-cases, join_text, sym, ◌∙◌, ◌≢◌, ap, subst,
}
use node_back_end_boilerplat.Effects.{Result, ok, err, throw_exception}
use node_back_end_boilerplat.Exceptions.{not_found, plain_error}
use node_back_end_boilerplat.Value.{Fields, is_defined}
use node_back_end_boilerplat.Text.Laws.{join_text_cancel}

pub cache_key_injective : (id i : String) → (cache_key id == cache_key i) ≡ true → id ≡ i
unfolding cache_key
cache_key_injective id i h = join_text_cancel ":" id i (
    join_text_cancel "subscriptions" (join_text ":" id) (join_text ":" i)
      ((eq_iff (cache_key id) (cache_key i)).0 h))

pub some_inv : {A : Type 0} (a b : A) → some a ≡ some b → a ≡ b
some_inv a b h = cc

pub is_absent : {A : Type 0} {a : A} → none ≢ some a
is_absent h = cc

module _ {S : Type 0} (backing : Backing S) (rules : Behaves backing) where
  -- What the collection says, with the date of the last update as a text.
  unfoldable pub expected : Option Fields → Result Subscription
  expected none = throw_exception not_found (plain_error "Subscription not found!")
  expected (some o) = ok (seen rules.iso (entity backing o))

  unfoldable pub seen_result : Result Subscription → Result Subscription
  seen_result (ok x) = ok (seen rules.iso x)
  seen_result (err e) = err e

  pub entry_if :
      (id i : String) (x : Subscription) (s : S) (b : Bool)
      → (cache_key id == cache_key i) ≡ b
      → rules.entry (rules.put (cache_key id) (written backing rules x) s) (cache_key i)
        ≡ (if b then some (written backing rules x) else rules.entry s (cache_key i))
  entry_if id i x s b p =
      rules.entry_put _ _ _ s
      ∙ ap (λ c. if c then some (written backing rules x) else rules.entry s (cache_key i)) p

  entry_cases :
      (id i t : String) (x : Subscription) (s : S)
      → rules.entry (rules.put (cache_key id) (written backing rules x) s) (cache_key i) ≡ some t
      → ((id ≡ i) × (t ≡ written backing rules x)) ⊎ (rules.entry s (cache_key i) ≡ some t)
  entry_cases id i t x s h = elim (Bool-cases (cache_key id == cache_key i)) [
    | inl p ↦ inl (
      cache_key_injective id i p,
      some_inv t (written backing rules x) (sym h ∙ entry_if id i x s true p),
    )
    | inr p ↦ inr (sym (entry_if id i x s false p) ∙ h)
  ]

  put-Coherent :
      (id : String) (o : Fields) (x : Subscription) (s : S)
      → Coherent backing rules s
      → rules.document s id ≡ some o
      → rules.IsCacheable x
      → is_defined x.updated_at ≡ true
      → seen rules.iso x ≡ seen rules.iso (entity backing o)
      → Coherent backing rules (rules.put (cache_key id) (written backing rules x) s)
  put-Coherent id o x s c d h u e = record {
    documents_cacheable =
        λ i o' p. c.documents_cacheable i o' (sym (rules.document_put _ _ i s) ∙ p);
    entries = λ i t p. elim (entry_cases id i t x s p) [
      | inl (same_id, q) ↦ (
        o,
        rules.document_put _ _ i s ∙ ap (rules.document s) (sym same_id) ∙ d,
        record { cached = x; cacheable = h; cached_defined = u; same = e; text = q },
      )
      | inr q ↦
          let (o', d', entry) = c.entries i t q in (o', rules.document_put _ _ i s ∙ d', entry)
    ];
  }

  pub entity_defined : (o : Fields) → is_defined (entity backing o).updated_at ≡ true
  unfolding entity
  entity_defined o = (new_subscription-IsBuilt backing.clock backing.string_of o).updated_at_defined

  -- Either of the three ways that `get` goes, it answers as the collection says, and leaves the cache
  -- coherent and the documents as they are.
  pub record Refines (id : String) (s : S) (answer : Result Subscription × S) : Type 0 where
    pub as_expected : seen_result answer.0 ≡ expected (rules.document s id)
    pub coherent : Coherent backing rules answer.1
    pub documents_kept : (i : String) → rules.document answer.1 i ≡ rules.document s i

  from_entry :
      (id t : String) (s : S)
      → Coherent backing rules s
      → rules.entry s (cache_key id) ≡ some t
      → Refines id s (Subscriptions.get backing id s)
  unfolding expected seen_result
  from_entry id t s c p =
      let (o, d, e) = c.entries id t p in
      let x = seen rules.iso e.cached in
      subst (Refines id s) (sym (get_of_entry backing rules id t o s e p)) (record {
        as_expected = rw (seen_idempotent rules.iso e.cached, e.same, d);
        coherent =
            put-Coherent id o x s c d (rules.cacheable_seen e.cached e.cacheable)
              (seen_defined rules.iso e.cached e.cached_defined)
              (seen_idempotent rules.iso e.cached ∙ e.same);
        documents_kept = λ i. rules.document_put _ _ i s;
      })

  from_document :
      (id : String) (o : Fields) (s : S)
      → Coherent backing rules s
      → rules.entry s (cache_key id) ≡ none
      → rules.document s id ≡ some o
      → Refines id s (Subscriptions.get backing id s)
  unfolding expected seen_result
  from_document id o s c p d =
      subst (Refines id s) (sym (get_of_document backing rules id o s p d)) (record {
        as_expected = rw d;
        coherent =
            put-Coherent id o (entity backing o) s c d (c.documents_cacheable id o d)
              (entity_defined o) refl;
        documents_kept = λ i. rules.document_put _ _ i s;
      })

  from_none :
      (id : String) (s : S)
      → Coherent backing rules s
      → rules.entry s (cache_key id) ≡ none
      → rules.document s id ≡ none
      → Refines id s (Subscriptions.get backing id s)
  unfolding expected seen_result
  from_none id s c p d =
      subst (Refines id s) (sym (get_of_none backing rules id s p d))
        (record { as_expected = rw d; coherent = c; documents_kept = λ i. refl })

  pub refines :
      (id : String) (s : S)
      → Coherent backing rules s
      → Refines id s (Subscriptions.get backing id s)
  refines id s c = elim (Option-cases (rules.entry s (cache_key id))) [
    | inr (t, p) ↦ from_entry id t s c p
    | inl p ↦ elim (Option-cases (rules.document s id)) [
      | inr (o, d) ↦ from_document id o s c p d
      | inl d ↦ from_none id s c p d
    ]
  ]

  pub expired_keeps :
      (s t : S)
      → Coherent backing rules s
      → ((id : String) → rules.document t id ≡ rules.document s id)
      → ((k : String) → (rules.entry t k ≡ none) ⊎ (rules.entry t k ≡ rules.entry s k))
      → Coherent backing rules t
  expired_keeps s t c documents gone = record {
    documents_cacheable = λ i o p. c.documents_cacheable i o (sym (documents i) ∙ p);
    entries = λ i text p. elim (gone (cache_key i)) [
      | inl q ↦ absurd (is_absent (sym q ∙ p))
      | inr q ↦ let (o, d, e) = c.entries i text (sym q ∙ p) in (o, documents i ∙ d, e)
    ];
  }
