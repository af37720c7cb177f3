-- ===== src/Subscriptions/Listing.antt =====
-- What `list` of src/modules/app/subscription/services/Subscription.service.ts makes of the entries of
-- the cache.
use node_back_end_boilerplat.Subscriptions
use node_back_end_boilerplat.Subscriptions.{Backing, entity}
use node_back_end_boilerplat.Storage.Redis
use node_back_end_boilerplat.Domain.Subscription.{Subscription}
use node_back_end_boilerplat.Prelude.{
  String, ◌≡◌, refl, ◌⊎◌, inl, inr, List, [], ◌∷◌, Option, subst, sym, eqb, map, length, false,
  true, ◌∙◌,
}
use node_back_end_boilerplat.Effects.{Result, ok, err, bind-eq-ok, ◌>>=◌, try_catch, continue, pure}
use node_back_end_boilerplat.Value.{Value, Fields, field, end, str, null}
use node_back_end_boilerplat.Storage.Json.{to_object}
use node_back_end_boilerplat.Storage.Redis.{string_or_null}

-- A property of every subscription of a list.
unfoldable pub All : {A : Type 0} → (A → Type 0) → List A → Type 0
All P [] = Unit
All P (x ∷ xs) = P x × All P xs

-- A subscription that neither its socket nor its client identifies.
abbrev pub IsNameless : Subscription → Type 0
IsNameless x = (x.subscription_id ≡ str "") × (x.client_id ≡ null)

-- An entry as `getByKeyPattern` answers it.
abbrev IsKeyAndValue : Fields → Type 0
IsKeyAndValue o =
    ((k : String) × (v : Value) × (o ≡ field "key" (str k) (field "value" v end))) ⊎ (o ≡ end)

ok_inv : {A : Type 0} (a b : A) → ok a ≡ ok b → a ≡ b
ok_inv a b h = cc

module _ {S : Type 0} (backing : Backing S) where
  entity-IsNameless : (o : Fields) → IsKeyAndValue o → IsNameless (entity backing o)
  unfolding entity
  entity-IsNameless o (inl (k, v, p)) =
      subst (λ e. IsNameless (entity backing e)) (sym p) (refl, refl)
  entity-IsNameless o (inr p) = subst (λ e. IsNameless (entity backing e)) (sym p) (refl, refl)

  read_cases :
      (key : String) (r : Result (Option String)) (s : S) (o : Fields)
      → (try_catch
          (λ _.
            continue r
              (λ value. pure (
                field "key"
                  (str key)
                  (field "value" (to_object backing.json (string_or_null value)) end)))
              s)
          (λ _. pure end)
          s).0
        ≡ ok o
      → IsKeyAndValue o
  unfolding try_catch
  read_cases key (ok value) s o h =
      inl (key, to_object backing.json (string_or_null value), ok_inv _ _ (sym h))
  read_cases key (err e) s o h = inr (ok_inv _ _ (sym h))

  read_entry-IsKeyAndValue :
      (key : String) (s : S) (o : Fields)
      → (Redis.read_entry backing.json backing.redis key s).0 ≡ ok o
      → IsKeyAndValue o
  unfolding Redis.read_entry try_catch ◌>>=◌
  read_entry-IsKeyAndValue key s o h =
      read_cases key (backing.redis.get_text key s).0 (backing.redis.get_text key s).1 o h

  read_entries_lem :
      (keys : List String) (s : S) (os : List Fields)
      → (Redis.read_entries backing.json backing.redis keys s).0 ≡ ok os
      → All IsKeyAndValue os
  unfolding Redis.read_entries All
  read_entries_lem [] s os h = subst (All IsKeyAndValue) (ok_inv _ _ h) tt
  read_entries_lem (key ∷ keys) s os h =
      let (o, p, q) = bind-eq-ok (Redis.read_entry backing.json backing.redis key) _ s os h in
      let t = (Redis.read_entry backing.json backing.redis key s).1 in
      let (rest, u, v) = bind-eq-ok (Redis.read_entries backing.json backing.redis keys) _ t os q in
      subst (All IsKeyAndValue) (ok_inv _ _ v)
        (read_entry-IsKeyAndValue key s o p, read_entries_lem keys t rest u)

  cached_entries :
      (s : S) (os : List Fields)
      → (Subscriptions.list_from_cache backing s).0 ≡ ok os
      → All IsKeyAndValue os
  unfolding Subscriptions.list_from_cache Redis.get_by_key_pattern
  cached_entries s os h =
      let (keys, p, q) = bind-eq-ok (backing.redis.keys_like "subscriptions:*") _ s os h in
      read_entries_lem keys _ os q

  nameless : (os : List Fields) → All IsKeyAndValue os → All IsNameless (map (entity backing) os)
  unfolding All
  nameless [] h = tt
  nameless (o ∷ os) (h, k) = (entity-IsNameless o h, nameless os k)

  list_of_cache :
      (s : S) (os : List Fields)
      → (Subscriptions.list_from_cache backing s).0 ≡ ok os
      → eqb (length os) 0 ≡ false
      → (Subscriptions.list backing true s).0 ≡ ok (map (entity backing) os)
  unfolding Subscriptions.list ◌>>=◌
  list_of_cache s os p n = rw (p, n)

  -- A list that comes from the cache identifies nothing: whatever entries there are, if there is one
  -- then every subscription of the list has the empty text for its socket and null for its client.
  pub list-IsNameless :
      (s : S) (os : List Fields) (xs : List Subscription)
      → (Subscriptions.list_from_cache backing s).0 ≡ ok os
      → eqb (length os) 0 ≡ false
      → (Subscriptions.list backing true s).0 ≡ ok xs
      → All IsNameless xs
  list-IsNameless s os xs p n h =
      subst (All IsNameless) (ok_inv _ _ (sym (list_of_cache s os p n) ∙ h))
        (nameless os (cached_entries s os p))
