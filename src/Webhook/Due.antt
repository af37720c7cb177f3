-- ===== src/Webhook/Due.antt =====
-- What a pull of src/modules/app/hook/services/Webhook.service.ts deletes.
use Prim.Native.String.{String}
use node_back_end_boilerplat.Webhook.{
  Hooks, hook_key, hook_id_of, is_due, pull_all, pull_one, send_hook, start, delete, get_id,
}
use node_back_end_boilerplat.Rest.{request_hook, make_request}
use node_back_end_boilerplat.Text.Laws.{join_text_assoc, remove_first_of_prefix}
use node_back_end_boilerplat.Prelude.{
  ℕ, true, ◌≡◌, sym, ap, ◌∙◌, Bool-cases, inl, inr, List, [], ◌∷◌, join_text, subst, ltb,
}
use node_back_end_boilerplat.Value.{Value, str}
use node_back_end_boilerplat.Effects.{Exec}
use node_back_end_boilerplat.Effects.Preserves.{
  Preserves, preserves_rules, Preserves-bind, Preserves-pure, Preserves-bind_of_lift,
}
use node_back_end_boilerplat.Storage.Redis.{get_id}
use node_back_end_boilerplat.Text.{remove_first}

-- Taking the pattern out of a key gives back what stands behind it.
get_id_lem :
    (pattern rest : String) → get_id (join_text pattern (join_text ":" rest)) pattern ≡ rest
unfolding get_id
get_id_lem pattern rest =
    ap (remove_first (join_text pattern ":")) (sym (join_text_assoc pattern ":" rest))
    ∙ remove_first_of_prefix pattern rest ":"

-- The identifier that is read from a hook's key is the hook's.
pub hook_id_of-hook_key : (schema id : String) → hook_id_of schema (hook_key schema id) ≡ id
unfolding hook_id_of hook_key
hook_id_of-hook_key schema id =
    ap (λ k. get_id k schema) (get_id_lem "hooks" (join_text schema (join_text ":" id)))
    ∙ get_id_lem schema id

-- An element of a list.
pub data IsAmong {A : Type 0} (x : A) : List A → Type 0 where
  at_head : (xs : List A) → IsAmong x (x ∷ xs)
  further : (y : A) (xs : List A) → IsAmong x xs → IsAmong x (y ∷ xs)

-- The entries of hooks, by their identifiers.
unfoldable pub entries_of : String → List (String × Value) → List (Value × Value)
unfolding hook_key
entries_of schema [] = []
entries_of schema ((id, hook) ∷ hooks) = (str (hook_key schema id), hook) ∷ entries_of schema hooks

Preserves-start :
    {S A : Type 0} {P : S → Type 0} (m : Exec S A) → Preserves P m → Preserves P (start m)
unfolding start
Preserves-start m h = record { keeps = h.keeps }

module _ {S : Type 0} (hooks : Hooks S) {P : S → Type 0} where
  send_hook-Preserves :
      (hook data_ : Value)
      → ((method endpoint : String) (query body : Value)
          → Preserves P (hooks.request method endpoint query body))
      → Preserves P (send_hook hooks hook data_)
  unfolding send_hook request_hook make_request
  send_hook-Preserves hook data_ requests = search (preserves_rules, requests)

  pull_one-Preserves :
      (schema id : String) (data_ hook : Value)
      → ((method endpoint : String) (query body : Value)
          → Preserves P (hooks.request method endpoint query body))
      → Preserves P (hooks.redis.remove_key (hook_key schema id))
      → Preserves P (pull_one hooks schema data_ (str (hook_key schema id), hook))
  unfolding pull_one delete
  pull_one-Preserves schema id data_ hook requests removes =
      let deletes =
        subst (λ i. Preserves P (hooks.redis.remove_key (hook_key schema i)))
          (sym (hook_id_of-hook_key schema id)) removes in
      Preserves-bind _ _ (Preserves-start _ (send_hook-Preserves hook data_ requests)) (λ pulled.
        Preserves-bind_of_lift (hook_key schema id) _ (
          Preserves-bind _ _
            (Preserves-start _
              (Preserves-bind _ _ deletes (λ deleted. Preserves-pure (ltb 0 deleted))))
            (λ outcome. Preserves-pure (pulled, outcome))))

  -- A pull deletes no entry but those of hooks that are due, each by its own key: whatever the requests
  -- keep, and the deletions of the keys of the due hooks among those listed keep, the whole pull keeps.
  pub pull_all-Preserves :
      (schema : String) (data_ : Value) (now : ℕ) (listed : List (String × Value))
      → ((method endpoint : String) (query body : Value)
          → Preserves P (hooks.request method endpoint query body))
      → ((id : String) (hook : Value)
          → IsAmong (id, hook) listed
          → is_due hooks now hook ≡ true
          → Preserves P (hooks.redis.remove_key (hook_key schema id)))
      → Preserves P (pull_all hooks schema data_ now (entries_of schema listed))
  unfolding pull_all entries_of
  pull_all-Preserves schema data_ now [] requests removes = Preserves-pure []
  pull_all-Preserves schema data_ now ((id, hook) ∷ listed) requests removes =
      let rest =
        pull_all-Preserves schema data_ now listed requests
          (λ i h among due. removes i h (further (id, hook) listed among) due) in
      elim (Bool-cases (is_due hooks now hook)) [
        | inl due ↦ rw due (
            Preserves-bind _ _
              (pull_one-Preserves schema id data_ hook requests
                (removes id hook (at_head listed) due))
              (λ outcome.
                Preserves-bind _ _ rest (λ outcomes. Preserves-pure (outcome ∷ outcomes))))
        | inr later ↦ rw later rest
      ]
