-- ===== src/Webhook/Pulled.antt =====
-- What a pull of src/modules/app/hook/services/Webhook.service.ts does, and that failures of one hook do not
-- keep it from the others.
use node_back_end_boilerplat.Prelude.{
  ℕ, ◌≡◌, refl, ap, ◌∙◌, Bool-cases, inl, inr, List, [], ◌∷◌, length, if◌then◌else◌, String, Bool,
  suc,
}
use node_back_end_boilerplat.Value.{Value, str}
use node_back_end_boilerplat.Effects.{Result, ok, ◌>>=◌}
use node_back_end_boilerplat.Effects.Runs.{bind_goes_on}
use node_back_end_boilerplat.Webhook.{
  Hooks, hook_key, is_due, pull_all, pull_one, send_hook, start, delete,
}
use node_back_end_boilerplat.Webhook.Due.{entries_of, hook_id_of-hook_key}

module _ {S : Type 0} (hooks : Hooks S) where
  -- The hooks that are due.
  pub due_hooks : ℕ → List (String × Value) → List (String × Value)
  due_hooks now [] = []
  due_hooks now (hook ∷ listed) =
      let rest = due_hooks now listed in if is_due hooks now hook.1 then hook ∷ rest else rest

module _ {S : Type 0} (hooks : Hooks S) (schema : String) (data_ : Value) where
  -- A visit of a hook: it is sent, and then deleted by its own identifier, whatever both give.
  pub visit : String × Value → S → S
  visit (id, hook) s = (delete hooks id schema (send_hook hooks hook data_ s).1).1

  pub visits : List (String × Value) → S → S
  visits [] s = s
  visits (hook ∷ listed) s = visits listed (visit hook s)

  pull_one_lem :
      (id : String) (hook : Value) (s : S)
      → (outcome : Result (Unit {0}) × Result Bool) × (pull_one hooks schema data_
            (str (hook_key schema id), hook)
            s
          ≡ (ok outcome, visit (id, hook) s))
  unfolding pull_one start ◌>>=◌ visit
  pull_one_lem id hook s = (
    _,
    ap
        (λ i. (
          ok (
            (send_hook hooks hook data_ s).0,
            (delete hooks i schema (send_hook hooks hook data_ s).1).0,
          ),
          (delete hooks i schema (send_hook hooks hook data_ s).1).1,
        ))
        (hook_id_of-hook_key schema id),
  )

  -- A pull visits just the hooks that are due, each once and in order, and none is kept from it by what another
  -- one throws: the loop returns an outcome for each of them, and leaves what the visits leave.
  pub pull_all-eq-visits :
      (now : ℕ) (listed : List (String × Value)) (s : S)
      → (outcomes : List (Result (Unit {0}) × Result Bool)) × (pull_all hooks schema data_ now
            (entries_of schema listed)
            s
          ≡ (ok outcomes, visits (due_hooks hooks now listed) s))
        × (length outcomes ≡ length (due_hooks hooks now listed))
  unfolding pull_all entries_of visits due_hooks
  pull_all-eq-visits now [] s = ([], refl, refl)
  pull_all-eq-visits now ((id, hook) ∷ listed) s = elim (Bool-cases (is_due hooks now hook)) [
    | inl due ↦
        let (outcome, one) = pull_one_lem id hook s in
        let (outcomes, run, same) = pull_all-eq-visits now listed (visit (id, hook) s) in
        (
          outcome ∷ outcomes,
          rw due (
              bind_goes_on _ _ s (visit (id, hook) s) outcome one
              ∙ bind_goes_on _ _ (visit (id, hook) s) _ outcomes run),
          rw due (ap suc same),
        )
    | inr later ↦
        let (outcomes, run, same) = pull_all-eq-visits now listed s in
        (outcomes, rw later run, rw later same)
  ]
