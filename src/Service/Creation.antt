-- ===== src/Service/Creation.antt =====
-- What `create` of src/modules/app/user/services/User.service.ts leaves, where it returns.
use Prim.Native.String.{String}
use node_back_end_boilerplat.Prelude.{
  String, Bool-cases, ◌≡◌, refl, Option, none, some, ap, arith, ◌∙◌, subst, or_else, inl, inr,
  is_truthy,
}
use node_back_end_boilerplat.Exceptions.{business}
use node_back_end_boilerplat.Effects.{ok, pure, ◌>>=◌, ◌>>◌, Result-cases}
use node_back_end_boilerplat.Effects.Runs.{bind_run, try_catch_run, bind_result_run}
use node_back_end_boilerplat.Domain.Dates.{Clock}
use node_back_end_boilerplat.Domain.User.{
  User, UserValues, new_user, set_password, set_preference, build_preference,
}
use node_back_end_boilerplat.Domain.UserPreference.{
  no_preference_values, UserPreference, new_user_preference,
}
use node_back_end_boilerplat.Password.{Crypto, protect_password}
use node_back_end_boilerplat.Repository.Abstract
use node_back_end_boilerplat.Repository.Users.{
  UserTable, to_domain_entity, to_database_entity, ensure_preference, user_mapper,
}
use node_back_end_boilerplat.Service.Guarded.{require_found, or_caught}
use node_back_end_boilerplat.Service.Users.{create, get_by_email, given_password, is_taken}

ensured_id :
    (clock : Clock) (values : UserValues) (user u : User) (p : Option UserPreference)
    → ensure_preference clock values user p ≡ ok u
    → u.id ≡ user.id
unfolding ensure_preference set_preference
ensured_id clock values user u (some p) h = ground arith
ensured_id clock values user u none h =
    let (p, _, same) =
      bind_result_run
        (new_user_preference clock
          (record (or_else values.preference no_preference_values) { user_id = values.id }))
        (λ p. ok (set_preference p user)) u h in
    ground arith

new_user_id :
    (clock : Clock) (values : UserValues) (u : User)
    → new_user clock values ≡ ok u
    → u.id ≡ values.id
unfolding new_user
new_user_id clock values u h = elim (Result-cases (build_preference clock values.preference)) [
  | inl (p, built_preference) ↦ ground (arith, built_preference)
  | inr (e, failed_preference) ↦ ground (arith, failed_preference)
]

-- An entity has the identifier of its register.
entity_id :
    (clock : Clock) (values : UserValues) (u : User)
    → to_domain_entity clock values ≡ ok u
    → u.id ≡ values.id
unfolding to_domain_entity
entity_id clock values u h =
    let (user, built_user, ensured) =
      bind_result_run (new_user clock values)
        (λ user. ensure_preference clock values user user.preference) u h in
    ensured_id clock values user u user.preference ensured
    ∙ new_user_id clock values user built_user

answered_id : (created user : User) → ok (set_password "" created) ≡ ok user → user.id ≡ created.id
unfolding set_password
answered_id created user h = ground arith

asked_run :
    {S : Type 0} (given : Option String) (plain asked : String) (message : String) (s : S)
    → given ≡ some plain
    → (require_found business message (given_password given) s).0 ≡ ok asked
    → asked ≡ plain
asked_run none plain asked message s same h = cc
asked_run (some p) plain asked message s same h = elim (Bool-cases (is_truthy (some p))) [
  | inl truthy ↦ ground (arith, truthy)
  | inr blank ↦ ground (arith, blank)
]

module _ {S : Type 0} (users : UserTable S) (clock : Clock) where
  -- What the last steps of a creation leave.
  saved_run :
      (entity user : User) (s : S)
      → ((Abstract.create users (user_mapper clock) entity >>= λ created.
            pure (set_password "" created))
          s).0
        ≡ ok user
      → (saved : UserValues) × ((users.create_save (to_database_entity entity) s).0 ≡ ok saved)
        × (user.id ≡ saved.id)
        × (((Abstract.create users (user_mapper clock) entity >>= λ created.
                pure (set_password "" created))
              s).1
            ≡ (users.create_save (to_database_entity entity) s).1)
  unfolding Abstract.create Abstract.or_internal set_password
  saved_run entity user s h =
      let (created, made, same, end) = bind_run _ _ s user h in
      let (run, same1) = try_catch_run _ _ s created (λ e t. (_, refl)) made in
      let (saved, saves, same2, mapped) = bind_run _ _ s created run in
      (
        saved,
        saves,
        answered_id created user end ∙ entity_id clock saved created mapped,
        ap (λ r. r.1) same ∙ ap (λ r. r.1) same1 ∙ ap (λ r. r.1) same2,
      )

  -- The same from the search for the e-mail on.
  free_run :
      (entity user : User) (s : S)
      → ((get_by_email users clock entity.email >>= λ founded.
            is_taken founded
            >> (Abstract.create users (user_mapper clock) entity >>= λ created.
                pure (set_password "" created)))
          s).0
        ≡ ok user
      → (saved : UserValues) × (t : S) × ((users.create_save (to_database_entity entity) t).0
          ≡ ok saved)
        × (user.id ≡ saved.id)
        × (((get_by_email users clock entity.email >>= λ founded.
                is_taken founded
                >> (Abstract.create users (user_mapper clock) entity >>= λ created.
                    pure (set_password "" created)))
              s).1
            ≡ (users.create_save (to_database_entity entity) t).1)
  free_run entity user s h =
      let (founded, _, same, run) = bind_run _ _ s user h in
      let (_, _, same1, run1) = bind_run _ _ _ user run in
      let (saved, saves, id, same2) = saved_run entity user _ run1 in
      (saved, _, saves, id, ap (λ r. r.1) same ∙ ap (λ r. r.1) same1 ∙ same2)

  -- A creation that returned has created the register of the entity with its password protected, on some
  -- store, and left what that left.
  pub created_run :
      (crypto : Crypto) (salt plain : String) (entity user : User) (s : S)
      → entity.password ≡ some plain
      → (create users clock crypto salt entity s).0 ≡ ok user
      → (stored : String) × (saved : UserValues) × (t : S) × (protect_password crypto salt plain
          ≡ ok stored)
        × ((users.create_save (to_database_entity (set_password stored entity)) t).0 ≡ ok saved)
        × (user.id ≡ saved.id)
        × ((create users clock crypto salt entity s).1
            ≡ (users.create_save (to_database_entity (set_password stored entity)) t).1)
  unfolding create or_caught
  created_run crypto salt plain entity user s given h =
      let (run, same) = try_catch_run _ _ s user (λ e t. (_, refl)) h in
      let (password, asked, same1, run1) = bind_run _ _ s user run in
      let (stored, protected, same2, run2) = bind_run _ _ _ user run1 in
      let (saved, t, saves, id, same3) = free_run (set_password stored entity) user _ run2 in
      let is_plain = asked_run entity.password plain password _ s given asked in
      (
        stored,
        saved,
        t,
        subst (λ p. protect_password crypto salt p ≡ ok stored) is_plain protected,
        saves,
        id,
        ap (λ r. r.1) same ∙ ap (λ r. r.1) same1 ∙ ap (λ r. r.1) same2 ∙ same3,
      )
