-- ===== src/UseCase/Permissions.antt =====
-- Who may do what: src/modules/app/user/usecases.
use node_back_end_boilerplat.Prelude.{
  String, Bool, true, false, ◌≡◌, refl, Option, none, some, inl, inr, ◌∙◌,
}
use node_back_end_boilerplat.Domain.Dates.{Clock}
use node_back_end_boilerplat.Domain.User.{User, UserValues}
use node_back_end_boilerplat.Effects.{
  bind_of_ok, bind_of_err, err, ok, ◌>>=◌, Exec, ◌>>◌, Result-cases, Result,
}
use node_back_end_boilerplat.Effects.Reads.{IsRead}
use node_back_end_boilerplat.Service.Users.{get_by_id}
use node_back_end_boilerplat.Service.Preferences.{get_by_user_id}
use node_back_end_boilerplat.Service.Reads.{get_by_id-IsRead, get_by_user_id-IsRead}
use node_back_end_boilerplat.UseCase.{
  create_user, get_user, update_user, delete_user, require_agent, validate_permission, UserAuth,
  UserTable, PreferenceTable, truthy, Crypto, UserPreference,
}
use node_back_end_boilerplat.Strategy.{UserAuth, is_allowed_to_manage_user}
use node_back_end_boilerplat.Exceptions.{
  Thrown, http, exception, business, unauthorized, plain_error,
}
use node_back_end_boilerplat.Repository.Users.{UserTable, UserQuery}
use node_back_end_boilerplat.Value.{truthy}
use node_back_end_boilerplat.Repository.Preferences.{PreferenceTable, PreferenceQuery}
use node_back_end_boilerplat.Password.{Crypto}
use node_back_end_boilerplat.Domain.UserPreference.{UserPreference}

-- The request has an agent with a client.
abbrev pub has_agent : Option UserAuth → Bool
has_agent none = false
has_agent (some agent) = truthy agent.client_id

abbrev pub invalid_agent : Thrown
invalid_agent = http (exception unauthorized (plain_error "Invalid agentUser") false)

abbrev pub not_allowed : String → Thrown
not_allowed message = http (exception business (plain_error message) false)

require_agent_missing :
    {S : Type 0} (agent : Option UserAuth) (s : S)
    → has_agent agent ≡ false
    → require_agent agent s ≡ (err invalid_agent, s)
unfolding require_agent
require_agent_missing none s h = refl
require_agent_missing (some agent) s h = rw h

require_agent_present :
    {S : Type 0} (agent : UserAuth) (s : S)
    → has_agent (some agent) ≡ true
    → require_agent (some agent) s ≡ (ok agent, s)
unfolding require_agent
require_agent_present agent s h = rw h

validate_permission_refused :
    {S : Type 0} (message : String) (agent : UserAuth) (user : User) (s : S)
    → is_allowed_to_manage_user agent user ≡ false
    → validate_permission message agent user s ≡ (err (not_allowed message), s)
unfolding validate_permission
validate_permission_refused message agent user s h = rw h

unchanged :
    {S A : Type 0} (m : Exec S A) (s : S) {r : Result A} → (m s).0 ≡ r → (m s).1 ≡ s → m s ≡ (r, s)
unchanged m s p q = λ i. (p i, q i)

module _ {S : Type 0} (users : UserTable S) (preferences : PreferenceTable S) (clock : Clock) where
  -- Without an agent that has a client, creating, getting, updating and deleting a user all end in
  -- the same unauthorized exception, and nothing is read or written.
  pub agent_required :
      (crypto : Crypto) (salt id : String) (values : UserValues) (agent : Option UserAuth) (s : S)
      → has_agent agent ≡ false
      → (create_user users preferences clock crypto salt values agent s ≡ (err invalid_agent, s))
        × (get_user users preferences clock id agent s ≡ (err invalid_agent, s))
        × (update_user users preferences clock crypto salt id values agent s
            ≡ (err invalid_agent, s))
        × (delete_user users preferences clock id agent s ≡ (err invalid_agent, s))
  unfolding create_user get_user update_user delete_user
  agent_required crypto salt id values agent s h =
      let refused = require_agent_missing agent s h in
      (
        bind_of_err _ _ s s invalid_agent refused,
        bind_of_err _ _ s s invalid_agent refused,
        bind_of_err _ _ s s invalid_agent refused,
        bind_of_err _ _ s s invalid_agent refused,
      )

  -- Reads of the two tables leave the database as it is.
  pub record OnlyRead : Type 0 where
    pub users_read : (q : UserQuery) → IsRead (users.find_one q)
    pub preferences_read : (q : PreferenceQuery) → IsRead (preferences.find_one q)

  module _ (reads : OnlyRead) where
    refused_after_reads :
        {A : Type 0} (id message : String) (agent : UserAuth) (user : User) (s : S)
        (rest : User → UserPreference → Exec S A)
        → (get_by_id users clock id true s).0 ≡ ok user
        → is_allowed_to_manage_user agent user ≡ false
        → (e : Thrown) × ((do
          found ← get_by_id users clock id true
          preference ← get_by_user_id preferences clock (some id)
          validate_permission message agent found
          rest found preference)
              s
            ≡ (err e, s))
    refused_after_reads id message agent user s rest found refused =
        let by_id = get_by_id-IsRead users clock reads.users_read id true in
        let by_user = get_by_user_id-IsRead preferences clock reads.preferences_read (some id) in
        let first =
          bind_of_ok _ _ s user
            (unchanged (get_by_id users clock id true) s found (by_id.keeps s)) in
        elim (Result-cases (get_by_user_id preferences clock (some id) s).0) [
          | inl (p, read) ↦ (
            not_allowed message,
            first
                ∙ bind_of_ok _ _ s p (
                    unchanged (get_by_user_id preferences clock (some id)) s read (by_user.keeps s))
                ∙ bind_of_err _ _ s s (not_allowed message)
                    (validate_permission_refused message agent user s refused),
          )
          | inr (e, failed) ↦ (
            e,
            first
                ∙ bind_of_err _ _ s s e (
                    unchanged (get_by_user_id preferences clock (some id)) s failed
                      (by_user.keeps s)),
          )
        ]

    -- An agent with a client that is not the user that was found changes nothing by an update or a
    -- deletion: each ends in an exception with the database as it was, if searches only read.
    pub stranger_changes_nothing :
        (crypto : Crypto) (salt id : String) (values : UserValues) (agent : UserAuth) (user : User)
        (s : S)
        → has_agent (some agent) ≡ true
        → (get_by_id users clock id true s).0 ≡ ok user
        → is_allowed_to_manage_user agent user ≡ false
        → ((e : Thrown) × (update_user users preferences clock crypto salt id values (some agent) s
              ≡ (err e, s)))
          × ((e : Thrown) × (delete_user users preferences clock id (some agent) s ≡ (err e, s)))
    unfolding update_user delete_user
    stranger_changes_nothing crypto salt id values agent user s known found refused =
        let start = require_agent_present agent s known in
        let (e, updating) =
          refused_after_reads id "agentUser not allowed to update this user!" agent user s _ found
            refused in
        let (e', deleting) =
          refused_after_reads id "agentUser not allowed to delete this user!" agent user s _ found
            refused in
        (
          (e, bind_of_ok _ _ s agent start ∙ updating),
          (e', bind_of_ok _ _ s agent start ∙ deleting),
        )
