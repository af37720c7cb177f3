-- ===== src/UseCase/Registration.antt =====
-- From creating a user to its login: `create` of src/modules/app/user/services/User.service.ts, and
-- src/modules/app/user/usecases/LoginUser.usecase.ts.
use Prim.Native.String.{String}
use node_back_end_boilerplat.Text.{Lacks}
use node_back_end_boilerplat.Prelude.{
  String, false, ◌≡◌, ◌≢◌, refl, Option, none, some, ap, arith, ◌∙◌, sym, subst, or_else, inl, inr,
}
use node_back_end_boilerplat.Effects.{Result, ok, Exec, lift, try_catch, ◌>>=◌, Result-cases}
use node_back_end_boilerplat.Effects.Runs.{bind_goes_on, try_catch_of_ok}
use node_back_end_boilerplat.Domain.Dates.{Clock}
use node_back_end_boilerplat.Domain.User.{User, UserValues, new_user, set_password, set_preference}
use node_back_end_boilerplat.Domain.UserPreference.{UserPreference, new_user_preference}
use node_back_end_boilerplat.Password.{Crypto, validate_password, hash_password}
use node_back_end_boilerplat.Password.Laws.{validate_password-protect_password}
use node_back_end_boilerplat.Strategy.{UserAuth}
use node_back_end_boilerplat.Repository.UserQuery.{build_params}
use node_back_end_boilerplat.Repository.Abstract
use node_back_end_boilerplat.Repository.Users.{
  UserTable, to_domain_entity, to_database_entity, ensure_preference, user_mapper, by_email, built,
  id_params,
}
use node_back_end_boilerplat.Repository.Preferences.{PreferenceTable}
use node_back_end_boilerplat.Service.Guarded.{or_caught}
use node_back_end_boilerplat.Service.Users.{create, get_by_email, get_by_id}
use node_back_end_boilerplat.Service.Creation.{created_run}
use node_back_end_boilerplat.UseCase.{login_user, with_preference, optionally}
use node_back_end_boilerplat.Repository.Users
use node_back_end_boilerplat.Value.{text_value}
use node_back_end_boilerplat.Service.Preferences.{get_by_user_id}

-- What a table says of a register that it created with an e-mail: the searches for the e-mail and for the
-- new identifier find its register, which nothing refers to yet, and change nothing.
pub record IsRemembered {S : Type 0} (users : UserTable S) (values saved : UserValues)
    (email : String) (s : S) : Type 0 where
  pub id : String
  pub mail_row : UserValues
  pub row : UserValues
  pub saved_id : saved.id ≡ some id
  pub found_by_email : users.find_one (by_email (some email)) s ≡ (ok (some mail_row), s)
  pub found_by_id :
      users.find_one (built (build_params (id_params id false))) s ≡ (ok (some row), s)
  pub mail_row_id : mail_row.id ≡ some id
  pub mail_row_preference : mail_row.preference ≡ none
  pub row_id : row.id ≡ some id
  pub row_password : row.password ≡ values.password
  pub row_preference : row.preference ≡ none

-- A table that keeps what it creates, unless it is created as deleted; e-mails are unique, and identifiers
-- are new.
abbrev pub Remembers : {S : Type 0} → UserTable S → Type 0
Remembers {S} users =
    (values saved : UserValues) (email : String) (s : S)
    → values.id ≡ none
    → values.preference ≡ none
    → values.email ≡ some email
    → values.deleted_at ≡ none
    → (users.create_save values s).0 ≡ ok saved
    → IsRemembered users values saved email (users.create_save values s).1

-- What is read of a register without a preference.
plain_entity :
    (clock : Clock) (values : UserValues)
    → values.preference ≡ none
    → (u : User) × (to_domain_entity clock values ≡ ok u)
      × (u.id ≡ values.id)
      × (u.password ≡ values.password)
unfolding to_domain_entity ensure_preference new_user new_user_preference set_preference
plain_entity clock values h =
    subst
      (λ p.
        (u : User) × (to_domain_entity clock (record values { preference = p }) ≡ ok u)
        × (u.id ≡ values.id)
        × (u.password ≡ values.password))
      (sym h) (_, refl, refl, refl)

module _ {S : Type 0} (users : UserTable S) (clock : Clock) where
  mail_found :
      (email : Option String) (row : UserValues) (u : User) (s : S)
      → users.find_one (by_email email) s ≡ (ok (some row), s)
      → to_domain_entity clock row ≡ ok u
      → get_by_email users clock email s ≡ (ok (some u), s)
  unfolding get_by_email or_caught Abstract.find_one Abstract.or_internal try_catch ◌>>=◌
  mail_found email row u s found read = rw (found, read)

  id_found :
      (id : String) (row : UserValues) (u : User) (s : S)
      → users.find_one (built (build_params (id_params id false))) s ≡ (ok (some row), s)
      → to_domain_entity clock row ≡ ok u
      → get_by_id users clock id false s ≡ (ok u, s)
  unfolding get_by_id or_caught Users.get_by_id Abstract.or_internal try_catch ◌>>=◌
  id_found id row u s found read = rw (found, read)

id-with_preference :
    (p : Option UserPreference) (u : User) → (with_preference p (set_password "" u)).id ≡ u.id
unfolding set_preference set_password
id-with_preference none u = refl
id-with_preference (some p) u = refl

one_text : (r : Result String) (a b : String) → r ≡ ok a → r ≡ ok b → a ≡ b
one_text r a b h k = ground arith

-- Every agent gets a token.
abbrev pub Signs : (UserAuth → Result String) → Type 0
Signs encode_jwt = (agent : UserAuth) → (token : String) × (encode_jwt agent ≡ ok token)

module _ {S : Type 0} (users : UserTable S) (preferences : PreferenceTable S) (clock : Clock) where
  optionally_run :
      {A : Type 0} (m : Exec S A) (s : S)
      → (found : Option A) × (t : S) × (optionally users preferences clock m s ≡ (ok found, t))
  unfolding try_catch ◌>>=◌
  optionally_run m s = elim (Result-cases (m s).0) [
    | inl (a, h) ↦ (some a, (m s).1, rw h)
    | inr (e, h) ↦ (none, (m s).1, rw h)
  ]

  -- A register that the table remembers logs in with the password that its stored text validates.
  remembered_logs_in :
      (crypto : Crypto) (encode_jwt : UserAuth → Result String) (values saved : UserValues)
      (email plain : String) (s : S)
      → Signs encode_jwt
      → validate_password crypto values.password plain ≡ ok tt
      → IsRemembered users values saved email s
      → (known : User) × (token : String) × ((login_user users preferences clock crypto encode_jwt
            (some email)
            plain
            s).0
          ≡ ok (known, token))
        × (known.id ≡ saved.id)
  unfolding login_user
  remembered_logs_in crypto encode_jwt values saved email plain s signs valid r =
      let (u, read, id, _) = plain_entity clock r.mail_row r.mail_row_preference in
      let (v, read1, id1, password) = plain_entity clock r.row r.row_preference in
      let (p, t, preferred) = optionally_run (get_by_user_id preferences clock u.id) s in
      let known = with_preference p (set_password "" v) in
      let (token, signed) =
        signs (record { username = text_value known.email; client_id = text_value known.id }) in
      let by_mail = mail_found users clock (some email) r.mail_row u s r.found_by_email read in
      let by_id = id_found users clock r.id r.row v s r.found_by_id read1 in
      let same_id = ap (λ i. or_else i "") (id ∙ r.mail_row_id) in
      (
        known,
        token,
        ap (λ o. o.0)
            (try_catch_of_ok _ _ s t (known, token)
              (bind_goes_on _ _ s s (some u) by_mail
                ∙ bind_goes_on _ _ s s u refl
                ∙ bind_goes_on _ _ s s v (ap (λ i. get_by_id users clock i false s) same_id ∙ by_id)
                ∙ bind_goes_on _ _ s s tt (
                    ap (λ w. lift (validate_password crypto w plain) s) (password ∙ r.row_password)
                    ∙ rw valid)
                ∙ bind_goes_on _ _ s t p preferred
                ∙ bind_goes_on _ _ t t token (rw signed))),
        id-with_preference p v ∙ id1 ∙ r.row_id ∙ sym r.saved_id,
      )

  -- Who registers can log in: a user that the user service created with an e-mail and a password, and not
  -- as deleted, is let log in by them, on what the creation left, and the login answers its identifier; if the table keeps
  -- what it creates, every agent gets a token, and the salt and the digest of the password are not empty
  -- and hold no bar.
  pub created_user_logs_in :
      (crypto : Crypto) (encode_jwt : UserAuth → Result String) (salt email plain hash : String)
      (entity user : User) (s : S)
      → Remembers users
      → Signs encode_jwt
      → salt ≢ ""
      → hash ≢ ""
      → Lacks b'|' salt
      → Lacks b'|' hash
      → hash_password crypto plain salt ≡ some hash
      → entity.email ≡ some email
      → entity.password ≡ some plain
      → entity.deleted_at ≡ none
      → (create users clock crypto salt entity s).0 ≡ ok user
      → (known : User) × (token : String) × ((login_user users preferences clock crypto encode_jwt
            (some email)
            plain
            (create users clock crypto salt entity s).1).0
          ≡ ok (known, token))
        × (known.id ≡ user.id)
  unfolding to_database_entity set_password
  created_user_logs_in crypto encode_jwt salt email plain hash entity user s remembers signs salted
        hashed no_bar no_bar1 digest mailed given live h =
      let (stored, saved, t, protected, saves, id, left) =
        created_run users clock crypto salt plain entity user s given h in
      let values = to_database_entity (set_password stored entity) in
      let (text, protected1, valid) =
        validate_password-protect_password crypto salt plain hash salted hashed no_bar no_bar1
          digest in
      let (known, token, logged, same) =
        remembered_logs_in crypto encode_jwt values saved email plain (users.create_save values t).1
          signs
          (subst (λ w. validate_password crypto (some w) plain ≡ ok tt)
            (one_text _ text stored protected1 protected) valid)
          (remembers values saved email t refl refl mailed live saves) in
      (
        known,
        token,
        ap (λ u. (login_user users preferences clock crypto encode_jwt (some email) plain u).0) left
            ∙ logged,
        same ∙ sym id,
      )
