-- ===== src/UseCase/Login.antt =====
-- Logging in: src/modules/app/user/usecases/LoginUser.usecase.ts.
use node_back_end_boilerplat.Prelude.{
  String, false, ◌≡◌, refl, Option, none, some, false, ap, arith, ◌∙◌, subst,
}
use node_back_end_boilerplat.Effects.{
  Result, ok, err, bind-eq-ok, try_catch-eq-ok, try_catch-eq-err,
}
use node_back_end_boilerplat.Domain.User.{User, set_password}
use node_back_end_boilerplat.UseCase.{
  login_user, require_known, id_of, with_preference, UserTable, PreferenceTable, Clock, Crypto,
  set_preference, UserAuth, UserPreference, text_value,
}
use node_back_end_boilerplat.Exceptions.{Thrown, http, exception, unauthorized, plain_error}
use node_back_end_boilerplat.Repository.Users.{UserTable}
use node_back_end_boilerplat.Repository.Preferences.{PreferenceTable}
use node_back_end_boilerplat.Domain.Dates.{Clock}
use node_back_end_boilerplat.Password.{Crypto, validate_password}
use node_back_end_boilerplat.Domain.User.{set_preference, User}
use node_back_end_boilerplat.Strategy.{UserAuth}
use node_back_end_boilerplat.Domain.UserPreference.{UserPreference}
use node_back_end_boilerplat.Value.{text_value}
use node_back_end_boilerplat.Service.Users.{get_by_email, get_by_id}

-- The exception of a login that failed.
abbrev pub invalid_credentials : Thrown
invalid_credentials = http (exception unauthorized (plain_error "Invalid Credentials") false)

-- What a token says of a user.
abbrev pub credentials : User → UserAuth
credentials u = record { username = text_value u.email; client_id = text_value u.id }

credentials-with_preference :
    (p : Option UserPreference) (u : User)
    → credentials (with_preference p (set_password "" u)) ≡ credentials u
unfolding set_preference set_password
credentials-with_preference none u = refl
credentials-with_preference (some p) u = refl

password-with_preference :
    (p : Option UserPreference) (u : User)
    → (with_preference p (set_password "" u)).password ≡ some ""
unfolding set_preference set_password
password-with_preference none u = refl
password-with_preference (some p) u = refl

answered :
    (p : Option UserPreference) (u known : User) (made token : String)
    → ◌≡◌ {A = Result (User × String)}
        (ok (with_preference p (set_password "" u), made))
        (ok (known, token))
    → (known.password ≡ some "") × (made ≡ token)
answered p u known made token h = ground (arith, password-with_preference p u)

same_answer :
    (u known : User) (made token : String)
    → ◌≡◌ {A = Result (User × String)} (ok (u, made)) (ok (known, token))
    → (u ≡ known) × (made ≡ token)
same_answer u known made token h = ground arith

require_known_inv :
    {S : Type 0} (found : Option User) (s : S) (u : User)
    → (require_known found s).0 ≡ ok u
    → found ≡ some u
require_known_inv none s u h = cc
require_known_inv (some v) s u h = ground arith

module _ {S : Type 0} (users : UserTable S) (preferences : PreferenceTable S) (clock : Clock) where
  -- A login that fails, for whatever reason, says only that the credentials are invalid: an unknown
  -- e-mail, a wrong password and a broken database cannot be told apart by the answer.
  pub login_user_uniform :
      (crypto : Crypto) (encode_jwt : UserAuth → Result String) (email : Option String)
      (password : String) (s : S) (e : Thrown)
      → (login_user users preferences clock crypto encode_jwt email password s).0 ≡ err e
      → e ≡ invalid_credentials
  unfolding login_user
  login_user_uniform crypto encode_jwt email password s e h =
      try_catch-eq-err _ _ s invalid_credentials e (λ t. refl) h

  -- A login that succeeds was given the password of the stored user with the e-mail: that user was
  -- found by the e-mail and read by its identifier, the password validated against its stored text,
  -- the answer carries an empty password, and the token was made for its e-mail and identifier.
  pub login_user_sound :
      (crypto : Crypto) (encode_jwt : UserAuth → Result String) (email : Option String)
      (password : String) (s : S) (known : User) (token : String)
      → (login_user users preferences clock crypto encode_jwt email password s).0
        ≡ ok (known, token)
      → (founded : User) × (stored : User) × (t : S) × ((get_by_email users clock email s).0
          ≡ ok (some founded))
        × ((get_by_id users clock (id_of founded) false t).0 ≡ ok stored)
        × (validate_password crypto stored.password password ≡ ok tt)
        × (known.password ≡ some "")
        × (encode_jwt (credentials stored) ≡ ok token)
  unfolding login_user
  login_user_sound crypto encode_jwt email password s known token h =
      let run = try_catch-eq-ok _ _ s (known, token) invalid_credentials (λ t. refl) h in
      let (found, by_mail, run1) = bind-eq-ok _ _ s (known, token) run in
      let (founded, is_known, run2) = bind-eq-ok _ _ _ (known, token) run1 in
      let (stored, by_id, run3) = bind-eq-ok _ _ _ (known, token) run2 in
      let (_, valid, run4) = bind-eq-ok _ _ _ (known, token) run3 in
      let (preference, _, run5) = bind-eq-ok _ _ _ (known, token) run4 in
      let (made, signed, run6) = bind-eq-ok _ _ _ (known, token) run5 in
      let (no_password, same) = answered preference stored known made token run6 in
      (
        founded,
        stored,
        _,
        by_mail ∙ ap ok (require_known_inv found _ founded is_known),
        by_id,
        valid,
        no_password,
        rw (same, credentials-with_preference preference stored) at signed,
      )

  -- The token of a login names the user that is answered.
  pub login_user_token :
      (crypto : Crypto) (encode_jwt : UserAuth → Result String) (email : Option String)
      (password : String) (s : S) (known : User) (token : String)
      → (login_user users preferences clock crypto encode_jwt email password s).0
        ≡ ok (known, token)
      → encode_jwt (credentials known) ≡ ok token
  unfolding login_user
  login_user_token crypto encode_jwt email password s known token h =
      let run = try_catch-eq-ok _ _ s (known, token) invalid_credentials (λ t. refl) h in
      let (found, _, run1) = bind-eq-ok _ _ s (known, token) run in
      let (founded, _, run2) = bind-eq-ok _ _ _ (known, token) run1 in
      let (stored, _, run3) = bind-eq-ok _ _ _ (known, token) run2 in
      let (_, _, run4) = bind-eq-ok _ _ _ (known, token) run3 in
      let (preference, _, run5) = bind-eq-ok _ _ _ (known, token) run4 in
      let (made, signed, run6) = bind-eq-ok _ _ _ (known, token) run5 in
      let (same_user, same_token) = same_answer _ known made token run6 in
      subst (λ u. encode_jwt (credentials u) ≡ ok token) same_user (signed ∙ ap ok same_token)
