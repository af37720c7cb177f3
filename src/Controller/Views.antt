-- ===== src/Controller/Views.antt =====
-- What the routes of src/modules/app/user/api/controllers/User.controller.ts let a client see.
use node_back_end_boilerplat.Controller.{
  login_user_route, get_user_route, throw_maintenance_exception,
}
use node_back_end_boilerplat.UseCase.{login_user, get_user}
use node_back_end_boilerplat.UseCase.Login.{login_user_sound}
use node_back_end_boilerplat.Domain.User
use node_back_end_boilerplat.Domain.User.{User, UserValues, set_password, set_preference}
use node_back_end_boilerplat.Domain.Dates.{Clock}
use node_back_end_boilerplat.Repository.Users.{UserTable}
use node_back_end_boilerplat.Repository.Preferences.{PreferenceTable}
use node_back_end_boilerplat.Password.{Crypto}
use node_back_end_boilerplat.Strategy.{UserAuth}
use node_back_end_boilerplat.Prelude.{
  String, Bool, true, false, ◌≡◌, refl, sym, ap, ◌∙◌, Option, some,
}
use node_back_end_boilerplat.Effects.{Result, ok, bind-eq-ok, ◌>>=◌}

ok_inv : {A : Type 0} (a b : A) → ok a ≡ ok b → a ≡ b
ok_inv a b h = cc

view_password :
    (u : User) (view : UserValues)
    → ok (User.get_attributes u) ≡ ok view
    → view.password ≡ u.password
unfolding User.get_attributes
view_password u view h = ap (λ v. v.password) (sym (ok_inv (User.get_attributes u) view h))

login_password :
    (u : User) (made token : String) (view : UserValues)
    → ◌≡◌ {A = Result (UserValues × String)} (ok (User.get_attributes u, made)) (ok (view, token))
    → (view.password ≡ u.password) × (made ≡ token)
unfolding User.get_attributes
login_password u made token view h =
    let p = ok_inv (User.get_attributes u, made) (view, token) h in
    (ap (λ pair. pair.0.password) (sym p), ap (λ pair. pair.1) p)

module _ {S : Type 0} (users : UserTable S) (preferences : PreferenceTable S) (clock : Clock) where
  -- A client that the login route answers is answered while logins are not disabled, with an empty
  -- password and the token of a login that succeeded.
  pub login_user_route_sound :
      (login_disabled : Bool) (crypto : Crypto) (encode_jwt : UserAuth → Result String)
      (email : Option String) (password : String) (s : S) (view : UserValues) (token : String)
      → (login_user_route users preferences clock login_disabled crypto encode_jwt email password
          s).0
        ≡ ok (view, token)
      → (known : User) × ((login_user users preferences clock crypto encode_jwt email password s).0
          ≡ ok (known, token))
        × (login_disabled ≡ false)
        × (view.password ≡ some "")
  unfolding login_user_route throw_maintenance_exception ◌>>=◌
  login_user_route_sound true crypto encode_jwt email password s view token h = cc
  login_user_route_sound false crypto encode_jwt email password s view token h =
      let ((known, made), p, q) =
        bind-eq-ok (login_user users preferences clock crypto encode_jwt email password) _ s
          (view, token) h in
      let (same_password, same_token) = login_password known made token view q in
      let logged = p ∙ ap (λ t. ok (known, t)) same_token in
      let (founded, stored, t, a, b, c, empty, d) =
        login_user_sound users preferences clock crypto encode_jwt email password s known token
          logged in
      (known, logged, refl, same_password ∙ empty)

  -- A user that the route answers has an empty password.
  pub get_user_route_password :
      (user_id : String) (agent : Option UserAuth) (s : S) (view : UserValues)
      → (get_user_route users preferences clock user_id agent s).0 ≡ ok view
      → view.password ≡ some ""
  unfolding get_user_route get_user set_password set_preference
  get_user_route_password user_id agent s view h =
      let (found, p, q) = bind-eq-ok (get_user users preferences clock user_id agent) _ s view h in
      let (_, a, run1) = bind-eq-ok _ _ s found p in
      let (user, b, run2) = bind-eq-ok _ _ _ found run1 in
      let (preference, c, run3) = bind-eq-ok _ _ _ found run2 in
      view_password found view q ∙ ap (λ u. u.password) (sym (ok_inv _ found run3))
