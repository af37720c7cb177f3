-- ===== src/Tests/Routes.antt =====
-- Examples of the routes of users on the small database.
use node_back_end_boilerplat.Tests.Database.{database, users, preferences, clock, crypto}
use node_back_end_boilerplat.Tests.Accounts.{sign, known_ana, ana_known}
use node_back_end_boilerplat.Prelude.{refl, ◌≡◌, some, false}
use node_back_end_boilerplat.Value.{str}
use node_back_end_boilerplat.Strategy.{UserAuth}
use node_back_end_boilerplat.Effects.{ok, ◌>>=◌, try_catch}
use node_back_end_boilerplat.Domain.User
use node_back_end_boilerplat.Domain.User.{User, UserValues}
use node_back_end_boilerplat.UseCase.{require_agent}
use node_back_end_boilerplat.Controller.{login_user_route, get_user_route}
use node_back_end_boilerplat.Service.Guarded.{or_caught}
use node_back_end_boilerplat.Service.Users.{get_by_id}
use node_back_end_boilerplat.Service.Preferences.{get_by_user_id}
use node_back_end_boilerplat.Repository.Abstract.{or_internal}
use node_back_end_boilerplat.Repository.Users.{to_domain_entity}

abbrev ana_view : UserValues
unfolding User.get_attributes
ana_view = User.get_attributes known_ana

ana_logged_in :
    (login_user_route users preferences clock false crypto sign
      (some "ana@mail.dev")
      "secret"
      database).0
    ≡ ok (ana_view, "signed")
unfolding login_user_route ◌>>=◌ ana_view
ana_logged_in = rw ana_known

abbrev agent_ana : UserAuth
agent_ana = record { username = str "ana@mail.dev"; client_id = str "u1" }

ana_read : (get_user_route users preferences clock "u1" (some agent_ana) database).0 ≡ ok ana_view
unfolding get_user_route ana_view try_catch ◌>>=◌ require_agent or_caught or_internal
    to_domain_entity get_by_id get_by_user_id
ana_read = refl
