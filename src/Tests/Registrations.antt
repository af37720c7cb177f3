-- ===== src/Tests/Registrations.antt =====
-- A user that registers and logs in: src/modules/app/user on the small database.
use node_back_end_boilerplat.Tests.Database.{
  database, users, preferences, clock, crypto, matches_user, find_user, ana_entity, theme_entity,
}
use node_back_end_boilerplat.Tests.Users.{separator_free, not_empty}
use node_back_end_boilerplat.Tests.Accounts.{sign}
use node_back_end_boilerplat.Prelude.{String, refl, ◌≡◌, some, none, arith, ap, List, ◌∷◌, eq_refl}
use node_back_end_boilerplat.Effects.{ok, try_catch, ◌>>=◌}
use node_back_end_boilerplat.Domain.User.{User, UserValues, set_password}
use node_back_end_boilerplat.Password.{hash_password, protect_password}
use node_back_end_boilerplat.Repository.Abstract
use node_back_end_boilerplat.Repository.Users.{by_email, to_database_entity, to_domain_entity}
use node_back_end_boilerplat.Repository.UserQuery.{build_params}
use node_back_end_boilerplat.Repository.Abstract.{or_internal}
use node_back_end_boilerplat.Service.Guarded.{or_caught}
use node_back_end_boilerplat.Service.Users.{create, get_by_email}
use node_back_end_boilerplat.UseCase.{login_user}
use node_back_end_boilerplat.UseCase.Registration.{Remembers, created_user_logs_in}

first_found :
    (values : UserValues) (email : String) (rows : List UserValues)
    → values.email ≡ some email
    → values.deleted_at ≡ none
    → find_user (matches_user (by_email (some email))) (values ∷ rows) ≡ some values
first_found values email rows h live = rw (live, h, eq_refl email)

saved_id :
    (values saved : UserValues)
    → ok (record values { id = some "u9" }) ≡ ok saved
    → saved.id ≡ some "u9"
saved_id values saved h = ground arith

remembers : Remembers users
unfolding build_params
remembers values saved email s no_id no_preference mailed live h =
    let row = record values { id = some "u9" } in
    record {
      id = "u9";
      mail_row = row;
      row = row;
      saved_id = saved_id values saved h;
      found_by_email =
          ap (λ r. (ok r, record s { users = row ∷ s.users }))
            (first_found row email s.users mailed live);
      found_by_id = rw live;
      mail_row_id = refl;
      mail_row_preference = no_preference;
      row_id = refl;
      row_password = refl;
      row_preference = no_preference;
    }

-- A user that is not in the database, and what its creation answers.
abbrev bob : User
bob = record ana_entity { id = none; email = some "bob@mail.dev"; password = some "secret" }

abbrev created_bob : User
created_bob = record bob {
  id = some "u9";
  password = some "";
  preference = some (record theme_entity {
    id = none;
    user_id = some "u9";
    default_theme = none;
    created_at = 1000;
  });
}

bob_created : (create users clock crypto "salt" bob database).0 ≡ ok created_bob
unfolding create or_caught try_catch ◌>>=◌ protect_password hash_password get_by_email
    Abstract.create Abstract.find_one or_internal to_domain_entity to_database_entity set_password
bob_created = refl

created_user_logs_in_example :
    (known : User) × (token : String) × ((login_user users preferences clock crypto sign
        (some "bob@mail.dev")
        "secret"
        (create users clock crypto "salt" bob database).1).0
      ≡ ok (known, token))
    × (known.id ≡ created_bob.id)
unfolding hash_password
created_user_logs_in_example =
    created_user_logs_in users preferences clock crypto sign "salt" "bob@mail.dev" "secret"
      "#secretksalt" bob created_bob database remembers (λ agent. ("signed", refl))
      (not_empty "salt" refl) (not_empty "#secretksalt" refl) (refl, (refl, (refl, (refl, tt))))
      separator_free refl refl refl refl bob_created
