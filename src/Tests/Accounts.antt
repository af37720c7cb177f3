-- ===== src/Tests/Accounts.antt =====
-- Examples of requests: src/modules/app/user/usecases on the small database.
use node_back_end_boilerplat.Tests.Database.{
  Database, database, users, preferences, clock, crypto, stranger, stored_user, ana_entity,
  theme_entity,
}
use node_back_end_boilerplat.Prelude.{refl, ◌≡◌, some, none, String, inl, false, true}
use node_back_end_boilerplat.Effects.{ok, err, Result, try_catch, ◌>>=◌}
use node_back_end_boilerplat.Exceptions.{Thrown, http, exception, internal, detailed_error}
use node_back_end_boilerplat.UseCase.Permissions.{OnlyRead, stranger_changes_nothing}
use node_back_end_boilerplat.UseCase.Login.{
  login_user_uniform, invalid_credentials, login_user_sound, credentials,
}
use node_back_end_boilerplat.UseCase.{update_user, delete_user, login_user, id_of}
use node_back_end_boilerplat.Service.Users.{get_by_id, get_by_email}
use node_back_end_boilerplat.Strategy.{UserAuth, is_allowed_to_manage_user}
use node_back_end_boilerplat.Domain.User.{User}
use node_back_end_boilerplat.Service.Guarded.{or_caught, caught_error}
use node_back_end_boilerplat.Service.Errors.{service_errors, IsDatabaseError}
use node_back_end_boilerplat.Service.Preferences.{get_by_user_id}
use node_back_end_boilerplat.Repository.Abstract.{or_internal}
use node_back_end_boilerplat.Repository.Users.{to_domain_entity, id_params}
use node_back_end_boilerplat.Password.{validate_password, hash_password}
use node_back_end_boilerplat.Value.{str}

-- The parts of a run that the examples compute: every definition between a use case and the tables.
abbrev pub sign : UserAuth → Result String
sign agent = ok "signed"

only_read : OnlyRead users preferences clock
only_read = record {
  users_read = λ q. record { keeps = λ s. refl };
  preferences_read = λ q. record { keeps = λ s. refl };
}

-- The stored user as a search returns it: the row has no preference, and a new one is built.
abbrev pub found_ana : User
found_ana = record ana_entity {
  preference = some (record theme_entity { id = none; default_theme = none; created_at = 1000 });
}

ana_found : (get_by_id users clock "u1" true database).0 ≡ ok found_ana
unfolding get_by_id or_caught try_catch ◌>>=◌ or_internal to_domain_entity
ana_found = refl

stranger_changes_nothing_example :
    ((e : Thrown) × (update_user users preferences clock crypto "salt" "u1" stored_user
          (some stranger)
          database
        ≡ (err e, database)))
    × ((e : Thrown) × (delete_user users preferences clock "u1" (some stranger) database
          ≡ (err e, database)))
unfolding is_allowed_to_manage_user
stranger_changes_nothing_example =
    stranger_changes_nothing users preferences clock only_read crypto "salt" "u1" stored_user
      stranger found_ana database refl ana_found refl

guess_refused :
    (login_user users preferences clock crypto sign (some "ana@mail.dev") "guess" database).0
    ≡ err invalid_credentials
unfolding login_user try_catch ◌>>=◌ get_by_email or_caught or_internal to_domain_entity get_by_id
    get_by_user_id validate_password hash_password
guess_refused = refl

login_user_uniform_example : invalid_credentials ≡ invalid_credentials
login_user_uniform_example =
    login_user_uniform users preferences clock crypto sign (some "ana@mail.dev") "guess" database
      invalid_credentials guess_refused

-- The answer of a login that succeeds.
abbrev pub known_ana : User
known_ana = record ana_entity { password = some ""; preference = some theme_entity }

pub ana_known :
    (login_user users preferences clock crypto sign (some "ana@mail.dev") "secret" database).0
    ≡ ok (known_ana, "signed")
unfolding login_user try_catch ◌>>=◌ get_by_email or_caught or_internal to_domain_entity get_by_id
    get_by_user_id validate_password hash_password
ana_known = refl

login_user_sound_example :
    (founded : User) × (stored : User) × (t : Database) × ((get_by_email users clock
        (some "ana@mail.dev")
        database).0
      ≡ ok (some founded))
    × ((get_by_id users clock (id_of founded) false t).0 ≡ ok stored)
    × (validate_password crypto stored.password "secret" ≡ ok tt)
    × (known_ana.password ≡ some "")
    × (sign (credentials stored) ≡ ok "signed")
login_user_sound_example =
    login_user_sound users preferences clock crypto sign (some "ana@mail.dev") "secret" database
      known_ana "signed" ana_known

-- What a service throws where it finds no user.
abbrev not_founded : Thrown
not_founded = http (
    exception internal
      (detailed_error "Error to comunicate with database" (str "User not founded by ID!")) false)

nobody_found : (get_by_id users clock "u2" true database).0 ≡ err not_founded
unfolding get_by_id or_caught try_catch ◌>>=◌ or_internal to_domain_entity caught_error exception
nobody_found = refl

service_errors_example : IsDatabaseError not_founded
service_errors_example =
    service_errors users clock crypto "salt" "u2" none none true ana_entity (id_params "u2" true)
      database not_founded (inl nobody_found)
