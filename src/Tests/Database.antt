-- ===== src/Tests/Database.antt =====
-- A small database in memory, with the two tables that src/modules/app/user/repositories read and
-- write, a clock and a digest, for the tests.
use node_back_end_boilerplat.Prelude.{
  String, Bool, false, Option, none, some, List, [], ◌∷◌, length, includes, join_text,
  if◌then◌else◌, or_else, ◌==◌, or_option, true, ◌&&◌,
}
use node_back_end_boilerplat.Domain.User.{User, UserValues, no_user_values}
use node_back_end_boilerplat.Domain.UserPreference.{
  UserPreference, PreferenceValues, no_preference_values,
}
use node_back_end_boilerplat.Domain.Dates.{Clock}
use node_back_end_boilerplat.Repository.Users
use node_back_end_boilerplat.Repository.Preferences
use node_back_end_boilerplat.Repository.Users.{
  UserTable, UserQuery, UserPatch, by_email, attributes, deleted_by,
}
use node_back_end_boilerplat.Repository.Preferences.{PreferenceTable, PreferenceQuery, by_user}
use node_back_end_boilerplat.Value.{str, date}
use node_back_end_boilerplat.Effects.{ok}
use node_back_end_boilerplat.Password.{Crypto}
use node_back_end_boilerplat.Strategy.{UserAuth}

pub record Database : Type 0 where
  pub users : List UserValues
  pub preferences : List PreferenceValues

abbrev pub clock : Clock
clock = record { now = 1000; from_iso = λ s. 5 }

-- The identifier and the e-mail under which a row is stored.
abbrev same_text : Option String → Option String → Bool
same_text (some s) (some t) = s == t
same_text _ _ = false

abbrev pub find_user : (UserValues → Bool) → List UserValues → Option UserValues
find_user p [] = none
find_user p (u ∷ us) = if p u then some u else find_user p us

abbrev find_preference : (PreferenceValues → Bool) → List PreferenceValues → Option PreferenceValues
find_preference p [] = none
find_preference p (u ∷ us) = if p u then some u else find_preference p us

-- Whether a row is not deleted; a search finds no other.
abbrev pub is_live : UserValues → Bool
is_live u = elim u.deleted_at [ none ↦ true | some t ↦ false ]

abbrev pub matches_user : UserQuery → UserValues → Bool
matches_user (by_email email) u = is_live u && same_text u.email email
matches_user (Users.by_id id) u = is_live u && same_text u.id (some id)
matches_user (Users.built options) u = is_live u && same_text u.id options.where_.id

abbrev matches_preference : PreferenceQuery → PreferenceValues → Bool
matches_preference (by_user id) p = same_text p.user id
matches_preference (Preferences.by_id id) p = same_text p.id id
matches_preference (Preferences.built filter) p = same_text p.id filter.id

abbrev patch_user : UserPatch → UserValues → UserValues
patch_user (attributes values) u = record u { full_name = or_option values.full_name u.full_name }
patch_user (deleted_by agent) u = record u { deleted_by = agent }

abbrev patch_users : List String → UserPatch → List UserValues → List UserValues
patch_users ids patch [] = []
patch_users ids patch (u ∷ us) =
    (if includes ids (or_else u.id "") then patch_user patch u else u) ∷ patch_users ids patch us

abbrev remove_users : List String → List UserValues → List UserValues
remove_users ids [] = []
remove_users ids (u ∷ us) =
    let rest = remove_users ids us in if includes ids (or_else u.id "") then rest else u ∷ rest

abbrev remove_preferences : List String → List PreferenceValues → List PreferenceValues
remove_preferences ids [] = []
remove_preferences ids (u ∷ us) =
    let rest = remove_preferences ids us in
    if includes ids (or_else u.id "") then rest else u ∷ rest

abbrev pub users : UserTable Database
users = record {
  create_save = λ values s.
      let row = record values { id = some "u9" } in (ok row, record s { users = row ∷ s.users });
  find_one = λ q s. (ok (find_user (matches_user q) s.users), s);
  find = λ q s. (ok s.users, s);
  find_and_count = λ q s. (ok (s.users, length s.users), s);
  count = λ q s. (ok (length s.users), s);
  update = λ ids patch s. (ok tt, record s { users = patch_users ids patch s.users });
  soft_delete = λ ids s. (ok (some (length ids)), record s { users = remove_users ids s.users });
  delete = λ ids s. (ok (some (length ids)), record s { users = remove_users ids s.users });
}

abbrev pub preferences : PreferenceTable Database
preferences = record {
  create_save = λ values s.
      let row = record values { id = some "p9" } in
      (ok row, record s { preferences = row ∷ s.preferences });
  find_one = λ q s. (ok (find_preference (matches_preference q) s.preferences), s);
  find = λ q s. (ok s.preferences, s);
  find_and_count = λ q s. (ok (s.preferences, length s.preferences), s);
  count = λ q s. (ok (length s.preferences), s);
  update = λ ids values s. (ok tt, s);
  soft_delete = λ ids s.
      (ok (some (length ids)), record s { preferences = remove_preferences ids s.preferences });
  delete = λ ids s.
      (ok (some (length ids)), record s { preferences = remove_preferences ids s.preferences });
}

-- A digest that only marks its text.
abbrev pub crypto : Crypto
crypto = record { secret = "k"; digest = λ s. some (join_text "#" s) }

abbrev pub stored_user : UserValues
stored_user = record no_user_values {
  id = some "u1";
  full_name = some "Ana";
  email = some "ana@mail.dev";
  password = some "salt|#secretksalt";
  created_at = date 7;
}

abbrev pub stored_preference : PreferenceValues
stored_preference = record no_preference_values {
  id = some "p1";
  user = some "u1";
  default_theme = some "DARK";
  created_at = date 7;
}

abbrev pub database : Database
database = record { users = stored_user ∷ []; preferences = stored_preference ∷ [] }

abbrev pub ana : UserAuth
ana = record { username = str "ana@mail.dev"; client_id = str "u1" }

abbrev pub stranger : UserAuth
stranger = record { username = str "eve@mail.dev"; client_id = str "u2" }

-- The stored user and its preference as entities.
abbrev pub theme_entity : UserPreference
theme_entity = record {
  id = some "p1";
  user_id = some "u1";
  image_path = none;
  default_theme = some "DARK";
  created_at = 7;
  updated_at = none;
  deleted_at = none;
}

abbrev pub ana_entity : User
ana_entity = record {
  id = some "u1";
  full_name = some "Ana";
  email = some "ana@mail.dev";
  password = some "salt|#secretksalt";
  phone = none;
  doc_type = none;
  document = none;
  fu = none;
  preference = none;
  created_at = 7;
  updated_at = none;
  deleted_at = none;
  deleted_by = none;
}
