-- ===== src/Domain/User.antt =====
-- src/modules/domain/entities/User.entity.ts. A field that no constructor assigned is `none`, and
-- so is a nullable field that holds `null`.
pub mod Laws
use node_back_end_boilerplat.Prelude.{ℕ, String, ◌==◌, if◌then◌else◌, Option, none, some, is_blank}
use node_back_end_boilerplat.Value.{Value, date, undefined}
use node_back_end_boilerplat.Effects.{Result, ok, err, bind_result}
use node_back_end_boilerplat.Domain.Dates.{Clock, get_date}
use node_back_end_boilerplat.Domain.UserPreference
use node_back_end_boilerplat.Domain.UserPreference.{
  UserPreference, PreferenceValues, new_user_preference, set_user_id,
}

pub record User : Type 0 where
  pub id : Option String
  pub full_name : Option String
  pub email : Option String
  pub password : Option String
  pub phone : Option String
  pub doc_type : Option String
  pub document : Option String
  pub fu : Option String
  pub preference : Option UserPreference
  pub created_at : ℕ
  pub updated_at : Option ℕ
  pub deleted_at : Option ℕ
  pub deleted_by : Option String

-- `UserInterface`, and the register that a constructor is given.
pub record UserValues : Type 0 where
  pub id : Option String
  pub full_name : Option String
  pub email : Option String
  pub password : Option String
  pub phone : Option String
  pub doc_type : Option String
  pub document : Option String
  pub fu : Option String
  pub preference : Option PreferenceValues
  pub created_at : Value
  pub updated_at : Option ℕ
  pub deleted_at : Option ℕ
  pub deleted_by : Option String

-- `{}`
abbrev pub no_user_values : UserValues
no_user_values = record {
  id = none;
  full_name = none;
  email = none;
  password = none;
  phone = none;
  doc_type = none;
  document = none;
  fu = none;
  preference = none;
  created_at = undefined;
  updated_at = none;
  deleted_at = none;
  deleted_by = none;
}

-- `if (!isNullOrUndefined(preference)) this.preference = new UserPreferenceEntity(preference)`
abbrev pub build_preference : Clock → Option PreferenceValues → Result (Option UserPreference)
build_preference clock none = ok none
build_preference clock (some values) =
    bind_result (new_user_preference clock values) (λ p. ok (some p))

-- `constructor`
unfoldable pub new_user : Clock → UserValues → Result User
unfolding get_date
new_user clock values = bind_result (build_preference clock values.preference) λ preference.
    ok (record {
      id = values.id;
      full_name = values.full_name;
      email = values.email;
      password = values.password;
      phone = values.phone;
      doc_type = values.doc_type;
      document = values.document;
      fu = values.fu;
      preference = preference;
      created_at = get_date clock values.created_at;
      updated_at = values.updated_at;
      deleted_at = values.deleted_at;
      deleted_by = values.deleted_by;
    })

abbrev pub preference_attributes : Option UserPreference → Option PreferenceValues
preference_attributes none = none
preference_attributes (some p) = some (UserPreference.get_attributes p)

-- `getAttributes`
unfoldable pub get_attributes : User → UserValues
get_attributes u = record {
  id = u.id;
  full_name = u.full_name;
  email = u.email;
  password = u.password;
  phone = u.phone;
  doc_type = u.doc_type;
  document = u.document;
  fu = u.fu;
  preference = preference_attributes u.preference;
  created_at = date u.created_at;
  updated_at = u.updated_at;
  deleted_at = u.deleted_at;
  deleted_by = u.deleted_by;
}

abbrev pub with_user_id : String → Option UserPreference → Option UserPreference
with_user_id id none = none
with_user_id id (some p) = some (set_user_id id p)

-- `setId`
unfoldable pub set_id : String → User → User
unfolding set_user_id
set_id id u =
    if is_blank id then u else record u { id = some id; preference = with_user_id id u.preference }

-- `setFullName`, `setEmail` and `setPhone`
unfoldable pub set_full_name : String → User → User
set_full_name full_name u = record u { full_name = some full_name }

unfoldable pub set_email : String → User → User
set_email email u = record u { email = some email }

unfoldable pub set_phone : String → User → User
set_phone phone u = record u { phone = some phone }

-- `getDocInfos`
pub record DocInfos : Type 0 where
  pub document : Option String
  pub doc_type : Option String
  pub fu : Option String

unfoldable pub get_doc_infos : User → DocInfos
get_doc_infos u = record { document = u.document; doc_type = u.doc_type; fu = u.fu }

-- `setPassword`
unfoldable pub set_password : String → User → User
set_password password u = record u { password = some password }

-- `setPreference`
unfoldable pub set_preference : UserPreference → User → User
set_preference p u = record u { preference = some p }

-- `setDocInfos`
unfoldable pub set_doc_infos : String → String → String → User → User
set_doc_infos doc_value doc_type fu u = record u {
  document = some doc_value;
  doc_type = some doc_type;
  fu = some fu;
}

-- `setDeletedBy`
unfoldable pub set_deleted_by : Clock → String → User → User
set_deleted_by clock agent_id u = record u {
  deleted_by = some agent_id;
  deleted_at = some clock.now;
}
