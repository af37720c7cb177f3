-- ===== src/Domain/User/Laws.antt =====
-- Laws of src/modules/domain/entities/User.entity.ts.
use node_back_end_boilerplat.Prelude.{
  String, ◌≡◌, ◌≢◌, refl, true, false, Option, none, some, arith, eq_iff, Bool,
}
use node_back_end_boilerplat.Effects.{ok}
use node_back_end_boilerplat.Domain.Dates.{Clock}
use node_back_end_boilerplat.Domain.UserPreference.{UserPreference}
use node_back_end_boilerplat.Domain.UserPreference.Laws.{
  HasTheme, new_user_preference-get_attributes,
}
use node_back_end_boilerplat.Domain.User.{
  User, build_preference, preference_attributes, new_user, get_attributes, set_id,
}

-- The preference of a user, where there is one, has a valid theme.
abbrev pub HasValidPreference : Option UserPreference → Type 0
HasValidPreference none = Unit
HasValidPreference (some p) = HasTheme p

build_preference-attributes :
    (clock : Clock) (p : Option UserPreference)
    → HasValidPreference p
    → build_preference clock (preference_attributes p) ≡ ok p
build_preference-attributes clock none h = refl
build_preference-attributes clock (some p) h = rw (new_user_preference-get_attributes clock p h)

-- A user whose preference has a valid theme is rebuilt, whole, from its attributes.
pub new_user-get_attributes :
    (clock : Clock) (u : User)
    → HasValidPreference u.preference
    → new_user clock (get_attributes u) ≡ ok u
unfolding new_user get_attributes
new_user-get_attributes clock u h = rw (build_preference-attributes clock u.preference h)

abbrev pub owner_of : Option UserPreference → Option String
owner_of none = none
owner_of (some p) = p.user_id

abbrev is_present : Option UserPreference → Bool
is_present none = false
is_present (some p) = true

-- The identifier that a user is given reaches its preference too: after `setId` with a text that is
-- not empty, a preference of the user names the user as its owner.
pub owner-set_id :
    (id : String) (u : User) (p : UserPreference)
    → id ≢ ""
    → u.preference ≡ some p
    → ((set_id id u).id ≡ some id) × (owner_of (set_id id u).preference ≡ some id)
unfolding set_id
owner-set_id id u p h e = ground (arith, eq_iff id "")
