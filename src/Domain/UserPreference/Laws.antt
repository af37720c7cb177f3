-- ===== src/Domain/UserPreference/Laws.antt =====
-- Laws of src/modules/domain/entities/UserPreference.entity.ts.
use node_back_end_boilerplat.Prelude.{
  String, ◌≡◌, refl, true, Option, none, some, includes, Bool-cases, inl, inr, arith, Bool, ◌∙◌,
}
use node_back_end_boilerplat.Effects.{ok}
use node_back_end_boilerplat.Domain.Dates.{Clock}
use node_back_end_boilerplat.Domain.UserPreference.{
  UserPreference, PreferenceValues, theme_values, assign_theme, set_default_theme,
  new_user_preference, get_attributes,
}

abbrev valid_theme : Option String → Bool
valid_theme none = true
valid_theme (some theme) = includes theme_values theme

-- A theme is one of the three, where there is one.
abbrev pub HasTheme : UserPreference → Type 0
HasTheme p = valid_theme p.default_theme ≡ true

set_default_theme-HasTheme :
    (theme : String) (p q : UserPreference) → set_default_theme theme p ≡ ok q → HasTheme q
unfolding set_default_theme
set_default_theme-HasTheme theme p q e = elim (Bool-cases (includes theme_values theme)) [
  | inl valid ↦ ground arith
  | inr invalid ↦ ground arith
]

assign_theme-HasTheme :
    (theme : Option String) (p q : UserPreference)
    → HasTheme p
    → assign_theme theme p ≡ ok q
    → HasTheme q
assign_theme-HasTheme none p q h e = ground arith
assign_theme-HasTheme (some theme) p q h e = set_default_theme-HasTheme theme p q e

-- Whatever register the constructor is given, a preference that it returns has one of the three
-- themes or none.
pub new_user_preference-HasTheme :
    (clock : Clock) (values : PreferenceValues) (p : UserPreference)
    → new_user_preference clock values ≡ ok p
    → HasTheme p
unfolding new_user_preference
new_user_preference-HasTheme clock values p e =
    assign_theme-HasTheme values.default_theme _ p refl e

assign_theme_of_HasTheme :
    (theme : Option String) (p : UserPreference)
    → valid_theme theme ≡ true
    → p.default_theme ≡ none
    → assign_theme theme p ≡ ok (record p { default_theme = theme })
unfolding set_default_theme
assign_theme_of_HasTheme none p h e = ground arith
assign_theme_of_HasTheme (some theme) p h e = rw h

-- A preference with a valid theme is rebuilt, whole, from its attributes.
pub new_user_preference-get_attributes :
    (clock : Clock) (p : UserPreference)
    → HasTheme p
    → new_user_preference clock (get_attributes p) ≡ ok p
unfolding new_user_preference get_attributes
new_user_preference-get_attributes clock p h =
    assign_theme_of_HasTheme p.default_theme _ h refl ∙ ground arith
