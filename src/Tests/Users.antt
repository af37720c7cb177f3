-- ===== src/Tests/Users.antt =====
-- Examples on users, preferences and passwords: src/modules/domain/entities and the user service.
use node_back_end_boilerplat.Tests.Database.{clock, crypto, ana_entity, theme_entity}
use node_back_end_boilerplat.Prelude.{
  refl, ◌≡◌, ◌≢◌, some, arith, true, false, String, eq_iff, is_blank, if◌then◌else◌, ◌==◌,
}
use node_back_end_boilerplat.Domain.User.{User}
use node_back_end_boilerplat.Strategy.{UserAuth}
use node_back_end_boilerplat.Password.{
  hash_password, validate_password, check_parts, protect_password, check_hash,
}
use node_back_end_boilerplat.Value.{
  str, Value, Fields, field, end, num, obj, bool, undefined, is_object,
}
use node_back_end_boilerplat.Text.{split, first, second, Lacks, remove_first}
use node_back_end_boilerplat.Effects.{ok}
use node_back_end_boilerplat.Password.Laws.{
  validate_password-protect_password, validate_password_sound,
}
use node_back_end_boilerplat.Domain.Subscription.{new_subscription, merged}
use node_back_end_boilerplat.Domain.Subscription.Laws.{IsBuilt, new_subscription-IsBuilt}
use node_back_end_boilerplat.Auth.{Decoded, can_activate, agent_of, validate_token_content}
use node_back_end_boilerplat.Auth.Tokens.{can_activate_sound}

pub not_empty : (s : String) → is_blank s ≡ false → s ≢ ""
not_empty s h = ground (arith, eq_iff s "")

abbrev ana_with_theme : User
ana_with_theme = record ana_entity { preference = some theme_entity }

pub separator_free : Lacks b'|' "#secretksalt"
separator_free = (
  refl,
  (refl, (refl, (refl, (refl, (refl, (refl, (refl, (refl, (refl, (refl, (refl, tt))))))))))),
)

validate_password-protect_password_example :
    (stored : String) × (protect_password crypto "salt" "secret" ≡ ok stored)
    × (validate_password crypto (some stored) "secret" ≡ ok tt)
unfolding hash_password
validate_password-protect_password_example =
    validate_password-protect_password crypto "salt" "secret" "#secretksalt" (not_empty "salt" refl)
      (not_empty "#secretksalt" refl) (refl, (refl, (refl, (refl, tt)))) separator_free refl

validate_password_sound_example :
    (salt : String) × (hash : String) × (first (split b'|' "salt|#secretksalt") ≡ some salt)
    × (second (split b'|' "salt|#secretksalt") ≡ some hash)
    × (salt ≢ "")
    × (hash ≢ "")
    × (hash_password crypto "secret" salt ≡ some hash)
unfolding validate_password check_parts check_hash hash_password split
validate_password_sound_example = validate_password_sound crypto "salt|#secretksalt" "secret" refl

-- A row of the subscriptions, with an identifier of the database driver.
abbrev subscription_row : Fields
subscription_row = field "_id" (num 7) (
    field "subscriptionId" (str "socket1")
      (field "listen" (obj (field "newConnections" (bool true) end)) end))

abbrev row_text : Value → String
row_text v = "seven"

new_subscription-IsBuilt_example : IsBuilt (new_subscription clock row_text subscription_row)
new_subscription-IsBuilt_example = new_subscription-IsBuilt clock row_text subscription_row

subscription_listens :
    (new_subscription clock row_text subscription_row).new_connections_listen ≡ true
unfolding new_subscription merged
subscription_listens = refl

-- Only the token `good` decodes to an object.
abbrev decode : String → Decoded
decode token = record {
  content = if token == "good" then obj (field "username" (str "ana@mail.dev") end) else undefined;
  invalid_signature = true;
  expired = false;
}

abbrev known_agent : UserAuth
known_agent = record { username = str "ana@mail.dev"; client_id = undefined }

can_activate_sound_example :
    (header : String) × (some "Bearer good" ≡ some header)
    × (is_object (decode (remove_first "Bearer " header)).content ≡ true)
    × (known_agent ≡ agent_of (decode (remove_first "Bearer " header)).content)
unfolding can_activate remove_first validate_token_content
can_activate_sound_example = can_activate_sound decode (some "Bearer good") known_agent refl
