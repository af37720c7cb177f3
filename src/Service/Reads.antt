-- ===== src/Service/Reads.antt =====
-- The searches of the services and repositories only read, if the tables' searches do.
use node_back_end_boilerplat.Prelude.{String, Bool, Option, none, some}
use node_back_end_boilerplat.Effects.{Exec}
use node_back_end_boilerplat.Effects.Reads.{IsRead, read_rules}
use node_back_end_boilerplat.Domain.Dates.{Clock}
use node_back_end_boilerplat.Repository.Abstract.{or_internal}
use node_back_end_boilerplat.Repository.Users
use node_back_end_boilerplat.Repository.Users.{UserTable}
use node_back_end_boilerplat.Repository.Preferences.{PreferenceTable, PreferenceQuery}
use node_back_end_boilerplat.Service.Guarded.{or_caught, require_found}
use node_back_end_boilerplat.Service.Users.{get_by_id}
use node_back_end_boilerplat.Service.Preferences.{get_by_user_id}
use node_back_end_boilerplat.Exceptions.{ExceptionsEnum}

or_internal-IsRead : {S A : Type 0} (m : Exec S A) → IsRead m → IsRead (or_internal m)
unfolding or_internal
or_internal-IsRead m h = search read_rules

or_caught-IsRead : {S A : Type 0} (m : Exec S A) → IsRead m → IsRead (or_caught m)
unfolding or_caught
or_caught-IsRead m h = search read_rules

require_found-IsRead :
    {S A : Type 0} (kind : ExceptionsEnum) (message : String) (found : Option A)
    → IsRead {S = S} (require_found kind message found)
require_found-IsRead kind message none = search read_rules
require_found-IsRead kind message (some a) = search read_rules

ruleset service_rules = (read_rules, or_internal-IsRead, or_caught-IsRead, require_found-IsRead)

module _ {S : Type 0} (table : UserTable S) (clock : Clock)
    (reads : (q : Users.UserQuery) → IsRead (table.find_one q)) where
  pub get_by_id-IsRead : (id : String) (wp : Bool) → IsRead (get_by_id table clock id wp)
  unfolding get_by_id
  get_by_id-IsRead id wp = search (service_rules, reads)

module _ {S : Type 0} (table : PreferenceTable S) (clock : Clock)
    (reads : (q : PreferenceQuery) → IsRead (table.find_one q)) where
  pub get_by_user_id-IsRead :
      (user_id : Option String) → IsRead (get_by_user_id table clock user_id)
  unfolding get_by_user_id
  get_by_user_id-IsRead user_id = search (service_rules, reads)
