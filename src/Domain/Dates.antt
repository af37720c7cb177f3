-- ===== src/Domain/Dates.antt =====
-- `getDate` of src/modules/common/classes/AbstractEntity.entity.ts. A date is its time value. The
-- clock and the ISO reading are luxon's, and an argument.
use node_back_end_boilerplat.Prelude.{ℕ, String}
use node_back_end_boilerplat.Value.{Value, str, date}

pub record Clock : Type 0 where
  pub now : ℕ
  pub from_iso : String → ℕ

-- `getDate`
unfoldable pub get_date : Clock → Value → ℕ
get_date clock (date t) = t
get_date clock (str s) = clock.from_iso s
get_date clock _ = clock.now
