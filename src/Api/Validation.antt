-- ===== src/Api/Validation.antt =====
-- src/modules/common/utils/validators/SchemaValidator.validator.ts and the pipes of src/modules/api/pipes,
-- src/modules/app/user/api/pipes and src/modules/app/hook/api/pipes, which run before a route. Joi and
-- `new Date` are arguments; log lines are not modelled.
use node_back_end_boilerplat.Prelude.{
  ℕ, String, Option, none, some, List, [], ◌∷◌, if◌then◌else◌, join_text,
}
use node_back_end_boilerplat.Value.{Value, undefined, arr, Items, nil, cons, truthy}
use node_back_end_boilerplat.Effects.{Result, ok, throw_exception}
use node_back_end_boilerplat.Exceptions.{contract, ErrorInterface, plain_error}

-- The error of Joi's validation: its name and, of each detail, its message and the detail.
pub record JoiError : Type 0 where
  pub name : String
  pub details : List (String × Value)

pub data Validated : Type 0 where
  value : Value → Validated
  error : JoiError → Validated

abbrev pub detail_values : List (String × Value) → Items
detail_values [] = nil
detail_values ((message, detail) ∷ details) = cons detail (detail_values details)

-- `error.details.map((errorDetail) => errorDetail.message).join(', ')`
unfoldable pub error_messages : List (String × Value) → String
error_messages [] = ""
error_messages ((message, detail) ∷ []) = message
error_messages ((message, detail) ∷ next ∷ details) =
    join_text message (join_text ", " (error_messages (next ∷ details)))

unfoldable pub joi_exception : JoiError → ErrorInterface
unfolding error_messages
joi_exception e = record {
  name = none;
  message = join_text e.name (join_text ": " (error_messages e.details));
  code = undefined;
  details = arr (detail_values e.details);
  cause = undefined;
}

abbrev pub checked : Validated → Result Value
unfolding joi_exception
checked (value v) = ok v
checked (error e) = throw_exception contract (joi_exception e)

-- `validate`, and so `transform` of the pipes of schemas
unfoldable pub validate : (Value → Validated) → Value → Result Value
unfolding checked
validate schema content = checked (schema content)

-- What the pipe of dates is given: a value, or a function that gives one.
pub data DateInput : Type 0 where
  given : Value → DateInput
  computed : Value → DateInput

-- `isNaN(new Date(value).getTime())`
abbrev pub date_or_invalid : Option ℕ → Result ℕ
date_or_invalid none = throw_exception contract (plain_error "Invalid date")
date_or_invalid (some t) = ok t

-- `transform` of the pipe of dates; a function is no falsy value.
unfoldable pub parse_date : (Value → Option ℕ) → DateInput → Result ℕ
parse_date new_date (given v) =
    if truthy v
    then date_or_invalid (new_date v)
    else throw_exception contract (plain_error "Date is required")
parse_date new_date (computed v) = date_or_invalid (new_date v)
