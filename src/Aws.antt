-- ===== src/Aws.antt =====
-- src/modules/core/infra/integration/aws: the clients of SQS, SNS, Cognito and S3. What the four share:
-- a command of the vendor's library, `caughtError`, and the readings of its answer.
pub mod Sqs
pub mod Sns
pub mod Cognito
pub mod S3
pub mod Errors
use Prim.Native.String
use Prim.Native.String.{String}
use node_back_end_boilerplat.Prelude.{
  ℕ, Bool, true, false, if◌then◌else◌, ltb, not, ◌&&◌, ◌||◌, ◌==◌, List, [], ◌∷◌,
}
use node_back_end_boilerplat.Value.{
  Value, undefined, str, num, arr, obj, Fields, end, Items, nil, cons, get, truthy, fields_of,
}
use node_back_end_boilerplat.Effects.{Exec, pure, fail, try_catch, ◌>>=◌, ◌>>◌}
use node_back_end_boilerplat.Exceptions.{integration, internal, plain_error, as_error, Thrown}

-- `client.send(new Command(input))`: the command's name and its input; the answer is an object.
abbrev pub Send : Type 0 → Type 0
Send S = String → Fields → Exec S Fields

-- `text.endsWith(end)`
unfoldable pub ends_with : String → String → Bool
ends_with suffix String.[] = suffix == ""
ends_with suffix (String.◌∷◌ c s) = (suffix == String.◌∷◌ c s) || ends_with suffix s

-- `String(flag)`
abbrev pub bool_text : Bool → String
bool_text true = "true"
bool_text false = "false"

-- `value ?? 500` where the answer's status may be missing.
abbrev pub status_or_500 : Value → ℕ
status_or_500 (num n) = n
status_or_500 v = 500

-- `result?.$metadata?.httpStatusCode ?? 500`
abbrev pub status_code_of : Fields → ℕ
status_code_of result = status_or_500 (get "httpStatusCode" (fields_of (get "$metadata" result)))

-- `statusCode >= 200 && statusCode < 300`
unfoldable pub is_success : Fields → Bool
is_success result = not (ltb (status_code_of result) 200) && ltb (status_code_of result) 300

-- The items of an array.
abbrev pub items_of : Value → Items
items_of (arr xs) = xs
items_of v = nil

-- The items of an array, as a list.
abbrev pub item_list : Items → List Value
item_list nil = []
item_list (cons v xs) = v ∷ item_list xs

module _ {S : Type 0} where
  -- `try { m } catch (error) { throw this.caughtError(error) }`
  unfoldable pub or_integration : {A : Type 0} → Exec S A → Exec S A
  or_integration m = try_catch m (λ e. fail integration (as_error e))

  -- `if (!value) throw this.exceptions.internal({ message })`, and the value that is returned.
  unfoldable pub required : Value → String → Exec S Value
  required value message = if truthy value then pure value else fail internal (plain_error message)
