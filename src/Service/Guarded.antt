-- ===== src/Service/Guarded.antt =====
-- `caughtError` of src/modules/app/user/services: whatever a service catches, it throws an internal
-- exception that says in its details what was caught.
use node_back_end_boilerplat.Prelude.{Option, none, some, String}
use node_back_end_boilerplat.Value.{str}
use node_back_end_boilerplat.Exceptions.{
  Thrown, ErrorInterface, thrown_message, internal, detailed_error, plain_error, ExceptionsEnum,
}
use node_back_end_boilerplat.Effects.{Exec, pure, fail, try_catch}

-- `caughtError`
unfoldable pub caught_error : Thrown → ErrorInterface
caught_error e = detailed_error "Error to comunicate with database" (str (thrown_message e))

-- `try { … } catch (error) { throw this.caughtError(error) }`
unfoldable pub or_caught : {S A : Type 0} → Exec S A → Exec S A
unfolding caught_error
or_caught m = try_catch m (λ e. fail internal (caught_error e))

-- `if (!value) throw this.exceptions.kind({ message })`
abbrev pub require_found : {S A : Type 0} → ExceptionsEnum → String → Option A → Exec S A
require_found kind message none = fail kind (plain_error message)
require_found kind message (some a) = pure a
