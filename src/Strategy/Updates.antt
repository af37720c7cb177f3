-- ===== src/Strategy/Updates.antt =====
-- When an update is written: `mustUpdate` of src/modules/app/user/strategies/User.strategy.ts.
use node_back_end_boilerplat.Prelude.{
  Bool, true, false, ◌≡◌, ◌↔◌, refl, arith, String, some, eq_iff, ◌⊎◌, or_false, ◌&&◌, ◌||◌,
  if◌then◌else◌, not,
}
use node_back_end_boilerplat.Value.{Value, obj, Fields, end, field, bool, num, str, undefined, null}
use node_back_end_boilerplat.Domain.User.{User}
use node_back_end_boilerplat.Strategy.{
  UserAuth, is_allowed_to_manage_user, must_update, fields_changed, str, get, is_object, strict_eq,
  truthy, undefined, is_defined,
}

strict_eq_iff : (v w : Value) → is_object v ≡ false → (strict_eq v w ≡ true) ↔ (v ≡ w)
strict_eq_iff (str s) (str t) h = ground (arith, eq_iff s t)
strict_eq_iff (num m) (num n) h = ground arith
strict_eq_iff (bool true) (bool b) h = ground arith
strict_eq_iff (bool false) (bool b) h = ground arith
strict_eq_iff v w h = ground arith

strict_eq-str_iff : (v : Value) (s : String) → (strict_eq v (str s) ≡ true) ↔ (v ≡ str s)
strict_eq-str_iff (str t) s = ground (arith, eq_iff t s)
strict_eq-str_iff v s = ground arith

-- Only the user itself passes: for a user with an e-mail and an identifier, the agent's name is that
-- e-mail and its client that identifier, both texts.
pub is_allowed_to_manage_user_iff :
    (agent : UserAuth) (user : User) (email id : String)
    → user.email ≡ some email
    → user.id ≡ some id
    → (is_allowed_to_manage_user agent user ≡ true)
      ↔ ((agent.username ≡ str email) × (agent.client_id ≡ str id))
unfolding is_allowed_to_manage_user
is_allowed_to_manage_user_iff agent user email id e i =
    ground (arith, strict_eq-str_iff agent.username email, strict_eq-str_iff agent.client_id id)

-- An input without nested objects.
abbrev pub IsFlat : Fields → Type 0
IsFlat end = Unit
IsFlat (field key v o) = (is_object v ≡ false) × IsFlat o

-- Each value of the input is undefined or what the attributes hold already.
abbrev pub IsUpToDate : Fields → Fields → Type 0
IsUpToDate attributes end = Unit
IsUpToDate attributes (field key v o) =
    ((v ≡ undefined) ⊎ (v ≡ get key attributes)) × IsUpToDate attributes o

abbrev leaf_changed : Value → Value → Bool
leaf_changed w v = is_defined v && (if is_object v then must_update w v else not (strict_eq v w))

leaf_iff :
    (v w : Value) → is_object v ≡ false → (leaf_changed w v ≡ false) ↔ ((v ≡ undefined) ⊎ (v ≡ w))
leaf_iff undefined w h = ground arith
leaf_iff null w h = ground (arith, strict_eq_iff null w)
leaf_iff (bool b) w h = ground (arith, strict_eq_iff (bool b) w)
leaf_iff (num n) w h = ground (arith, strict_eq_iff (num n) w)
leaf_iff (str s) w h = ground (arith, strict_eq_iff (str s) w)
leaf_iff v w h = cc

or_eq_false : (a b : Bool) → a ≡ false → b ≡ false → (a || b) ≡ false
or_eq_false a b p q = rw (p, q)

fields_changed-eq-false_iff :
    (attributes o : Fields)
    → IsFlat o
    → (fields_changed (obj attributes) o ≡ false) ↔ IsUpToDate attributes o
unfolding must_update
fields_changed-eq-false_iff attributes end h = ((λ _. tt), λ _. refl)
fields_changed-eq-false_iff attributes (field key v o) (flat, rest) =
    let (to, from) = fields_changed-eq-false_iff attributes o rest in
    let (leaf_to, leaf_from) = leaf_iff v (get key attributes) flat in
    let later = fields_changed (obj attributes) o in
    let here = leaf_changed (get key attributes) v in
    (
      (λ e. let (p, q) = or_false here later e in (leaf_to p, to q)),
      λ u. or_eq_false here later (leaf_from u.0) (from u.1),
    )

-- A flat input is written exactly when one of its values is defined and differs from what the
-- attributes hold: `mustUpdate` is false exactly when none does.
pub must_update-eq-false_iff :
    (attributes o : Fields)
    → IsFlat o
    → (must_update (obj attributes) (obj o) ≡ false) ↔ IsUpToDate attributes o
unfolding must_update
must_update-eq-false_iff attributes o h = fields_changed-eq-false_iff attributes o h

-- A nested object is not written where the attributes hold nothing under its key, whatever it
-- says: `mustUpdate` answers false for a missing attribute.
pub must_update_missing :
    (attributes nested o : Fields) (key : String)
    → truthy (get key attributes) ≡ false
    → must_update (obj attributes) (obj (field key (obj nested) o))
      ≡ must_update (obj attributes) (obj o)
unfolding must_update
must_update_missing attributes nested o key h = rw h
