-- ===== src/Service/Errors.antt =====
-- What the services throw: src/modules/app/user/services.
use node_back_end_boilerplat.Prelude.{String, ◌≡◌, refl, ◌⊎◌, inl, inr, Option, Bool, false, arith}
use node_back_end_boilerplat.Exceptions.{
  Thrown, http, exception, internal, detailed_error, thrown_message,
}
use node_back_end_boilerplat.Effects.{Result, ok, err, Exec, recover, raise, try_catch}
use node_back_end_boilerplat.Domain.Dates.{Clock}
use node_back_end_boilerplat.Domain.User.{User}
use node_back_end_boilerplat.Password.{Crypto}
use node_back_end_boilerplat.Repository.Users.{UserTable}
use node_back_end_boilerplat.Service.Guarded.{or_caught, caught_error}
use node_back_end_boilerplat.Service.Users.{get_by_id, get_by_email, create, delete, list}
use node_back_end_boilerplat.Value.{str}
use node_back_end_boilerplat.Repository.UserQuery.{UserBuildParams}

-- The exception that a service makes of a caught error.
abbrev pub caught_exception : Thrown → Thrown
caught_exception e = http (exception internal (caught_error e) false)

recover_inv :
    {S A : Type 0} (r : Result A) (s : S) (e : Thrown)
    → (recover r (λ below. raise (caught_exception below)) s).0 ≡ err e
    → (below : Thrown) × (r ≡ err below) × (e ≡ caught_exception below)
recover_inv (ok a) s e h = cc
recover_inv (err below) s e h = (below, refl, ground arith)

-- Where a guarded action throws, the action below threw, and what is thrown is made of that.
or_caught_inv :
    {S A : Type 0} (m : Exec S A) (s : S) (e : Thrown)
    → (or_caught m s).0 ≡ err e
    → (below : Thrown) × ((m s).0 ≡ err below) × (e ≡ caught_exception below)
unfolding or_caught try_catch
or_caught_inv m s e h = recover_inv (m s).0 (m s).1 e h

-- The exception is internal, answers with 500, and tells of an error in the database.
abbrev pub IsDatabaseError : Thrown → Type 0
IsDatabaseError e =
    (details : String) × (e
      ≡ http (
          exception internal (detailed_error "Error to comunicate with database" (str details))
            false))

or_caught-IsDatabaseError :
    {S A : Type 0} (m : Exec S A) (s : S) (e : Thrown)
    → (or_caught m s).0 ≡ err e
    → IsDatabaseError e
unfolding caught_error
or_caught-IsDatabaseError m s e h =
    let (below, _, made) = or_caught_inv m s e h in (thrown_message below, made)

-- Every exception that leaves `getById`, `getByEmail`, `create`, `delete` and `list` of the user
-- service is the internal one, whatever was thrown inside: a user that is not found, an e-mail in
-- use and an invalid password are answered with 500 too.
pub service_errors :
    {S : Type 0} (table : UserTable S) (clock : Clock) (crypto : Crypto) (salt id : String)
    (agent email : Option String) (soft : Bool) (entity : User) (query : UserBuildParams) (s : S)
    (e : Thrown)
    → ((get_by_id table clock id soft s).0 ≡ err e)
      ⊎ ((get_by_email table clock email s).0 ≡ err e)
      ⊎ ((create table clock crypto salt entity s).0 ≡ err e)
      ⊎ ((delete table clock id soft agent s).0 ≡ err e)
      ⊎ ((list table clock query s).0 ≡ err e)
    → IsDatabaseError e
unfolding get_by_id get_by_email create delete list
service_errors table clock crypto salt id agent email soft entity query s e (inl h) =
    or_caught-IsDatabaseError _ s e h
service_errors table clock crypto salt id agent email soft entity query s e (inr (inl h)) =
    or_caught-IsDatabaseError _ s e h
service_errors table clock crypto salt id agent email soft entity query s e (inr (inr (inl h))) =
    or_caught-IsDatabaseError _ s e h
service_errors table clock crypto salt id agent email soft entity query s e
      (inr (inr (inr (inl h)))) =
    or_caught-IsDatabaseError _ s e h
service_errors table clock crypto salt id agent email soft entity query s e
      (inr (inr (inr (inr h)))) =
    or_caught-IsDatabaseError _ s e h
