-- ===== src/Queue/Errors.antt =====
-- When a consumer gives up: the errors of src/modules/events/queue/consumers.
use node_back_end_boilerplat.Queue.Consumer.{Consumer, handle_error, increase_error}
use node_back_end_boilerplat.Prelude.{
  ℕ, List, [], ◌∷◌, length, ◌+◌, ◌<◌, ◌≡◌, arith, ap, ◌∙◌, ◌≤◌, ◌++◌,
}
use node_back_end_boilerplat.Effects.{ok, Exec, pure, ◌>>◌, ◌>>=◌, err}
use node_back_end_boilerplat.Exceptions.{Thrown}

-- Errors one after another, with no message handled in between.
abbrev pub handle_errors : {S : Type 0} → List Thrown → Exec (Consumer S) (Unit {0})
handle_errors [] = pure tt
handle_errors (e ∷ es) = handle_error e >> handle_errors es

abbrev pub counted : {S : Type 0} → Consumer S → ℕ → Consumer S
counted c n = record c { errors_count = n }

handle_error_silent :
    {S : Type 0} (e : Thrown) (c : Consumer S)
    → c.errors_count + 1 < 10
    → handle_error e c ≡ (ok tt, counted c (c.errors_count + 1))
unfolding handle_error increase_error
handle_error_silent e c h = ground arith

-- A consumer bears errors in silence as long as fewer than ten came since it last handled a
-- message: then it only counts them.
pub handle_errors_silent :
    {S : Type 0} (es : List Thrown) (c : Consumer S)
    → c.errors_count + length es < 10
    → handle_errors es c ≡ (ok tt, counted c (c.errors_count + length es))
unfolding ◌>>=◌
handle_errors_silent [] c h = ap (λ n. (ok tt, counted c n)) (omega arith)
handle_errors_silent (e ∷ es) c h = rw (handle_error_silent e c (omega arith)) (
    handle_errors_silent es (counted c (c.errors_count + 1)) (omega arith)
    ∙ ap (λ n. (ok tt, counted c n)) (omega arith))

handle_error_loud :
    {S : Type 0} (e : Thrown) (c : Consumer S)
    → 10 ≤ c.errors_count + 1
    → handle_error e c ≡ (err e, counted c (c.errors_count + 1))
unfolding handle_error increase_error
handle_error_loud e c h = ground arith

-- The tenth error in a row is thrown on: where the errors counted and those that come first make
-- nine, the next one leaves the consumer, that error itself, and ten are counted.
pub handle_errors_loud :
    {S : Type 0} (es : List Thrown) (e : Thrown) (c : Consumer S)
    → c.errors_count + length es < 10
    → 9 ≤ c.errors_count + length es
    → handle_errors (es ++ e ∷ []) c ≡ (err e, counted c 10)
unfolding ◌>>=◌
handle_errors_loud [] e c below above =
    rw (handle_error_loud e c (omega arith)) (ap (λ n. (err e, counted c n)) (omega arith))
handle_errors_loud (x ∷ es) e c below above =
    rw (handle_error_silent x c (omega arith))
      (handle_errors_loud es e (counted c (c.errors_count + 1)) (omega arith) (omega arith))
