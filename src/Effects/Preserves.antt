-- ===== src/Effects/Preserves.antt =====
-- Actions that keep a property of the store, whether they return or throw.
use node_back_end_boilerplat.Prelude.{Bool, true, false, if◌then◌else◌}
use node_back_end_boilerplat.Exceptions.{Thrown, ExceptionsEnum, ErrorInterface}
use node_back_end_boilerplat.Effects.{
  Result, ok, err, Exec, pure, lift, raise, fail, recover, continue, try_catch, ◌>>=◌,
}

pub record Preserves {S A : Type 0} (P : S → Type 0) (m : Exec S A) : Type 0 where
  pub keeps : (s : S) → P s → P (m s).1

module _ {S A : Type 0} {P : S → Type 0} where
  pub Preserves-pure : (a : A) → Preserves P (pure a)
  Preserves-pure a = record { keeps = λ s p. p }

  pub Preserves-lift : (r : Result A) → Preserves P (lift r)
  Preserves-lift r = record { keeps = λ s p. p }

  pub Preserves-raise : (e : Thrown) → Preserves P (raise {A = A} e)
  Preserves-raise e = record { keeps = λ s p. p }

  pub Preserves-fail :
      (kind : ExceptionsEnum) (e : ErrorInterface) → Preserves P (fail {A = A} kind e)
  Preserves-fail kind e = record { keeps = λ s p. p }

  recover-keeps :
      (r : Result A) (handler : Thrown → Exec S A) (s : S)
      → ((e : Thrown) → Preserves P (handler e))
      → P s
      → P (recover r handler s).1
  recover-keeps (ok a) handler s h p = p
  recover-keeps (err e) handler s h p = (h e).keeps s p

  pub Preserves-try_catch :
      (m : Exec S A) (handler : Thrown → Exec S A)
      → Preserves P m
      → ((e : Thrown) → Preserves P (handler e))
      → Preserves P (try_catch m handler)
  unfolding try_catch
  Preserves-try_catch m handler k h = record {
    keeps = λ s p. recover-keeps (m s).0 handler (m s).1 h (k.keeps s p);
  }

  pub Preserves-if :
      (b : Bool) (m n : Exec S A) → Preserves P m → Preserves P n → Preserves P (if b then m else n)
  Preserves-if true m n h k = h
  Preserves-if false m n h k = k

module _ {S A B : Type 0} {P : S → Type 0} where
  continue-keeps :
      (r : Result A) (f : A → Exec S B) (s : S)
      → ((a : A) → Preserves P (f a))
      → P s
      → P (continue r f s).1
  continue-keeps (ok a) f s h p = (h a).keeps s p
  continue-keeps (err e) f s h p = p

  pub Preserves-bind :
      (m : Exec S A) (f : A → Exec S B)
      → Preserves P m
      → ((a : A) → Preserves P (f a))
      → Preserves P (m >>= f)
  unfolding ◌>>=◌
  Preserves-bind m f k h = record {
    keeps = λ s p. continue-keeps (m s).0 f (m s).1 h (k.keeps s p);
  }

  -- A value that is there is handed on.
  pub Preserves-bind_of_lift :
      (a : A) (f : A → Exec S B) → Preserves P (f a) → Preserves P (lift (ok a) >>= f)
  unfolding ◌>>=◌
  Preserves-bind_of_lift a f h = record { keeps = h.keeps }

pub ruleset preserves_rules = (
  Preserves-pure, Preserves-lift, Preserves-raise, Preserves-fail, Preserves-try_catch,
  Preserves-if, Preserves-bind,
)
