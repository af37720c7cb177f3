-- ===== src/Effects/Reads.antt =====
-- Actions that leave the store as it is, whether they return or throw.
use node_back_end_boilerplat.Prelude.{◌≡◌, refl, ◌∙◌}
use node_back_end_boilerplat.Exceptions.{Thrown, ExceptionsEnum, ErrorInterface}
use node_back_end_boilerplat.Effects.{
  Result, ok, err, Exec, pure, lift, fail, recover, continue, try_catch, ◌>>=◌,
}

pub record IsRead {S A : Type 0} (m : Exec S A) : Type 0 where
  pub keeps : (s : S) → (m s).1 ≡ s

module _ {S A : Type 0} where
  pub IsRead-pure : (a : A) → IsRead {S = S} (pure a)
  IsRead-pure a = record { keeps = λ s. refl }

  pub IsRead-lift : (r : Result A) → IsRead {S = S} (lift r)
  IsRead-lift r = record { keeps = λ s. refl }

  pub IsRead-fail :
      (kind : ExceptionsEnum) (e : ErrorInterface) → IsRead {S = S} (fail {A = A} kind e)
  IsRead-fail kind e = record { keeps = λ s. refl }

  recover-keeps :
      (r : Result A) (handler : Thrown → Exec S A) (s : S)
      → ((e : Thrown) → IsRead (handler e))
      → (recover r handler s).1 ≡ s
  recover-keeps (ok a) handler s h = refl
  recover-keeps (err e) handler s h = (h e).keeps s

  pub IsRead-try_catch :
      (m : Exec S A) (handler : Thrown → Exec S A)
      → IsRead m
      → ((e : Thrown) → IsRead (handler e))
      → IsRead (try_catch m handler)
  unfolding try_catch
  IsRead-try_catch m handler k h = record {
    keeps = λ s. recover-keeps (m s).0 handler (m s).1 h ∙ k.keeps s;
  }

module _ {S A B : Type 0} where
  continue-keeps :
      (r : Result A) (f : A → Exec S B) (s : S) → ((a : A) → IsRead (f a)) → (continue r f s).1 ≡ s
  continue-keeps (ok a) f s h = (h a).keeps s
  continue-keeps (err e) f s h = refl

  pub IsRead-bind :
      (m : Exec S A) (f : A → Exec S B) → IsRead m → ((a : A) → IsRead (f a)) → IsRead (m >>= f)
  unfolding ◌>>=◌
  IsRead-bind m f k h = record { keeps = λ s. continue-keeps (m s).0 f (m s).1 h ∙ k.keeps s }

pub ruleset read_rules = (IsRead-pure, IsRead-lift, IsRead-fail, IsRead-try_catch, IsRead-bind)
