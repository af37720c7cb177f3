-- ===== src/Effects.antt =====
-- Results of code that may throw, and actions that read and write a store and may throw. What was
-- written before a throw stays written. `await` of an action is its sequencing.
pub mod Reads
pub mod Preserves
pub mod Runs
use node_back_end_boilerplat.Prelude.{false, ◌≡◌, refl, ◌⊎◌, inl, inr, sym, ◌∙◌, ◌≢◌}
use node_back_end_boilerplat.Exceptions.{Thrown, http, ErrorInterface, ExceptionsEnum, exception}

pub data Result {ℓ} (A : Type ℓ) : Type ℓ where
  ok : A → Result A
  err : Thrown → Result A

-- `throw this.exceptions.kind(error)`
abbrev pub throw_exception {ℓ} : {A : Type ℓ} → ExceptionsEnum → ErrorInterface → Result A
throw_exception kind e = err (http (exception kind e false))

abbrev pub bind_result {ℓ κ} : {A : Type ℓ} {B : Type κ} → Result A → (A → Result B) → Result B
bind_result (ok a) f = f a
bind_result (err e) f = err e

abbrev pub Exec {ℓ} : Type ℓ → Type ℓ → Type ℓ
Exec S A = S → Result A × S

module _ {ℓ} {S A : Type ℓ} where
  abbrev pub pure : A → Exec S A
  pure a s = (ok a, s)

  abbrev pub raise : Thrown → Exec S A
  raise e s = (err e, s)

  -- Code that touches no store.
  abbrev pub lift : Result A → Exec S A
  lift r s = (r, s)

  abbrev pub fail : ExceptionsEnum → ErrorInterface → Exec S A
  fail kind e = raise (http (exception kind e false))

  abbrev pub recover : Result A → (Thrown → Exec S A) → Exec S A
  recover (ok a) handler s = (ok a, s)
  recover (err e) handler s = handler e s

  -- `try { m } catch (error) { handler }`
  unfoldable pub try_catch : Exec S A → (Thrown → Exec S A) → Exec S A
  try_catch m handler s = let (r, s') = m s in recover r handler s'

module _ {ℓ} {S A B : Type ℓ} where
  abbrev pub continue : Result A → (A → Exec S B) → Exec S B
  continue (ok a) f s = f a s
  continue (err e) f s = (err e, s)

  infixl 10 ◌>>=◌ ◌>>◌
  unfoldable pub ◌>>=◌ : Exec S A → (A → Exec S B) → Exec S B
  ◌>>=◌ m f s = let (r, s') = m s in continue r f s'

  abbrev pub ◌>>◌ : Exec S A → Exec S B → Exec S B
  m >> n = m >>= λ _. n

pub Result-cases {ℓ} :
    {A : Type ℓ} (r : Result A) → ((a : A) × (r ≡ ok a)) ⊎ ((e : Thrown) × (r ≡ err e))
Result-cases (ok a) = inl (a, refl)
Result-cases (err e) = inr (e, refl)

abbrev failed {ℓ} : (A : Type ℓ) → Thrown → Result A
failed A e = err e

ok_err {ℓ} : {A : Type ℓ} (a : A) (e : Thrown) → ok a ≢ failed A e
ok_err a e h = cc

same_err {ℓ} : {A B : Type ℓ} (c e : Thrown) → failed B c ≡ failed B e → failed A c ≡ failed A e
same_err c e h = cc

module _ {ℓ} {S A B : Type ℓ} where
  continue-eq-ok :
      (r : Result A) (s : S) (f : A → Exec S B) (b : B)
      → (continue r f s).0 ≡ ok b
      → (a : A) × (r ≡ ok a) × ((f a s).0 ≡ ok b)
  continue-eq-ok (ok a) s f b h = (a, refl, h)
  continue-eq-ok (err e) s f b h = cc

  -- A sequence returns only if its first action does, and its second on what that returned.
  pub bind-eq-ok :
      (m : Exec S A) (f : A → Exec S B) (s : S) (b : B)
      → ((m >>= f) s).0 ≡ ok b
      → (a : A) × ((m s).0 ≡ ok a) × ((f a (m s).1).0 ≡ ok b)
  unfolding ◌>>=◌
  bind-eq-ok m f s b h = continue-eq-ok (m s).0 (m s).1 f b h

  continue-eq-err :
      (r : Result A) (s : S) (f : A → Exec S B) (e : Thrown)
      → ((a : A) → (b : B) × ((f a s).0 ≡ ok b))
      → (continue r f s).0 ≡ err e
      → r ≡ err e
  continue-eq-err (ok a) s f e total h = absurd (ok_err (total a).0 e (sym (total a).1 ∙ h))
  continue-eq-err (err c) s f e total h = same_err c e h

  -- If the rest of a sequence always returns, it is the first action that throws.
  pub bind-eq-err :
      (m : Exec S A) (f : A → Exec S B) (s : S) (e : Thrown)
      → ((a : A) (t : S) → (b : B) × ((f a t).0 ≡ ok b))
      → ((m >>= f) s).0 ≡ err e
      → (m s).0 ≡ err e
  unfolding ◌>>=◌
  bind-eq-err m f s e total h = continue-eq-err (m s).0 (m s).1 f e (λ a. total a (m s).1) h

  -- A first action that returns and leaves the store hands its value on.
  pub bind_of_ok :
      (m : Exec S A) (f : A → Exec S B) (s : S) (a : A) → m s ≡ (ok a, s) → (m >>= f) s ≡ f a s
  unfolding ◌>>=◌
  bind_of_ok m f s a p = rw p

  -- A first action that throws ends the sequence.
  pub bind_of_err :
      (m : Exec S A) (f : A → Exec S B) (s t : S) (e : Thrown)
      → m s ≡ (err e, t)
      → (m >>= f) s ≡ (err e, t)
  unfolding ◌>>=◌
  bind_of_err m f s t e p = rw p

module _ {ℓ} {S A : Type ℓ} where
  recover-eq-ok :
      (r : Result A) (s : S) (handler : Exec S A) (a : A) (e : Thrown)
      → ((t : S) → (handler t).0 ≡ err e)
      → (recover r (λ _. handler) s).0 ≡ ok a
      → r ≡ ok a
  recover-eq-ok (ok b) s handler a e fails h = h
  recover-eq-ok (err below) s handler a e fails h = cc (fails s)

  -- Where the handler always throws, a guarded action returns what the action itself returned.
  pub try_catch-eq-ok :
      (m handler : Exec S A) (s : S) (a : A) (e : Thrown)
      → ((t : S) → (handler t).0 ≡ err e)
      → (try_catch m (λ _. handler) s).0 ≡ ok a
      → (m s).0 ≡ ok a
  unfolding try_catch
  try_catch-eq-ok m handler s a e fails h = recover-eq-ok (m s).0 (m s).1 handler a e fails h

  recover-eq-err :
      (r : Result A) (s : S) (handler : Exec S A) (e e' : Thrown)
      → ((t : S) → (handler t).0 ≡ err e)
      → (recover r (λ _. handler) s).0 ≡ err e'
      → e' ≡ e
  recover-eq-err (ok b) s handler e e' fails h = cc
  recover-eq-err (err below) s handler e e' fails h = cc (fails s)

  pub try_catch-eq-err :
      (m handler : Exec S A) (s : S) (e e' : Thrown)
      → ((t : S) → (handler t).0 ≡ err e)
      → (try_catch m (λ _. handler) s).0 ≡ err e'
      → e' ≡ e
  unfolding try_catch
  try_catch-eq-err m handler s e e' fails h = recover-eq-err (m s).0 (m s).1 handler e e' fails h
