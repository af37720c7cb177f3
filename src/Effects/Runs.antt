-- ===== src/Effects/Runs.antt =====
-- Actions that returned: what ran, and on which store.
use node_back_end_boilerplat.Prelude.{◌≡◌, refl}
use node_back_end_boilerplat.Exceptions.{Thrown}
use node_back_end_boilerplat.Effects.{
  Result, ok, err, Exec, recover, continue, try_catch, ◌>>=◌, bind_result,
}

module _ {S A B : Type 0} where
  continue_run :
      (r : Result A) (s : S) (f : A → Exec S B) (b : B)
      → (continue r f s).0 ≡ ok b
      → (a : A) × (r ≡ ok a) × (continue r f s ≡ f a s)
  continue_run (ok a) s f b h = (a, refl, refl)
  continue_run (err e) s f b h = cc

  -- A sequence that returned ran its second action, on what its first one left.
  pub bind_run :
      (m : Exec S A) (f : A → Exec S B) (s : S) (b : B)
      → ((m >>= f) s).0 ≡ ok b
      → (a : A) × ((m s).0 ≡ ok a) × ((m >>= f) s ≡ f a (m s).1) × ((f a (m s).1).0 ≡ ok b)
  unfolding ◌>>=◌
  bind_run m f s b h =
      let (a, same, run) = continue_run (m s).0 (m s).1 f b h in (a, same, run, rw run at h)

  -- A sequence whose first action returns goes on, on what that left.
  pub bind_goes_on :
      (m : Exec S A) (f : A → Exec S B) (s t : S) (a : A) → m s ≡ (ok a, t) → (m >>= f) s ≡ f a t
  unfolding ◌>>=◌
  bind_goes_on m f s t a h = rw h

module _ {S A : Type 0} where
  recover_run :
      (r : Result A) (s : S) (handler : Thrown → Exec S A) (a : A)
      → ((e : Thrown) (t : S) → (x : Thrown) × ((handler e t).0 ≡ err x))
      → (recover r handler s).0 ≡ ok a
      → (r ≡ ok a) × (recover r handler s ≡ (r, s))
  recover_run (ok b) s handler a fails h = (h, refl)
  recover_run (err e) s handler a fails h = let (x, p) = fails e s in cc

  -- A guarded action that returned did not need its handler, which always throws.
  pub try_catch_run :
      (m : Exec S A) (handler : Thrown → Exec S A) (s : S) (a : A)
      → ((e : Thrown) (t : S) → (x : Thrown) × ((handler e t).0 ≡ err x))
      → (try_catch m handler s).0 ≡ ok a
      → ((m s).0 ≡ ok a) × (try_catch m handler s ≡ m s)
  unfolding try_catch
  try_catch_run m handler s a fails h = recover_run (m s).0 (m s).1 handler a fails h

  -- A guarded action that returns is not caught.
  pub try_catch_of_ok :
      (m : Exec S A) (handler : Thrown → Exec S A) (s t : S) (a : A)
      → m s ≡ (ok a, t)
      → try_catch m handler s ≡ (ok a, t)
  unfolding try_catch
  try_catch_of_ok m handler s t a h = rw h

module _ {A B : Type 0} where
  -- The same of results alone.
  pub bind_result_run :
      (r : Result A) (f : A → Result B) (b : B)
      → bind_result r f ≡ ok b
      → (a : A) × (r ≡ ok a) × (f a ≡ ok b)
  bind_result_run (ok a) f b h = (a, refl, h)
  bind_result_run (err e) f b h = cc
