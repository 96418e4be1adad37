-- ===== src/Exec.antt =====
-- Go methods that change a state and return `(T, error)`: a result beside the new state. What was
-- written before an error stays written. A panic is a third outcome, which no `if err != nil`
-- catches.
use cloud_android_orchestrat.Prelude.{Bool, if◌then◌else◌, String, ◌≡◌, refl, ◌⊎◌, inl, inr}
use cloud_android_orchestrat.Errors.{GoError, wrap}

pub data Result {ℓ} (A : Type ℓ) : Type ℓ where
  ok : A → Result A
  err : GoError → Result A
  panic : String → Result A

abbrev pub Exec : Type 0 → Type 0 → Type 0
Exec S A = S → Result A × S

-- `if err != nil { return fmt.Errorf("msg: %w", err) }`
abbrev pub wrap_result : {A : Type 0} → String → Result A → Result A
wrap_result msg (ok a) = ok a
wrap_result msg (err e) = err (wrap msg e)
wrap_result msg (panic p) = panic p

-- The rest of a body behind `if err != nil { return err }`, where no state changes.
abbrev pub then_value : {A B : Type 0} → Result A → (A → Result B) → Result B
then_value (ok a) f = f a
then_value (err e) f = err e
then_value (panic p) f = panic p

module _ {S A : Type 0} where
  abbrev pub pure : A → Exec S A
  pure a s = (ok a, s)

  abbrev pub raise : GoError → Exec S A
  raise e s = (err e, s)

  abbrev pub crash : String → Exec S A
  crash msg s = (panic msg, s)

  abbrev pub lift : Result A → Exec S A
  lift r s = (r, s)

  abbrev pub gets : (S → A) → Exec S A
  gets f s = (ok (f s), s)

  abbrev pub wrapped : String → Exec S A → Exec S A
  wrapped msg m s = let (r, s') = m s in (wrap_result msg r, s')

  -- `if err != nil { ... }` where the branch goes on in its own way.
  abbrev pub recover : Result A → (GoError → Exec S A) → Exec S A
  recover (ok a) h s = (ok a, s)
  recover (err e) h s = h e s
  recover (panic p) h s = (panic p, s)

  abbrev pub on_error : Exec S A → (GoError → Exec S A) → Exec S A
  on_error m h s = let (r, s') = m s in recover r h s'

-- `if test { return err }`
abbrev pub raise_if : {S : Type 0} → Bool → GoError → Exec S (Unit {0})
raise_if test e s = if test then (err e, s) else (ok tt, s)

-- A call whose error is only logged.
abbrev pub logged : {S : Type 0} → Exec S (Unit {0}) → Exec S (Unit {0})
logged m = on_error m (λ _. pure tt)

module _ {S A B : Type 0} where
  abbrev pub continue : Result A → (A → Exec S B) → Exec S B
  continue (ok a) f s = f a s
  continue (err e) f s = (err e, s)
  continue (panic p) f s = (panic p, s)

  infixl 10 ◌>>=◌ ◌>>◌
  abbrev pub ◌>>=◌ : Exec S A → (A → Exec S B) → Exec S B
  ◌>>=◌ m f s = let (r, s') = m s in continue r f s'

  abbrev pub ◌>>◌ : Exec S A → Exec S B → Exec S B
  ◌>>◌ m n = m >>= λ _. n

  -- `defer d()` above the rest of a body: `d` runs whatever the body returns, its result is dropped.
  abbrev pub deferring : Exec S B → Exec S A → Exec S A
  deferring d m s = let (r, s') = m s in (r, (d s').1)

-- A method of a component of the state.
abbrev run_on : {S T A : Type 0} → Result A × T → (T → S) → Result A × S
run_on (r, t) put = (r, put t)

abbrev pub zoom : {S T A : Type 0} → (S → T) → (S → T → S) → Exec T A → Exec S A
zoom get put m s = run_on (m (get s)) (put s)

-- To split on a computed result and keep the equation.
pub Result-cases :
    {A : Type 0} (r : Result A)
    → ((a : A) × (r ≡ ok a)) ⊎ ((e : GoError) × (r ≡ err e)) ⊎ ((p : String) × (r ≡ panic p))
Result-cases (ok a) = inl (a, refl)
Result-cases (err e) = inr (inl (e, refl))
Result-cases (panic p) = inr (inr (p, refl))
