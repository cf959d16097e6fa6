-- ===== src/Exec.antt =====
-- C++ code as a function of the state: it returns or throws, and what was written before a throw
-- stays written. `terminated` is a call of std::terminate; `out_of_fuel` says that a loop took
-- more rounds than its bound allows.
use socket_wrapper.Prelude.Int.{ℤ, minus_one}
use socket_wrapper.Exception.{Exception, ExceptionType, socket}

pub data Outcome (A : Type 0) : Type 0 where
  ok : A → Outcome A
  throws : Exception → Outcome A
  terminated : Outcome A
  out_of_fuel : Outcome A

abbrev pub Exec : Type 0 → Type 0 → Type 0
Exec S A = S → Outcome A × S

module _ {S A : Type 0} where
  abbrev pub pure : A → Exec S A
  pure a s = (ok a, s)

  abbrev pub raise : Exception → Exec S A
  raise e s = (throws e, s)

  abbrev pub terminate : Exec S A
  terminate s = (terminated, s)

  abbrev pub diverge : Exec S A
  diverge s = (out_of_fuel, s)

  abbrev pub gets : (S → A) → Exec S A
  gets f s = (ok (f s), s)

  -- A call that cannot throw.
  abbrev pub call : (S → A × S) → Exec S A
  call f s = let (a, s') = f s in (ok a, s')

abbrev pub modify : {S : Type 0} → (S → S) → Exec S (Unit {0})
modify f s = (ok tt, f s)

module _ {S A B : Type 0} where
  abbrev pub continue : Outcome A → (A → Exec S B) → Exec S B
  continue (ok a) f s = f a s
  continue (throws e) f s = (throws e, s)
  continue terminated f s = (terminated, s)
  continue out_of_fuel f s = (out_of_fuel, s)

  infixl 5 ◌>>=◌ ◌>>◌
  abbrev pub ◌>>=◌ : Exec S A → (A → Exec S B) → Exec S B
  ◌>>=◌ m f s = let (r, s') = m s in continue r f s'

  abbrev pub ◌>>◌ : Exec S A → Exec S B → Exec S B
  m >> n = m >>= λ _. n

-- Code that works on a part of the state.
abbrev pub on_second : {R S A : Type 0} → Exec S A → Exec (R × S) A
on_second m (r, s) = let (a, s') = m s in (a, (r, s'))

-- `throw SocketException(t, c_error)`; the third argument of its constructor defaults to -1.
abbrev pub throw_socket : {S A : Type 0} → ExceptionType → ℤ → Exec S A
throw_socket t c_error =
    raise (socket (record { exception_type = t; c_error = c_error; processed_bytes = minus_one }))
