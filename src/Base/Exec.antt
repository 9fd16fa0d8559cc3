-- ===== src/Base/Exec.antt =====
-- Methods that change an object and may throw: what was written before a throw stays written, so
-- the state comes back beside the error too.
use mathlib.Core.Bool.{Bool, true, false}
use serverless_order_integra.Base.Results.{Result, ok, err}

abbrev pub Exec : Type 0 → Type 0 → Type 0 → Type 0
Exec S E A = S → Result E A × S

module _ {S E A : Type 0} where
  abbrev pub pure : A → Exec S E A
  pure a s = (ok a, s)

  abbrev pub raise : E → Exec S E A
  raise e s = (err e, s)

  abbrev pub lift : Result E A → Exec S E A
  lift r s = (r, s)

  -- A read of the state.
  abbrev pub gets : (S → A) → Exec S E A
  gets f s = (ok (f s), s)

module _ {S E A B : Type 0} where
  abbrev pub continue : Result E A → (A → Exec S E B) → Exec S E B
  continue (ok a) f s = f a s
  continue (err e) f s = (err e, s)

  infixl 5 ◌>>=◌ ◌>>◌
  abbrev pub ◌>>=◌ : Exec S E A → (A → Exec S E B) → Exec S E B
  ◌>>=◌ m f s = continue (m s).0 f (m s).1

  abbrev pub ◌>>◌ : Exec S E A → Exec S E B → Exec S E B
  m >> k = m >>= λ _. k

module _ {S E : Type 0} where
  -- A write to the state.
  abbrev pub modify : (S → S) → Exec S E (Unit {0})
  modify f s = (ok tt, f s)

  -- `if (!test) throw error`
  abbrev pub check : Bool → E → Exec S E (Unit {0})
  check true e s = (ok tt, s)
  check false e s = (err e, s)

abbrev pub is_ok : {E A : Type 0} → Result E A → Bool
is_ok (ok a) = true
is_ok (err e) = false

module _ {S E A B : Type 0} where
  -- `try { m } catch`: the rest sees the result, thrown or returned.
  abbrev pub attempt : Exec S E A → (Result E A → Exec S E B) → Exec S E B
  attempt m k s = k (m s).0 (m s).1
