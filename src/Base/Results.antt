-- ===== src/Base/Results.antt =====
-- A Go pair of a value and an error: the value, or the error alone.
use mathlib.Core.Path.{◌≡◌, refl}
use mathlib.Core.Bool.{Bool, true, false}
use crawlledger.Base.Tests.{if◌then◌else◌}

pub data Result (E A : Type 0) : Type 0 where
  err : E → Result E A
  ok : A → Result E A

module _ {E A B : Type 0} where
  infixl 5 ◌>>=◌
  abbrev pub ◌>>=◌ : Result E A → (A → Result E B) → Result E B
  err failure >>= next = err failure
  ok value >>= next = next value

  infixl 5 ◌>>◌
  abbrev pub ◌>>◌ : Result E A → Result E B → Result E B
  first >> next = first >>= (λ ignored. next)

  -- A chain succeeds only through a success of its first part.
  pub >>=-eq-ok :
      (first : Result E A) (next : A → Result E B) {last : B}
      → (first >>= next) ≡ ok last
      → (value : A) × (first ≡ ok value) × (next value ≡ ok last)
  >>=-eq-ok (err failure) next h = cc
  >>=-eq-ok (ok value) next h = (value, refl, h)

-- A guard that returns an error was not taken where the code succeeds.
module _ {E A : Type 0} where
  pub guard_ok :
      (test : Bool) (failure : E) (rest : Result E A) {last : A}
      → (if test then err failure else rest) ≡ ok last
      → (test ≡ false) × (rest ≡ ok last)
  guard_ok true failure rest h = cc
  guard_ok false failure rest h = (refl, h)
