-- ===== src/Prelude/Result.antt =====
-- The result of code that may panic or return an error, with its sequencing.
use mathlib.Core.Path.{◌≡◌, refl}
use mathlib.Core.Logic.{◌⊎◌, inl, inr}
use mathlib.Core.Bool.{Bool, true, false}

pub data Result (E A : Type 0) : Type 0 where
  ok : A → Result E A
  err : E → Result E A

infixl 5 ◌>>=◌ ◌>>◌
abbrev pub ◌>>=◌ : {E A B : Type 0} → Result E A → (A → Result E B) → Result E B
ok value >>= next = next value
err error >>= next = err error

abbrev pub ◌>>◌ : {E B : Type 0} → Result E (Unit {0}) → Result E B → Result E B
before >> next = before >>= λ _. next

-- `if b { panic(e) }`
abbrev pub fail_if : {E : Type 0} → Bool → E → Result E (Unit {0})
fail_if true e = err e
fail_if false e = ok tt

-- A sequence that succeeds has successful parts.
pub >>=-eq-ok :
    {E A B : Type 0} (before : Result E A) (next : A → Result E B) {last : B}
    → (before >>= next) ≡ ok last
    → (value : A) × (before ≡ ok value) × (next value ≡ ok last)
>>=-eq-ok (ok value) next done = (value, refl, done)
>>=-eq-ok (err error) next done = cc

-- A result, with the equation that says which.
pub Result-cases :
    {E A : Type 0} (r : Result E A) → ((a : A) × (r ≡ ok a)) ⊎ ((e : E) × (r ≡ err e))
Result-cases (ok a) = inl (a, refl)
Result-cases (err e) = inr (e, refl)

-- A sequence of parts that succeed succeeds.
pub >>=_returns :
    {E A B : Type 0} (before : Result E A) (next : A → Result E B) (value : A)
    → before ≡ ok value
    → (last : B) × (next value ≡ ok last)
    → (last : B) × ((before >>= next) ≡ ok last)
>>=_returns before next value done (last, rest) = (last, rw done rest)
