-- ===== src/Prelude/Result.antt =====
-- Code that throws returns a `Result`; an `err` carries what was thrown.
use mathlib.Core.Path.{◌≡◌, refl}
use mathlib.Core.Logic.{◌⊎◌, inl, inr}
use mathlib.Core.Bool.{Bool, true, false}

pub data Result {ℓ} (E A : Type ℓ) : Type ℓ where
  err : E → Result E A
  ok : A → Result E A

-- What is thrown goes past the rest of the code.
infixl 5 ◌>>=◌ ◌>>◌
abbrev pub ◌>>=◌ {ℓ} : {E A B : Type ℓ} → Result E A → (A → Result E B) → Result E B
err thrown >>= rest = err thrown
ok value >>= rest = rest value

-- `if (!condition) throw e`
abbrev pub require {ℓ} : {E : Type ℓ} → Bool → E → Result E (Unit {ℓ})
require true e = ok tt
require false e = err e

abbrev pub ◌>>◌ {ℓ} : {E B : Type ℓ} → Result E (Unit {ℓ}) → Result E B → Result E B
check >> rest = check >>= λ _. rest

pub ok-injective {ℓ} : {E A : Type ℓ} {a b : A} → ◌≡◌ {A = Result E A} (ok a) (ok b) → a ≡ b
ok-injective h = cc

-- Inversion of a successful bind, which hands what is learned to the rest of a proof as variables.
module _ {ℓ κ} {E A B : Type ℓ} {P : Type κ} {b : B} where
  pub on_bind :
      (m : Result E A) (f : A → Result E B)
      → (m >>= f) ≡ ok b
      → ((a : A) → m ≡ ok a → f a ≡ ok b → P)
      → P
  on_bind (ok a) f h k = k a refl h
  on_bind (err e) f h k = absurd (cc)

module _ {ℓ κ} {E B : Type ℓ} {P : Type κ} {b : B} where
  pub on_require :
      (test : Bool) (e : E) (rest : Result E B)
      → (require test e >> rest) ≡ ok b
      → (test ≡ true → rest ≡ ok b → P)
      → P
  on_require true e rest h k = k refl h
  on_require false e rest h k = absurd (cc)

pub Result-cases {ℓ} :
    {E A : Type ℓ} (r : Result E A) → ((a : A) × (r ≡ ok a)) ⊎ ((e : E) × (r ≡ err e))
Result-cases (ok a) = inl (a, refl)
Result-cases (err e) = inr (e, refl)
