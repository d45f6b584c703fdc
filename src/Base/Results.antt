-- ===== src/Base/Results.antt =====
-- A result with an error value, and its sequencing: Go's `if err != nil { return err }`.
use mathlib.Core.Path.{◌≡◌, refl}
use mathlib.Core.Bool.{Bool, true, false}

pub data Result {ℓ κ} (E : Type κ) (A : Type ℓ) : Type (ℓ ⊔ κ) where
  ok : A → Result E A
  err : E → Result E A

-- `if cond { return e }`.
abbrev pub reject_if {κ} : {E : Type κ} → Bool → E → Result E (Unit {0})
reject_if true problem = err problem
reject_if false _ = ok tt

infixl 5 ◌>>=◌ ◌>>◌
abbrev pub ◌>>=◌ {κ ℓ₁ ℓ₂} :
    {E : Type κ} {From : Type ℓ₁} {To : Type ℓ₂}
    → Result E From
    → (From → Result E To)
    → Result E To
err problem >>= _ = err problem
ok value >>= next = next value

abbrev pub ◌>>◌ {κ ℓ₂} :
    {E : Type κ} {To : Type ℓ₂} → Result E (Unit {0}) → Result E To → Result E To
checked >> rest = checked >>= λ _. rest

-- What a chain that went well has seen on its way.
pub >>=-eq-ok {κ ℓ₁ ℓ₂} :
    {E : Type κ} {From : Type ℓ₁} {To : Type ℓ₂} (first : Result E From) (next : From → Result E To)
    {last : To}
    → (first >>= next) ≡ ok last
    → (value : From) × (first ≡ ok value) × (next value ≡ ok last)
>>=-eq-ok (err problem) next went = cc
>>=-eq-ok (ok value) next went = (value, refl, went)
