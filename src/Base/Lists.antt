-- ===== src/Base/Lists.antt =====
-- Lists measured by native numbers, and predicates over lists.
use Prim.Native.Nat.{ℕ, suc, ◌+◌}
use mathlib.Core.Path.{refl, subst, ◌≡◌}
use mathlib.Core.Logic.{inr, inl, ◌⊎◌}
use mathlib.Core.List.{List, [], ◌∷◌, ◌++◌}
use native.Mathlib.Omega.{P, arith}

module _ {ℓ} {A : Type ℓ} where
  abbrev pub length : List A → ℕ
  length [] = 0
  length (x ∷ xs) = suc (length xs)

  pub length-append : (xs ys : List A) → length (xs ++ ys) ≡ length xs + length ys
  length-append [] ys = omega arith
  length-append (x ∷ xs) ys = omega (arith, length-append xs ys)

  abbrev pub All {κ} : (A → Type κ) → List A → Type κ
  All P [] = Unit
  All P (x ∷ xs) = P x × All P xs

  abbrev pub Any : (A → Type 0) → List A → Type 0
  Any P [] = ⊥
  Any P (x ∷ xs) = P x ⊎ Any P xs

  pub All-map {κ ι} :
      (P : A → Type κ) (Q : A → Type ι)
      → ((x : A) → P x → Q x)
      → (xs : List A) → All P xs
      → All Q xs
  All-map P Q f [] h = tt
  All-map P Q f (x ∷ xs) (p, h) = (f x p, All-map P Q f xs h)

  pub All-both {κ ι μ} :
      (P : A → Type κ) (Q : A → Type ι) (R : A → Type μ)
      → ((x : A) → P x → Q x → R x)
      → (xs : List A) → All P xs
      → All Q xs
      → All R xs
  All-both P Q R f [] h k = tt
  All-both P Q R f (x ∷ xs) (p, h) (q, k) = (f x p q, All-both P Q R f xs h k)

  pub All-always {κ} : (P : A → Type κ) → ((x : A) → P x) → (xs : List A) → All P xs
  All-always P f [] = tt
  All-always P f (x ∷ xs) = (f x, All-always P f xs)

module _ {A : Type 0} where
  abbrev pub Among : List A → A → Type 0
  Among xs x = Any (λ y. y ≡ x) xs

  pub All-among : (P : A → Type 0) (xs : List A) (x : A) → All P xs → Among xs x → P x
  All-among P [] x h m = elim m [ ]
  All-among P (y ∷ xs) x (p, h) (inl e) = subst P e p
  All-among P (y ∷ xs) x (p, h) (inr m) = All-among P xs x h m

  pub All-Among : (xs : List A) → All (Among xs) xs
  All-Among [] = tt
  All-Among (x ∷ xs) =
      (inl refl, All-map (Among xs) (Among (x ∷ xs)) (λ y m. inr m) xs (All-Among xs))
