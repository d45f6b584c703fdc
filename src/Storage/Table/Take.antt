-- ===== src/Storage/Table/Take.antt =====
-- What `LIMIT` leaves of rows that are in order.
use lap_guard.Base.{
  ℕ, zero, suc, ◌≤◌, ◌≡◌, ◌⊎◌, inl, inr, refl, List, [], ◌∷◌, All, All-both, All-always, Among,
  length, arith,
}
use lap_guard.Storage.Table.{take}

module _ {A : Type 0} where
  pub take-length : (k : ℕ) (xs : List A) → length (take k xs) ≤ k
  unfolding take
  take-length zero xs = omega arith
  take-length (suc k) [] = omega arith
  take-length (suc k) (x ∷ xs) = omega (arith, take-length k xs)

  pub take-All : (P : A → Type 0) (k : ℕ) (xs : List A) → All P xs → All P (take k xs)
  unfolding take
  take-All P zero xs h = tt
  take-All P (suc k) [] h = tt
  take-All P (suc k) (x ∷ xs) (p, h) = (p, take-All P k xs h)

  module _ (R : A → A → Type 0) where
    -- Each element is in relation to all that follow it.
    abbrev pub Pairwise : List A → Type 0
    Pairwise [] = Unit
    Pairwise (x ∷ xs) = All (R x) xs × Pairwise xs

    -- `y` is one of the elements, or they are `k`, and each of them stands before `y`.
    abbrev pub KeptOr : ℕ → List A → A → Type 0
    KeptOr k xs y = Among xs y ⊎ ((length xs ≡ k) × All (λ x. R x y) xs)

    KeptOr-cons :
        (k : ℕ) (xs : List A) (x y : A) → KeptOr k xs y → R x y → KeptOr (suc k) (x ∷ xs) y
    KeptOr-cons k xs x y (inl m) r = inl (inr m)
    KeptOr-cons k xs x y (inr (n, h)) r = inr (omega arith, (r, h))

    pub take-KeptOr : (k : ℕ) (xs : List A) → Pairwise xs → All (KeptOr k (take k xs)) xs
    unfolding take
    take-KeptOr zero xs p = All-always (KeptOr zero []) (λ y. inr (refl, tt)) xs
    take-KeptOr (suc k) [] p = tt
    take-KeptOr (suc k) (x ∷ xs) (before, p) = (
      inl (inl refl),
      All-both (KeptOr k (take k xs)) (R x) (KeptOr (suc k) (x ∷ take k xs))
          (KeptOr-cons k (take k xs) x) xs (take-KeptOr k xs p) before,
    )
