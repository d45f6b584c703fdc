-- ===== src/Storage/Events/Listing.antt =====
-- What `List` returns.
use lap_guard.Base.{
  All-map, ℕ, zero, suc, ◌≡◌, refl, true, false, ◌||◌, List, [], ◌∷◌, Text, text_eq, All, arith,
  Bool-cases, inl, inr,
}
use lap_guard.Storage.Table.{Row, take, text_below}
use lap_guard.Storage.Table.Take.{Pairwise}
use lap_guard.Storage.Events.{Event, of_type, comes_before, insert_in_order, in_order}

abbrev pub HasType : Text → Row Event → Type 0
HasType wanted r = (text_eq wanted [] || text_eq r.value.event_type wanted) ≡ true

pub of_type-All :
    (wanted : Text) (rows : List (Row Event)) → All (HasType wanted) (of_type wanted rows)
unfolding of_type
of_type-All wanted [] = tt
of_type-All wanted (r ∷ rows) =
    elim (Bool-cases (text_eq wanted [] || text_eq r.value.event_type wanted)) [
      | inl h ↦ rw h (h, of_type-All wanted rows)
      | inr h ↦ rw h (of_type-All wanted rows)
    ]

insert_in_order-All :
    (P : Row Event → Type 0) (r : Row Event) (rows : List (Row Event))
    → P r
    → All P rows
    → All P (insert_in_order r rows)
unfolding insert_in_order
insert_in_order-All P r [] p h = (p, tt)
insert_in_order-All P r (s ∷ rows) p (q, h) = elim (Bool-cases (comes_before s r)) [
  | inl e ↦ rw e (q, insert_in_order-All P r rows p h)
  | inr e ↦ rw e (p, (q, h))
]

pub in_order-All :
    (P : Row Event → Type 0) (rows : List (Row Event)) → All P rows → All P (in_order rows)
unfolding in_order
in_order-All P [] h = tt
in_order-All P (r ∷ rows) (p, h) = insert_in_order-All P r (in_order rows) p (in_order-All P rows h)

-- No row stands behind one that should come after it.
abbrev pub InOrder : List (Row Event) → Type 0
InOrder [] = Unit
InOrder (r ∷ []) = Unit
InOrder (r ∷ s ∷ rows) = (comes_before s r ≡ false) × InOrder (s ∷ rows)

-- What is put before a list in order.
abbrev Heads : Row Event → List (Row Event) → Type 0
Heads r [] = Unit
Heads r (s ∷ rows) = comes_before s r ≡ false

text_below-asym : (s t : Text) → text_below s t ≡ true → text_below t s ≡ false
unfolding text_below
text_below-asym [] [] h = ground arith
text_below-asym [] (d ∷ t) h = refl
text_below-asym (c ∷ s) [] h = ground arith
text_below-asym (c ∷ s) (d ∷ t) h = ground (arith, text_below-asym s t)

comes_before-asym : (a b : Row Event) → comes_before a b ≡ true → comes_before b a ≡ false
unfolding comes_before
comes_before-asym a b h = ground (arith, text_below-asym b.timestamp a.timestamp)

cons-InOrder :
    (r : Row Event) (rows : List (Row Event)) → Heads r rows → InOrder rows → InOrder (r ∷ rows)
cons-InOrder r [] h o = tt
cons-InOrder r (s ∷ rows) h o = (h, o)

insert_in_order-Heads :
    (s r : Row Event) (rows : List (Row Event))
    → Heads s rows
    → comes_before r s ≡ false
    → Heads s (insert_in_order r rows)
unfolding insert_in_order
insert_in_order-Heads s r [] h k = k
insert_in_order-Heads s r (t ∷ rows) h k = elim (Bool-cases (comes_before t r)) [
  | inl e ↦ rw e h
  | inr e ↦ rw e k
]

tail-InOrder :
    (r : Row Event) (rows : List (Row Event)) → InOrder (r ∷ rows) → Heads r rows × InOrder rows
tail-InOrder r [] o = (tt, tt)
tail-InOrder r (s ∷ rows) o = o

insert_in_order-InOrder :
    (r : Row Event) (rows : List (Row Event)) → InOrder rows → InOrder (insert_in_order r rows)
unfolding insert_in_order
insert_in_order-InOrder r [] o = tt
insert_in_order-InOrder r (s ∷ rows) o = elim (Bool-cases (comes_before s r)) [
  | inl e ↦
      let (h, o') = tail-InOrder s rows o in
      rw e (
        cons-InOrder s (insert_in_order r rows)
          (insert_in_order-Heads s r rows h (comes_before-asym s r e))
          (insert_in_order-InOrder r rows o'))
  | inr e ↦ rw e (e, o)
]

pub in_order-InOrder : (rows : List (Row Event)) → InOrder (in_order rows)
unfolding in_order
in_order-InOrder [] = tt
in_order-InOrder (r ∷ rows) = insert_in_order-InOrder r (in_order rows) (in_order-InOrder rows)

pub take-InOrder : (n : ℕ) (rows : List (Row Event)) → InOrder rows → InOrder (take n rows)
unfolding take
take-InOrder zero rows o = tt
take-InOrder (suc n) [] o = tt
take-InOrder (suc zero) (r ∷ rows) o = tt
take-InOrder (suc (suc n)) (r ∷ []) o = tt
take-InOrder (suc (suc n)) (r ∷ s ∷ rows) (h, o) = (h, take-InOrder (suc n) (s ∷ rows) o)

text_below_trans :
    (s t u : Text) → text_below s t ≡ false → text_below t u ≡ false → text_below s u ≡ false
unfolding text_below
text_below_trans s t [] h k = refl
text_below_trans [] [] (e ∷ u) h k = k
text_below_trans [] (d ∷ t) (e ∷ u) h k = cc
text_below_trans (c ∷ s) [] (e ∷ u) h k = cc
text_below_trans (c ∷ s) (d ∷ t) (e ∷ u) h k = ground (arith, text_below_trans s t u)

-- `s` does not come after `r`.
abbrev pub NotAfter : Row Event → Row Event → Type 0
NotAfter s r = comes_before r s ≡ false

NotAfter-trans : (r s t : Row Event) → NotAfter r s → NotAfter s t → NotAfter r t
unfolding comes_before
NotAfter-trans r s t h k = ground (
  arith,
  text_below_trans r.timestamp s.timestamp t.timestamp,
  text_below_trans s.timestamp t.timestamp r.timestamp,
  text_below_trans t.timestamp r.timestamp s.timestamp,
)

InOrder-All : (r : Row Event) (rows : List (Row Event)) → InOrder (r ∷ rows) → All (NotAfter r) rows
InOrder-All r [] o = tt
InOrder-All r (s ∷ rows) (h, o) =
    (h, All-map (NotAfter s) (NotAfter r) (λ t. NotAfter-trans r s t h) rows (InOrder-All s rows o))

pub InOrder-Pairwise : (rows : List (Row Event)) → InOrder rows → Pairwise NotAfter rows
InOrder-Pairwise [] o = tt
InOrder-Pairwise (r ∷ rows) o =
    (InOrder-All r rows o, InOrder-Pairwise rows (tail-InOrder r rows o).1)
