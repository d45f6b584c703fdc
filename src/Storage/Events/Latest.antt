-- ===== src/Storage/Events/Latest.antt =====
-- Which rows `List` returns: the latest of the wanted type.
use mathlib.Core.Path.{subst}
use lap_guard.Base.{
  ◌≤◌, ◌≡◌, refl, sym, true, false, ◌||◌, List, [], ◌∷◌, Text, text_eq, All, All-map, All-Among,
  All-among, Among, length, arith, Bool-cases, inl, inr, ℤ,
}
use lap_guard.Storage.Table.{Row, Table, take, limit_of}
use lap_guard.Storage.Table.Take.{take-length, take-All, take-KeptOr, KeptOr}
use lap_guard.Storage.Events.{Event, of_type, comes_before, insert_in_order, in_order, selected}
use lap_guard.Storage.Events.Listing.{
  HasType, of_type-All, in_order-All, InOrder, in_order-InOrder, take-InOrder, NotAfter,
  InOrder-Pairwise,
}

of_type-skips :
    (wanted : Text) (r : Row Event) (rows : List (Row Event))
    → (text_eq wanted [] || text_eq r.value.event_type wanted) ≡ false
    → of_type wanted (r ∷ rows) ≡ of_type wanted rows
unfolding of_type
of_type-skips wanted r rows h = rw h refl

of_type-takes :
    (wanted : Text) (r : Row Event) (rows : List (Row Event))
    → HasType wanted r
    → of_type wanted (r ∷ rows) ≡ r ∷ of_type wanted rows
unfolding of_type
of_type-takes wanted r rows h = rw h refl

insert_in_order-passes :
    (r s : Row Event) (rows : List (Row Event))
    → comes_before s r ≡ true
    → insert_in_order r (s ∷ rows) ≡ s ∷ insert_in_order r rows
unfolding insert_in_order
insert_in_order-passes r s rows h = rw h refl

insert_in_order-stops :
    (r s : Row Event) (rows : List (Row Event))
    → comes_before s r ≡ false
    → insert_in_order r (s ∷ rows) ≡ r ∷ s ∷ rows
unfolding insert_in_order
insert_in_order-stops r s rows h = rw h refl

-- All of some rows are among others.
abbrev Keeps : List (Row Event) → List (Row Event) → Type 0
Keeps rows kept = All (Among kept) rows

Keeps-cons :
    (x : Row Event) (rows kept : List (Row Event)) → Keeps rows kept → Keeps rows (x ∷ kept)
Keeps-cons x rows kept h = All-map (Among kept) (Among (x ∷ kept)) (λ y m. inr m) rows h

insert_in_order-Keeps :
    (r : Row Event) (rows : List (Row Event)) → Keeps (r ∷ rows) (insert_in_order r rows)
unfolding insert_in_order
insert_in_order-Keeps r [] = (inl refl, tt)
insert_in_order-Keeps r (s ∷ rows) = elim (Bool-cases (comes_before s r)) [
  | inl e ↦
      let (here, rest) =
        Keeps-cons s (r ∷ rows) (insert_in_order r rows) (insert_in_order-Keeps r rows) in
      subst (Keeps (r ∷ s ∷ rows)) (sym (insert_in_order-passes r s rows e))
        (here, (inl refl, rest))
  | inr e ↦
      subst (Keeps (r ∷ s ∷ rows)) (sym (insert_in_order-stops r s rows e))
        (All-Among (r ∷ s ∷ rows))
]

in_order-Keeps : (rows : List (Row Event)) → Keeps rows (in_order rows)
unfolding in_order
in_order-Keeps [] = tt
in_order-Keeps (r ∷ rows) =
    let (here, all) = insert_in_order-Keeps r (in_order rows) in
    (
      here,
      All-map (Among (in_order rows)) (Among (insert_in_order r (in_order rows)))
          (λ s m. All-among (Among (insert_in_order r (in_order rows))) (in_order rows) s all m)
          rows (in_order-Keeps rows),
    )

-- Those of some rows that have the wanted type are among others.
abbrev KeepsWanted : Text → List (Row Event) → List (Row Event) → Type 0
KeepsWanted wanted rows kept = All (λ r. HasType wanted r → Among kept r) rows

of_type-KeepsWanted :
    (wanted : Text) (rows : List (Row Event)) → KeepsWanted wanted rows (of_type wanted rows)
of_type-KeepsWanted wanted [] = tt
of_type-KeepsWanted wanted (r ∷ rows) =
    elim (Bool-cases (text_eq wanted [] || text_eq r.value.event_type wanted)) [
      | inl h ↦
          let kept = of_type wanted rows in
          subst (KeepsWanted wanted (r ∷ rows)) (sym (of_type-takes wanted r rows h)) (
            λ y. inl refl,
            All-map (λ s. HasType wanted s → Among kept s)
                (λ s. HasType wanted s → Among (r ∷ kept) s) (λ s m y. inr (m y)) rows
                (of_type-KeepsWanted wanted rows),
          )
      | inr h ↦
          subst (KeepsWanted wanted (r ∷ rows)) (sym (of_type-skips wanted r rows h))
            (λ y. cc, of_type-KeepsWanted wanted rows)
    ]

of_type-from :
    (P : Row Event → Type 0) (wanted : Text) (rows : List (Row Event))
    → All P rows
    → All P (of_type wanted rows)
unfolding of_type
of_type-from P wanted [] h = tt
of_type-from P wanted (r ∷ rows) (p, h) =
    elim (Bool-cases (text_eq wanted [] || text_eq r.value.event_type wanted)) [
      | inl e ↦ rw e (p, of_type-from P wanted rows h)
      | inr e ↦ rw e (of_type-from P wanted rows h)
    ]

limit_of-bound : (limit : ℤ) → limit_of limit ≤ 500
limit_of-bound limit = ground arith

-- The rows `listed` are what a request for a type and a limit should get of `rows`.
pub record IsLatest (wanted : Text) (limit : ℤ) (rows listed : List (Row Event)) : Type 0 where
  pub bounded : length listed ≤ 500
  pub typed : All (HasType wanted) listed
  pub ordered : InOrder listed
  pub from_rows : All (Among rows) listed
  pub kept : All (λ r. HasType wanted r → KeptOr NotAfter (limit_of limit) listed r) rows

-- Whatever type and limit are asked for, the rows that are listed are at most five hundred rows of
-- the table, of the wanted type if one is given, in the order of their times as texts and, for equal
-- times, of their numbers, the latest first; and every row of the wanted type is listed, unless as
-- many as the limit are, none of which comes after it.
pub selected-IsLatest :
    (wanted : Text) (limit : ℤ) (t : Table Event)
    → IsLatest wanted limit t.rows (selected wanted limit t)
unfolding selected
selected-IsLatest wanted limit t =
    let found = of_type wanted t.rows in
    let rows = in_order found in
    let n = limit_of limit in
    let sorted = in_order-InOrder found in
    let newest = take-KeptOr NotAfter n rows (InOrder-Pairwise rows sorted) in
    let all_found = in_order-Keeps found in
    record {
      bounded = omega (arith, take-length n rows, limit_of-bound limit);
      typed =
          take-All (HasType wanted) n rows
            (in_order-All (HasType wanted) found (of_type-All wanted t.rows));
      ordered = take-InOrder n rows sorted;
      from_rows = take-All (Among t.rows) n rows (
          in_order-All (Among t.rows) found
            (of_type-from (Among t.rows) wanted t.rows (All-Among t.rows)));
      kept =
          All-map (λ r. HasType wanted r → Among found r)
            (λ r. HasType wanted r → KeptOr NotAfter n (take n rows) r)
            (λ r m y.
              All-among (KeptOr NotAfter n (take n rows)) rows r newest
                (All-among (Among rows) found r all_found (m y)))
            t.rows (of_type-KeepsWanted wanted t.rows);
    }
