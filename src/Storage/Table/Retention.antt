-- ===== src/Storage/Table/Retention.antt =====
-- What an insertion keeps.
use lap_guard.Base.{
  sym, true, All-among, All-Among, Among, All-map, ℕ, zero, suc, ◌≤◌, ◌<◌, ◌≡◌, refl, false, none,
  some, List, [], ◌∷◌, Text, All, length, arith, Bool-cases, inl, inr,
}
use mathlib.Core.Path.{subst}
use lap_guard.Storage.Table.Take.{take-length, take-All, take-KeptOr, KeptOr, Pairwise}
use lap_guard.Storage.Table.{
  insert_row, Row, Table, Faults, max_rows, text_below, delete_before, take, prune, insert_pruned,
}

-- The rows are in the order of their numbers, the highest first, and all below `n`.
abbrev pub Descends : {A : Type 0} → ℕ → List (Row A) → Type 0
Descends n [] = Unit
Descends n (r ∷ rows) = (r.id < n) × Descends r.id rows

abbrev pub IsOrdered : {A : Type 0} → Table A → Type 0
IsOrdered t = Descends t.next t.rows

abbrev pub IsYoung : {A : Type 0} → Text → Row A → Type 0
IsYoung cutoff r = text_below r.timestamp cutoff ≡ false

module _ {A : Type 0} where
  Descends-weaken : (m n : ℕ) (rows : List (Row A)) → m ≤ n → Descends m rows → Descends n rows
  Descends-weaken m n [] h d = d
  Descends-weaken m n (r ∷ rows) h (l, d) = (omega arith, d)

  delete_before-Descends :
      (cutoff : Text) (n : ℕ) (rows : List (Row A))
      → Descends n rows
      → Descends n (delete_before cutoff rows)
  unfolding delete_before
  delete_before-Descends cutoff n [] d = d
  delete_before-Descends cutoff n (r ∷ rows) (l, d) =
      elim (Bool-cases (text_below r.timestamp cutoff)) [
        | inl old ↦ rw old (
            Descends-weaken r.id n (delete_before cutoff rows) (omega arith)
              (delete_before-Descends cutoff r.id rows d))
        | inr young ↦ rw young (l, delete_before-Descends cutoff r.id rows d)
      ]

  take-Descends : (k n : ℕ) (rows : List (Row A)) → Descends n rows → Descends n (take k rows)
  unfolding take
  take-Descends zero n rows d = tt
  take-Descends (suc k) n [] d = tt
  take-Descends (suc k) n (r ∷ rows) (l, d) = (l, take-Descends k r.id rows d)

  Descends-below : (n : ℕ) (rows : List (Row A)) → Descends n rows → All (λ r. r.id < n) rows
  Descends-below n [] d = tt
  Descends-below n (r ∷ rows) (l, d) = (
    l,
    All-map (λ s. s.id < r.id) (λ s. s.id < n) (λ s k. omega arith) rows
        (Descends-below r.id rows d),
  )

  -- The row before has the higher number.
  abbrev pub Newer : Row A → Row A → Type 0
  Newer r s = s.id < r.id

  Descends-Pairwise : (n : ℕ) (rows : List (Row A)) → Descends n rows → Pairwise Newer rows
  Descends-Pairwise n [] d = tt
  Descends-Pairwise n (r ∷ rows) (l, d) =
      (Descends-below r.id rows d, Descends-Pairwise r.id rows d)

  delete_before-All :
      (P : Row A → Type 0) (cutoff : Text) (rows : List (Row A))
      → All P rows
      → All P (delete_before cutoff rows)
  unfolding delete_before
  delete_before-All P cutoff [] h = tt
  delete_before-All P cutoff (r ∷ rows) (p, h) = elim (Bool-cases (text_below r.timestamp cutoff)) [
    | inl old ↦ rw old (delete_before-All P cutoff rows h)
    | inr young ↦ rw young (p, delete_before-All P cutoff rows h)
  ]

  delete_before-old :
      (cutoff : Text) (r : Row A) (rows : List (Row A))
      → text_below r.timestamp cutoff ≡ true
      → delete_before cutoff (r ∷ rows) ≡ delete_before cutoff rows
  unfolding delete_before
  delete_before-old cutoff r rows old = rw old refl

  delete_before-young :
      (cutoff : Text) (r : Row A) (rows : List (Row A))
      → IsYoung cutoff r
      → delete_before cutoff (r ∷ rows) ≡ r ∷ delete_before cutoff rows
  unfolding delete_before
  delete_before-young cutoff r rows young = rw young refl

  -- The young ones of some rows are among others.
  abbrev KeepsYoung : Text → List (Row A) → List (Row A) → Type 0
  KeepsYoung cutoff rows kept = All (λ r. IsYoung cutoff r → Among kept r) rows

  delete_before-KeepsYoung :
      (cutoff : Text) (rows : List (Row A)) → KeepsYoung cutoff rows (delete_before cutoff rows)
  delete_before-KeepsYoung cutoff [] = tt
  delete_before-KeepsYoung cutoff (r ∷ rows) = elim (Bool-cases (text_below r.timestamp cutoff)) [
    | inl old ↦
        subst (KeepsYoung cutoff (r ∷ rows)) (sym (delete_before-old cutoff r rows old))
          (λ y. cc, delete_before-KeepsYoung cutoff rows)
    | inr young ↦
        let kept = delete_before cutoff rows in
        subst (KeepsYoung cutoff (r ∷ rows)) (sym (delete_before-young cutoff r rows young)) (
          λ y. inl refl,
          All-map (λ s. IsYoung cutoff s → Among kept s)
              (λ s. IsYoung cutoff s → Among (r ∷ kept) s) (λ s m y. inr (m y)) rows
              (delete_before-KeepsYoung cutoff rows),
        )
  ]

  delete_before-Young :
      (cutoff : Text) (rows : List (Row A)) → All (IsYoung cutoff) (delete_before cutoff rows)
  unfolding delete_before
  delete_before-Young cutoff [] = tt
  delete_before-Young cutoff (r ∷ rows) = elim (Bool-cases (text_below r.timestamp cutoff)) [
    | inl old ↦ rw old (delete_before-Young cutoff rows)
    | inr young ↦ rw young (young, delete_before-Young cutoff rows)
  ]

  -- The rows `after` are what retention should leave of `rows`: at most a thousand of them, none
  -- whose text is below the cutoff's, and every other row is there, unless a thousand newer ones
  -- are.
  pub record Retained (cutoff : Text) (rows after : List (Row A)) : Type 0 where
    pub bounded : length after ≤ max_rows
    pub young : All (IsYoung cutoff) after
    pub from_rows : All (Among rows) after
    pub kept : All (λ r. IsYoung cutoff r → KeptOr Newer max_rows after r) rows

  delete-take-Retained :
      (cutoff : Text) (n : ℕ) (rows : List (Row A))
      → Descends n rows
      → Retained cutoff rows (take max_rows (delete_before cutoff rows))
  delete-take-Retained cutoff n rows d =
      let young = delete_before cutoff rows in
      let after = take max_rows young in
      let newest =
        take-KeptOr Newer max_rows young
          (Descends-Pairwise n young (delete_before-Descends cutoff n rows d)) in
      record {
        bounded = take-length max_rows young;
        young = take-All (IsYoung cutoff) max_rows young (delete_before-Young cutoff rows);
        from_rows =
            take-All (Among rows) max_rows young
              (delete_before-All (Among rows) cutoff rows (All-Among rows));
        kept =
            All-map (λ r. IsYoung cutoff r → Among young r)
              (λ r. IsYoung cutoff r → KeptOr Newer max_rows after r)
              (λ r m y. All-among (KeptOr Newer max_rows after) young r newest (m y)) rows
              (delete_before-KeepsYoung cutoff rows);
      }

  prune_lem :
      (f : Faults) (cutoff : Text) (t : Table A)
      → IsOrdered t
      → let (after, e) = prune f cutoff t in
        IsOrdered after × (after.next ≡ t.next) × (e ≡ none → Retained cutoff t.rows after.rows)
  unfolding prune
  prune_lem f cutoff t o = elim (Bool-cases f.age) [
    | inl a ↦ rw a (o, refl, λ h. cc)
    | inr a ↦ elim (Bool-cases f.count) [
      | inl c ↦ rw (a, c) (delete_before-Descends cutoff t.next t.rows o, refl, λ h. cc)
      | inr c ↦
          let young = delete_before cutoff t.rows in
          rw (a, c)
            (
              take-Descends max_rows t.next young (delete_before-Descends cutoff t.next t.rows o),
              refl,
              λ h. delete-take-Retained cutoff t.next t.rows o,
            )
    ]
  ]

  -- Whichever statements fail, an insertion keeps the rows in the order of their numbers. Where none
  -- fails, the caller gets the number of the new row, and of the old rows and the new one those are
  -- left, at most a thousand, whose timestamp is not below the cutoff as a text, but for rows with a
  -- thousand newer ones that are left.
  pub insert_pruned_lem :
      (f : Faults) (cutoff stamp : Text) (value : A) (t : Table A)
      → IsOrdered t
      → let (after, id, e) = insert_pruned f cutoff stamp value t in
        IsOrdered after
        × (e ≡ none
            → Retained cutoff (insert_row stamp value t).rows after.rows × (id ≡ some t.next))
  unfolding insert_pruned
  insert_pruned_lem f cutoff stamp value t o = elim (Bool-cases f.insert) [
    | inl i ↦ rw i (o, λ h. cc)
    | inr i ↦
        let stored : IsOrdered (insert_row stamp value t) = (omega arith, o) in
        elim (Bool-cases f.last_id) [
          | inl k ↦ rw (i, k) (stored, λ h. cc)
          | inr k ↦
              let (ordered, next, trimmed) = prune_lem f cutoff (insert_row stamp value t) stored in
              rw (i, k) (ordered, λ h. (trimmed h, refl))
        ]
  ]
