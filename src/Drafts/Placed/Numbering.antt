-- ===== src/Drafts/Placed/Numbering.antt =====
-- The positions of rows below one parent: a deletion that closes its gap keeps them 1, 2, ..., n.
use aivirteach_server.Common.{
  ℕ, ◌+◌, ◌-◌, ◌≤◌, ◌≡◌, refl, sym, ◌∙◌, Bool, true, false, ◌&&◌, some, List, [], ◌∷◌, arith,
  if◌then◌else◌, ◌==◌, leb, ltb, any, find_first, count_rows, update_rows, delete_rows, All,
  All-map, All-both, All-delete_rows, Bool-cases, inl, inr,
}
use aivirteach_server.Process.{committed}
use aivirteach_server.Drafts.Placed.{
  Placed, is_at, is_after, clashes, is_clear, close_gap, position_offset,
}
use aivirteach_server.Drafts.Placed.Phase.{PlacedLaws}
use aivirteach_server.Drafts.Placed.Apart.{IsBehind}
use aivirteach_server.Drafts.Placed.Closing.{close_gap-renumbers}

module _ {A : Type 0} where
  -- The one row of a kind is the one row of another, where some row is of both.
  agree :
      (q p : A → Bool) (rows : List A)
      → count_rows q rows ≤ 1
      → count_rows p rows ≤ 1
      → any (λ r. q r && p r) rows ≡ true
      → All (λ r. q r ≡ p r) rows
  agree q p [] cq cp h = tt
  agree q p (x ∷ xs) cq cp h = elim (Bool-cases (q x)) [
    | inl tq ↦ elim (Bool-cases (p x)) [
      | inl tp ↦ (tq ∙ sym tp, none_left xs (ground (arith, tq, cq)) (ground (arith, tp, cp)))
      | inr fp ↦ absurd (ground (arith, tq, fp, cq, some_left xs (ground (arith, fp, h))))
    ]
    | inr fq ↦ elim (Bool-cases (p x)) [
      | inl tp ↦ absurd (ground (arith, tp, fq, cp, some_left_right xs (ground (arith, fq, h))))
      | inr fp ↦ (
        fq ∙ sym fp,
        agree q p xs (ground (arith, fq, cq)) (ground (arith, fp, cp)) (ground (arith, fq, h)),
      )
    ]
  ]
    where
      none_left :
          (ys : List A) → count_rows q ys ≡ 0 → count_rows p ys ≡ 0 → All (λ r. q r ≡ p r) ys
      none_left [] a b = tt
      none_left (y ∷ ys) a b =
          (ground (arith, a, b), none_left ys (ground (arith, a)) (ground (arith, b)))

      some_left : (ys : List A) → any (λ r. q r && p r) ys ≡ true → 1 ≤ count_rows q ys
      some_left [] a = cc
      some_left (y ∷ ys) a = ground (arith, a, some_left ys)

      some_left_right : (ys : List A) → any (λ r. q r && p r) ys ≡ true → 1 ≤ count_rows p ys
      some_left_right [] a = cc
      some_left_right (y ∷ ys) a = ground (arith, a, some_left_right ys)

  found_both :
      (q p : A → Bool) (rows : List A) (a : A)
      → find_first q rows ≡ some a
      → p a ≡ true
      → any (λ r. q r && p r) rows ≡ true
  found_both q p [] a h t = cc
  found_both q p (x ∷ xs) a h t = elim (Bool-cases (q x)) [
    | inl tq ↦ here tq (rw tq at h)
    | inr fq ↦ ground (arith, fq, found_both q p xs a (rw fq at h) t)
  ]
    where
      here : q x ≡ true → some x ≡ some a → any (λ r. q r && p r) (x ∷ xs) ≡ true
      here tq e = let same : p x ≡ p a = cc in ground (arith, tq, same ∙ t)

  count-delete_rows_le :
      (q p : A → Bool) (xs : List A) → count_rows q (delete_rows p xs) ≤ count_rows q xs
  count-delete_rows_le q p [] = omega arith
  count-delete_rows_le q p (x ∷ xs) = ground (arith, count-delete_rows_le q p xs)

  none_deleted : (q : A → Bool) (xs : List A) → All (λ r. q r ≡ false) (delete_rows q xs)
  none_deleted q [] = tt
  none_deleted q (x ∷ xs) = elim (Bool-cases (q x)) [
    | inl t ↦ rw t (none_deleted q xs)
    | inr f ↦ rw f (f, none_deleted q xs)
  ]

module _ {A : Type 0} (P : Placed A) where
  any-delete_rows :
      (q p : A → Bool) (xs : List A) → any q xs ≡ false → any q (delete_rows p xs) ≡ false
  any-delete_rows q p [] h = refl
  any-delete_rows q p (x ∷ xs) h = ground (arith, h, any-delete_rows q p xs)

  is_clear-delete_rows :
      (q : A → Bool) (xs : List A) → is_clear P xs ≡ true → is_clear P (delete_rows q xs) ≡ true
  is_clear-delete_rows q [] h = refl
  is_clear-delete_rows q (x ∷ xs) h =
      ground (arith, h, any-delete_rows (clashes P x) q xs, is_clear-delete_rows q xs)

  -- below the parent, one row at each position from 1 to `n`, and none elsewhere
  abbrev pub IsNumbered : ℕ → ℕ → List A → Type 0
  IsNumbered parent n rows =
      (p : ℕ) → count_rows (is_at P parent p) rows ≡ (if leb 1 p && leb p n then 1 else 0)

  module _ (laws : PlacedLaws P) (parent k : ℕ) (q : A → Bool) where
    abbrev pub renumbered : List A → List A
    renumbered xs =
        update_rows (is_after P parent k) (λ a. P.put (P.position a - 1) a) (delete_rows q xs)

    count-renumbered :
        (p : ℕ) (xs : List A)
        → All (λ r. q r ≡ is_at P parent k r) xs
        → count_rows (is_at P parent p) (renumbered xs) ≡ (
            if ltb p k
            then count_rows (is_at P parent p) xs
            else count_rows (is_at P parent (p + 1)) xs)
    count-renumbered p [] h = ground arith
    count-renumbered p (x ∷ xs) (h, hs) = ground (
      arith,
      h,
      count-renumbered p xs hs,
      laws.position-put (P.position x - 1) x,
      laws.parent-put (P.position x - 1) x,
    )

    renumbered-IsNumbered :
        (n : ℕ) (xs : List A)
        → All (λ r. q r ≡ is_at P parent k r) xs
        → 1 ≤ k
        → k ≤ n
        → IsNumbered parent n xs
        → IsNumbered parent (n - 1) (renumbered xs)
    renumbered-IsNumbered n xs same low high h p =
        ground (arith, low, high, count-renumbered p xs same, h p, h (p + 1))

  module _ (laws : PlacedLaws P) (rows : List A) (i : ℕ) (a : A)
      (found : find_first (λ r. P.id r == i) rows ≡ some a)
      (ids : (j : ℕ) → count_rows (λ r. P.id r == j) rows ≤ 1) (clear : is_clear P rows ≡ true)
      (bounded : All (λ r. P.position r ≤ position_offset) rows) (n : ℕ)
      (numbered : IsNumbered (P.parent a) n rows) where
    at_itself : is_at P (P.parent a) (P.position a) a ≡ true
    at_itself = ground arith

    one_there : any (λ r. (P.id r == i) && is_at P (P.parent a) (P.position a) r) rows ≡ true
    one_there =
        found_both (λ r. P.id r == i) (is_at P (P.parent a) (P.position a)) rows a found at_itself

    the_row : All (λ r. (P.id r == i) ≡ is_at P (P.parent a) (P.position a) r) rows
    the_row =
        agree (λ r. P.id r == i) (is_at P (P.parent a) (P.position a)) rows (ids i)
          (ground (arith, numbered (P.position a))) one_there

    in_range : (1 ≤ P.position a) × (P.position a ≤ n)
    in_range = ground (arith, numbered (P.position a), counted rows one_there)
      where
        counted :
            (ys : List A)
            → any (λ r. (P.id r == i) && is_at P (P.parent a) (P.position a) r) ys ≡ true
            → 1 ≤ count_rows (is_at P (P.parent a) (P.position a)) ys
        counted [] h = cc
        counted (y ∷ ys) h = ground (arith, h, counted ys)

    delete_rows-IsBehind :
        All (IsBehind P laws (P.parent a) (P.position a)) (delete_rows (λ r. P.id r == i) rows)
    delete_rows-IsBehind =
        All-both _ _ (delete_rows (λ r. P.id r == i) rows)
          (All-delete_rows _ (λ r. P.id r == i) rows bounded)
          (All-map
            (λ r. ((P.id r == i) ≡ is_at P (P.parent a) (P.position a) r) × ((P.id r == i) ≡ false))
            (λ r. is_at P (P.parent a) (P.position a) r ≡ false)
            (delete_rows (λ r. P.id r == i) rows) (λ r both. sym both.0 ∙ both.1)
            (All-both _ _ (delete_rows (λ r. P.id r == i) rows)
              (All-delete_rows _ (λ r. P.id r == i) rows the_row)
              (none_deleted (λ r. P.id r == i) rows)))

    -- The gap is closed, and the positions below the parent run from 1 to `n - 1`.
    pub close_gap-IsNumbered :
        (close_gap P (P.parent a) (P.position a) (delete_rows (λ r. P.id r == i) rows)
          ≡ committed tt (renumbered laws (P.parent a) (P.position a) (λ r. P.id r == i) rows))
        × IsNumbered
            (P.parent a)
            (n - 1)
            (renumbered laws (P.parent a) (P.position a) (λ r. P.id r == i) rows)
    close_gap-IsNumbered = (
      close_gap-renumbers P laws (P.parent a) (P.position a) (delete_rows (λ r. P.id r == i) rows)
          (is_clear-delete_rows (λ r. P.id r == i) rows clear)
          (λ j.
            omega (arith, ids j, count-delete_rows_le (λ r. P.id r == j) (λ r. P.id r == i) rows))
          delete_rows-IsBehind,
      renumbered-IsNumbered laws (P.parent a) (P.position a) (λ r. P.id r == i) n rows the_row
          in_range.0 in_range.1 numbered,
    )
