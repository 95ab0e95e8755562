-- ===== src/Common/Ordering.antt =====
-- What choosing and ordering rows keeps.
use Prim.Native.Nat.{ℕ, ◌+◌, ◌≤◌}
use mathlib.Core.Path.{◌≡◌, refl, ap, ◌∙◌}
use mathlib.Core.Logic.{inl, inr}
use mathlib.Core.Bool.{Bool, true, ◌||◌}
use mathlib.Core.List.{List, [], ◌∷◌}
use native.Mathlib.Omega.{arith}
use aivirteach_server.Common.Tests.{leb, if◌then◌else◌, Bool-cases}
use aivirteach_server.Common.Lists.{any, keep}
use aivirteach_server.Common.Table.{count_rows, insert_row, order_rows, All}

module _ {A : Type 0} where
  any-insert_row :
      (q : A → Bool) (b : A → A → Bool) (x : A) (xs : List A)
      → any q (insert_row b x xs) ≡ (q x || any q xs)
  any-insert_row q b x [] = refl
  any-insert_row q b x (y ∷ ys) = ground (arith, any-insert_row q b x ys)

  pub any-order_rows :
      (q : A → Bool) (b : A → A → Bool) (xs : List A) → any q (order_rows b xs) ≡ any q xs
  any-order_rows q b [] = refl
  any-order_rows q b (x ∷ xs) =
      any-insert_row q b x (order_rows b xs) ∙ ap (λ t. q x || t) (any-order_rows q b xs)

  count-insert_row :
      (q : A → Bool) (b : A → A → Bool) (x : A) (xs : List A)
      → count_rows q (insert_row b x xs) ≡ (if q x then 1 + count_rows q xs else count_rows q xs)
  count-insert_row q b x [] = ground arith
  count-insert_row q b x (y ∷ ys) = ground (arith, count-insert_row q b x ys)

  pub count-order_rows :
      (q : A → Bool) (b : A → A → Bool) (xs : List A)
      → count_rows q (order_rows b xs) ≡ count_rows q xs
  count-order_rows q b [] = refl
  count-order_rows q b (x ∷ xs) =
      ground (arith, count-insert_row q b x (order_rows b xs), count-order_rows q b xs)

  pub count-keep_le : (q p : A → Bool) (xs : List A) → count_rows q (keep p xs) ≤ count_rows q xs
  count-keep_le q p [] = omega arith
  count-keep_le q p (x ∷ xs) = ground (arith, count-keep_le q p xs)

  module _ (R : A → Type 0) where
    All-insert_row :
        (b : A → A → Bool) (x : A) (xs : List A) → R x → All R xs → All R (insert_row b x xs)
    All-insert_row b x [] r a = (r, tt)
    All-insert_row b x (y ∷ ys) r (ry, a) = elim (Bool-cases (b x y)) [
      | inl t ↦ rw t (r, (ry, a))
      | inr f ↦ rw f (ry, All-insert_row b x ys r a)
    ]

    pub All-order_rows : (b : A → A → Bool) (xs : List A) → All R xs → All R (order_rows b xs)
    All-order_rows b [] a = tt
    All-order_rows b (x ∷ xs) (r, a) =
        All-insert_row b x (order_rows b xs) r (All-order_rows b xs a)

    pub All-keep : (p : A → Bool) (xs : List A) → All R xs → All R (keep p xs)
    All-keep p [] a = tt
    All-keep p (x ∷ xs) (r, a) = elim (Bool-cases (p x)) [
      | inl t ↦ rw t (r, All-keep p xs a)
      | inr f ↦ rw f (All-keep p xs a)
    ]

  pub All-kept : (p : A → Bool) (xs : List A) → All (λ x. p x ≡ true) (keep p xs)
  All-kept p [] = tt
  All-kept p (x ∷ xs) = elim (Bool-cases (p x)) [
    | inl t ↦ rw t (t, All-kept p xs)
    | inr f ↦ rw f (All-kept p xs)
  ]

module _ {A : Type 0} (position : A → ℕ) where
  abbrev is_before : A → A → Bool
  is_before a b = leb (position a) (position b)

  -- no row of the list comes before `n`
  abbrev pub IsFrom : ℕ → List A → Type 0
  IsFrom n [] = Unit {0}
  IsFrom n (x ∷ xs) = (n ≤ position x) × IsFrom (position x) xs

  abbrev pub IsSorted : List A → Type 0
  IsSorted xs = IsFrom 0 xs

  insert_row-IsFrom :
      (n : ℕ) (x : A) (xs : List A)
      → n ≤ position x
      → IsFrom n xs
      → IsFrom n (insert_row is_before x xs)
  insert_row-IsFrom n x [] l s = (l, tt)
  insert_row-IsFrom n x (y ∷ ys) l (h, s) = elim (Bool-cases (leb (position x) (position y))) [
    | inl t ↦ rw t (l, (ground (arith, t), s))
    | inr f ↦ rw f (h, insert_row-IsFrom (position y) x ys (ground (arith, f)) s)
  ]

  pub order_rows-IsSorted : (xs : List A) → IsSorted (order_rows is_before xs)
  order_rows-IsSorted [] = tt
  order_rows-IsSorted (x ∷ xs) =
      insert_row-IsFrom 0 x (order_rows is_before xs) (omega arith) (order_rows-IsSorted xs)

  pub order_rows-sorted : (n : ℕ) (xs : List A) → IsFrom n xs → order_rows is_before xs ≡ xs
  order_rows-sorted n [] s = refl
  order_rows-sorted n (x ∷ xs) (h, s) = rw (order_rows-sorted (position x) xs s) (first xs s)
    where
      first : (ys : List A) → IsFrom (position x) ys → insert_row is_before x ys ≡ x ∷ ys
      first [] s = refl
      first (y ∷ ys) (l, s) =
          let t : leb (position x) (position y) ≡ true = ground (arith, l) in rw t refl
