-- ===== src/Drafts/Placed/Appending.antt =====
-- A row that is created behind the last one.
use aivirteach_server.Common.{
  ℕ, ◌+◌, ◌≤◌, ◌<◌, ◌≡◌, ◌⊎◌, refl, true, false, List, [], ◌∷◌, arith, any, count_rows, inl, inr,
}
use aivirteach_server.Process.{committed}
use aivirteach_server.Drafts.Placed.{
  Placed, is_at, clashes, is_clear, last_position, append_row, store,
}
use aivirteach_server.Drafts.Placed.Numbering.{IsNumbered}

module _ {A : Type 0} (P : Placed A) (parent : ℕ) where
  none_past :
      (p : ℕ) (rows : List A)
      → last_position P parent rows < p
      → count_rows (is_at P parent p) rows ≡ 0
  none_past p [] h = refl
  none_past p (x ∷ xs) h = ground (arith, h, none_past p xs)

  one_at_last :
      (n : ℕ) (rows : List A)
      → last_position P parent rows ≡ n
      → 1 ≤ n
      → 1 ≤ count_rows (is_at P parent n) rows
  one_at_last n [] h low = absurd (omega (arith, h, low))
  one_at_last n (x ∷ xs) h low = ground (arith, h, low, one_at_last n xs)

  -- The last position of `n` numbered rows is `n`.
  numbered_last :
      (n : ℕ) (rows : List A) → IsNumbered P parent n rows → last_position P parent rows ≡ n
  numbered_last n rows h = elim (order (last_position P parent rows) n) [
    | inl same ↦ same
    | inr (inl less) ↦ absurd (ground (arith, less, h n, none_past n rows less))
    | inr (inr more) ↦ absurd (
        ground (
          arith,
          more,
          h (last_position P parent rows),
          one_at_last (last_position P parent rows) rows refl (omega (arith, more)),
        ))
  ]
    where
      order : (a b : ℕ) → (a ≡ b) ⊎ ((a < b) ⊎ (b < a))
      order a b = ground arith

  pub append_row-IsNumbered :
      (n : ℕ) (a : A) (rows : List A)
      → is_clear P rows ≡ true
      → IsNumbered P parent n rows
      → P.parent a ≡ parent
      → P.position a ≡ last_position P parent rows + 1
      → any (P.other a) rows ≡ false
      → (append_row P a rows ≡ committed tt (a ∷ rows)) × IsNumbered P parent (n + 1) (a ∷ rows)
  unfolding append_row store
  append_row-IsNumbered n a rows clear h at_parent at_last apart = (
    rw (free rows (none_past (P.position a) rows (omega (arith, at_last))) apart, clear) refl,
    λ p. ground (arith, at_parent, at_last, numbered_last n rows h, h p),
  )
    where
      free :
          (ys : List A)
          → count_rows (is_at P parent (P.position a)) ys ≡ 0
          → any (P.other a) ys ≡ false
          → any (clashes P a) ys ≡ false
      free [] z o = refl
      free (y ∷ ys) z o = ground (arith, z, o, at_parent, free ys)
