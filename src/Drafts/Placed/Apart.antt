-- ===== src/Drafts/Placed/Apart.antt =====
-- The renumbering of rows by way of an offset never brings two of them together.
use aivirteach_server.Common.{
  ℕ, ◌+◌, ◌-◌, ◌≤◌, ◌≡◌, refl, ◌∙◌, Bool, true, false, ◌&&◌, List, [], ◌∷◌, arith, if◌then◌else◌,
  map, any, All,
}
use aivirteach_server.Drafts.Placed.{Placed, is_at, is_after, clashes, is_clear, position_offset}
use aivirteach_server.Drafts.Placed.Phase.{PlacedLaws}

-- A change of rows that brings no two of them together keeps the unique indexes.
pub is_clear-map :
    {A : Type 0} (P : Placed A) (R : A → Type 0) (f : A → A) (rows : List A)
    → ((a b : A) → R a → R b → clashes P a b ≡ false → clashes P (f a) (f b) ≡ false)
    → All R rows
    → is_clear P rows ≡ true
    → is_clear P (map f rows) ≡ true
is_clear-map P R f [] h a c = refl
is_clear-map P R f (x ∷ xs) h (r, a) c = ground (arith, c, apart xs a, is_clear-map P R f xs h a)
  where
    apart :
        (ys : List _)
        → All R ys
        → any (clashes P x) ys ≡ false
        → any (clashes P (f x)) (map f ys) ≡ false
    apart [] all e = refl
    apart (y ∷ ys) (ry, all) e = ground (arith, e, h x y r ry, apart ys all)

module _ {A : Type 0} (P : Placed A) (laws : PlacedLaws P) where
  abbrev pub put_if : Bool → ℕ → A → A
  put_if c m a = if c then P.put m a else a

  pub id-put_if : (c : Bool) (m : ℕ) (a : A) → P.id (put_if c m a) ≡ P.id a
  id-put_if true m a = laws.id-put m a
  id-put_if false m a = refl

  parent-put_if : (c : Bool) (m : ℕ) (a : A) → P.parent (put_if c m a) ≡ P.parent a
  parent-put_if true m a = laws.parent-put m a
  parent-put_if false m a = refl

  position-put_if :
      (c : Bool) (m : ℕ) (a : A) → P.position (put_if c m a) ≡ (if c then m else P.position a)
  position-put_if true m a = laws.position-put m a
  position-put_if false m a = refl

  other-put_if :
      (c d : Bool) (m k : ℕ) (a b : A) → P.other (put_if c m a) (put_if d k b) ≡ P.other a b
  other-put_if true true m k a b = laws.other-put m a (P.put k b) ∙ laws.other-put_right k a b
  other-put_if true false m k a b = laws.other-put m a b
  other-put_if false true m k a b = laws.other-put_right k a b
  other-put_if false false m k a b = refl

  -- Only the new positions can bring two rows together.
  apart_if :
      (c d : Bool) (m k : ℕ) (a b : A)
      → clashes P a b ≡ false
      → (P.parent a ≡ P.parent b
          → (if d then k else P.position b) ≡ (if c then m else P.position a)
          → ⊥)
      → clashes P (put_if c m a) (put_if d k b) ≡ false
  apart_if c d m k a b h new =
      rw
        (
          other-put_if c d m k a b,
          parent-put_if c m a,
          parent-put_if d k b,
          position-put_if c m a,
          position-put_if d k b,
        )
        (ground (arith, h, new))

  module _ (parent n : ℕ) where
    -- a row of which the numbers leave room
    abbrev pub IsBehind : A → Type 0
    IsBehind a = (P.position a ≤ position_offset) × (is_at P parent n a ≡ false)

    abbrev pub lifted : (ℕ → Bool) → A → A
    lifted T a = put_if (is_after P parent n a && T (P.id a)) (P.position a + position_offset) a

    abbrev pub pulled : (ℕ → Bool) → A → A
    pulled T a =
        put_if (is_after P parent n a)
          (if T (P.id a) then P.position a - 1 else P.position a + position_offset) a

    pub lifted_apart :
        (T : ℕ → Bool) (a b : A)
        → IsBehind a
        → IsBehind b
        → clashes P a b ≡ false
        → clashes P (lifted T a) (lifted T b) ≡ false
    lifted_apart T a b ha hb c = apart_if _ _ _ _ a b c (λ e f. ground (arith, e, f, c, ha, hb))

    pub pulled_apart :
        (T : ℕ → Bool) (a b : A)
        → IsBehind a
        → IsBehind b
        → clashes P a b ≡ false
        → clashes P (pulled T a) (pulled T b) ≡ false
    pulled_apart T a b ha hb c = apart_if _ _ _ _ a b c (λ e f. ground (arith, e, f, c, ha, hb))
