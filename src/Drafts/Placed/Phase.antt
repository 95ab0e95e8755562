-- ===== src/Drafts/Placed/Phase.antt =====
-- Rows that are updated one by one, each statement checked against the unique indexes.
use aivirteach_server.Common.{
  ℕ, ◌≤◌, ◌≡◌, refl, ap, ◌∙◌, Bool, true, false, ◌||◌, List, [], ◌∷◌, arith, ◌==◌, map, any,
  count_rows, update_rows, All, Bool-cases, inl, inr,
}
use aivirteach_server.Process.{committed}
use aivirteach_server.Drafts.Placed.{Placed, each, is_clear, store, update_row}

-- What `put` changes, and what it does not.
pub record PlacedLaws {A : Type 0} (P : Placed A) : Type 0 where
  pub id-put : (n : ℕ) (a : A) → P.id (P.put n a) ≡ P.id a
  pub parent-put : (n : ℕ) (a : A) → P.parent (P.put n a) ≡ P.parent a
  pub position-put : (n : ℕ) (a : A) → P.position (P.put n a) ≡ n
  pub put-put : (n m : ℕ) (a : A) → P.put n (P.put m a) ≡ P.put n a
  pub other-put : (n : ℕ) (a b : A) → P.other (P.put n a) b ≡ P.other a b
  pub other-put_right : (n : ℕ) (a b : A) → P.other a (P.put n b) ≡ P.other a b

-- A phase updates the rows of a list one by one: `st T` is where a row stands once the ids of `T` are done.
module _ {A : Type 0} (P : Placed A) (p : A → Bool) (rows : List A) (st : (ℕ → Bool) → A → A)
    (u : A → A → A) (clear : (T : ℕ → Bool) → is_clear P (map (st T) rows) ≡ true)
    (same_id : (T : ℕ → Bool) (r : A) → P.id (st T r) ≡ P.id r)
    (local : (S T : ℕ → Bool) (r : A) → S (P.id r) ≡ T (P.id r) → st S r ≡ st T r)
    (hit : (T : ℕ → Bool) (a : A)
      → p a ≡ true
      → T (P.id a) ≡ false
      → u a (st T a) ≡ st (λ i. T i || P.id a == i) a) where
  abbrev pub IsOwn : A → Type 0
  IsOwn a = All (λ r. (P.id r == P.id a) ≡ true → r ≡ a) rows

  moved :
      (T : ℕ → Bool) (a : A) (rs : List A)
      → p a ≡ true
      → T (P.id a) ≡ false
      → All (λ r. (P.id r == P.id a) ≡ true → r ≡ a) rs
      → update_rows (λ r. P.id r == P.id a) (u a) (map (st T) rs)
        ≡ map (st (λ i. T i || P.id a == i)) rs
  moved T a [] h f own = refl
  moved T a (r ∷ rs) h f (o, own) = elim (Bool-cases (P.id r == P.id a)) [
    | inl t ↦ rw (same_id T r, t, moved T a rs h f own, o t, hit T a h f) refl
    | inr n ↦
        rw
          (
            same_id T r,
            n,
            moved T a rs h f own,
            local T (λ i. T i || P.id a == i) r (ground (arith, n)),
          )
          refl
  ]

  one_step :
      (T : ℕ → Bool) (a : A)
      → p a ≡ true
      → T (P.id a) ≡ false
      → IsOwn a
      → update_row P (P.id a) (u a) (map (st T) rows)
        ≡ committed tt (map (st (λ i. T i || P.id a == i)) rows)
  unfolding store
  one_step T a h f own = rw (moved T a rows h f own, clear (λ i. T i || P.id a == i)) refl

  same_rows : (S T : ℕ → Bool) (rs : List A) → ((i : ℕ) → S i ≡ T i) → map (st S) rs ≡ map (st T) rs
  same_rows S T [] h = refl
  same_rows S T (r ∷ rs) h = rw (local S T r (h (P.id r)), same_rows S T rs h) refl

  pub run_phase :
      (xs : List A) (T : ℕ → Bool)
      → All (λ a. p a ≡ true) xs
      → All IsOwn xs
      → ((i : ℕ) → T i ≡ true → count_rows (λ a. P.id a == i) xs ≡ 0)
      → ((i : ℕ) → count_rows (λ a. P.id a == i) xs ≤ 1)
      → each xs (λ a. update_row P (P.id a) (u a)) (map (st T) rows)
        ≡ committed tt (map (st (λ i. T i || any (λ a. P.id a == i) xs)) rows)
  run_phase [] T h own done ids =
      ap (committed tt) (same_rows T (λ i. T i || false) rows (λ i. ground arith))
  run_phase (a ∷ xs) T (h, hs) (o, os) done ids = rw (one_step T a h not_done o) (
      run_phase xs (λ i. T i || P.id a == i) hs os done_later (λ i. ground (arith, ids i))
      ∙ ap (committed tt) (same_rows _ _ rows (λ i. ground arith)))
    where
      not_done : T (P.id a) ≡ false
      not_done = elim (Bool-cases (T (P.id a))) [
        | inl t ↦ absurd (ground (arith, done (P.id a) t))
        | inr f ↦ f
      ]

      done_later : (i : ℕ) → (T i || P.id a == i) ≡ true → count_rows (λ x. P.id x == i) xs ≡ 0
      done_later i t = ground (arith, t, done i, ids i)
