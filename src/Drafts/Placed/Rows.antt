-- ===== src/Drafts/Placed/Rows.antt =====
-- Rows with distinct ids, and what is done to each of them.
use aivirteach_server.Common.{
  ℕ, ◌≤◌, ◌≡◌, refl, sym, ◌∙◌, Bool, true, false, List, [], ◌∷◌, arith, if◌then◌else◌, ◌==◌, map,
  any, keep, count_rows, update_rows, All, All-map, All-both,
}

module _ {A : Type 0} (id : A → ℕ) where
  absent :
      (i : ℕ) (xs : List A) → count_rows (λ r. id r == i) xs ≡ 0 → All (λ r. (id r == i) ≡ false) xs
  absent i [] h = tt
  absent i (x ∷ xs) h = (ground (arith, h), absent i xs (ground (arith, h)))

  present : (xs : List A) → All (λ a. 1 ≤ count_rows (λ r. id r == id a) xs) xs
  present [] = tt
  present (x ∷ xs) = (
    ground arith,
    All-map (λ a. 1 ≤ count_rows (λ r. id r == id a) xs)
        (λ a. 1 ≤ count_rows (λ r. id r == id a) (x ∷ xs)) xs (λ a h. ground (arith, h))
        (present xs),
  )

  -- Rows with distinct ids are known by them.
  pub own_rows :
      (xs : List A)
      → ((i : ℕ) → count_rows (λ r. id r == i) xs ≤ 1)
      → All (λ a. All (λ r. (id r == id a) ≡ true → r ≡ a) xs) xs
  own_rows [] h = tt
  own_rows (x ∷ xs) h = (
    (
      (λ e. refl),
      All-map (λ r. (id r == id x) ≡ false) (λ r. (id r == id x) ≡ true → r ≡ x) xs
          (λ r f t. cc (sym t ∙ f)) (absent (id x) xs (ground (arith, h (id x)))),
    ),
    All-map
        (λ a. (1 ≤ count_rows (λ r. id r == id a) xs) × All (λ r. (id r == id a) ≡ true → r ≡ a) xs)
        (λ a. All (λ r. (id r == id a) ≡ true → r ≡ a) (x ∷ xs)) xs
        (λ a both. ((λ e. absurd (ground (arith, both.0, e, h (id a)))), both.1))
        (All-both _ _ xs (present xs) (own_rows xs (λ i. ground (arith, h i)))),
  )

  pub listed :
      (p : A → Bool) (xs : List A)
      → All (λ r. p r ≡ true → any (λ a. id a == id r) (keep p xs) ≡ true) xs
  listed p [] = tt
  listed p (x ∷ xs) = (
    (λ t. ground (arith, t)),
    All-map (λ r. p r ≡ true → any (λ a. id a == id r) (keep p xs) ≡ true)
        (λ r. p r ≡ true → any (λ a. id a == id r) (keep p (x ∷ xs)) ≡ true) xs
        (λ r h t. ground (arith, h t)) (listed p xs),
  )

pub same_map :
    {A : Type 0} (f g : A → A) (rs : List A) → All (λ r. f r ≡ g r) rs → map f rs ≡ map g rs
same_map f g [] a = refl
same_map f g (r ∷ rs) (h, a) = rw (h, same_map f g rs a) refl

pub map_stays : {A : Type 0} (f : A → A) (rs : List A) → ((r : A) → f r ≡ r) → map f rs ≡ rs
map_stays f [] h = refl
map_stays f (r ∷ rs) h = rw (h r, map_stays f rs h) refl

pub same_update :
    {A : Type 0} (p : A → Bool) (f : A → A) (rs : List A)
    → map (λ r. if p r then f r else r) rs ≡ update_rows p f rs
same_update p f [] = refl
same_update p f (r ∷ rs) = rw (same_update p f rs) refl
