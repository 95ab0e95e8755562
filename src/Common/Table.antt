-- ===== src/Common/Table.antt =====
-- A database table as a list of rows, and the statements that the services run on it.
use Prim.Native.Nat.{ℕ, zero, suc}
use mathlib.Core.Path.{◌≡◌, refl}
use mathlib.Core.Bool.{Bool, true}
use mathlib.Core.Option.{Option, none, some}
use mathlib.Core.List.{List, [], ◌∷◌, ◌++◌}
use native.Mathlib.Omega.{arith}
use aivirteach_server.Common.Tests.{if◌then◌else◌}

module _ {ℓ} {A : Type ℓ} where
  -- findUnique, findFirst
  abbrev pub find_first : (A → Bool) → List A → Option A
  find_first p [] = none
  find_first p (x ∷ xs) = if p x then some x else find_first p xs

  -- updateMany: the rows that pass the test are changed
  abbrev pub update_rows : (A → Bool) → (A → A) → List A → List A
  update_rows p f [] = []
  update_rows p f (x ∷ xs) = (if p x then f x else x) ∷ update_rows p f xs

  abbrev pub changed_row : (A → Bool) → (A → A) → Option A → Option A
  changed_row p f none = none
  changed_row p f (some x) = some (if p x then f x else x)

  -- deleteMany
  abbrev pub delete_rows : (A → Bool) → List A → List A
  delete_rows p [] = []
  delete_rows p (x ∷ xs) = let rest = delete_rows p xs in if p x then rest else x ∷ rest

  -- the count that updateMany and deleteMany return
  abbrev pub count_rows : (A → Bool) → List A → ℕ
  count_rows p [] = 0
  count_rows p (x ∷ xs) = let rest = count_rows p xs in if p x then suc rest else rest

  -- A change that the test does not see is found where the row was found.
  pub find_first-update_rows :
      (p q : A → Bool) (f : A → A) (xs : List A)
      → ((x : A) → p (f x) ≡ p x)
      → find_first p (update_rows q f xs) ≡ changed_row q f (find_first p xs)
  find_first-update_rows p q f [] h = refl
  find_first-update_rows p q f (x ∷ xs) h = ground (arith, h x, find_first-update_rows p q f xs h)

  -- `orderBy`: a stable insertion by a key's order
  abbrev pub insert_row : (A → A → Bool) → A → List A → List A
  insert_row before x [] = x ∷ []
  insert_row before x (y ∷ ys) =
      let rest = insert_row before x ys in if before x y then x ∷ y ∷ ys else y ∷ rest

  abbrev pub order_rows : (A → A → Bool) → List A → List A
  order_rows before [] = []
  order_rows before (x ∷ xs) = insert_row before x (order_rows before xs)

  abbrev pub take : ℕ → List A → List A
  take zero xs = []
  take (suc n) [] = []
  take (suc n) (x ∷ xs) = x ∷ take n xs

module _ {ℓ κ} {A : Type ℓ} (P : A → Type κ) where
  abbrev pub All : List A → Type κ
  All [] = Unit
  All (x ∷ xs) = P x × All xs

module _ {ℓ κ} {A : Type ℓ} (P : A → Type κ) where
  pub All-update_rows :
      (p : A → Bool) (f : A → A) (xs : List A)
      → ((x : A) → p x ≡ true → P x → P (f x))
      → All P xs
      → All P (update_rows p f xs)
  All-update_rows p f [] h a = tt
  All-update_rows p f (x ∷ xs) h (px, a) = ground (arith, h x, All-update_rows p f xs h a)

  pub All-delete_rows : (p : A → Bool) (xs : List A) → All P xs → All P (delete_rows p xs)
  All-delete_rows p [] a = tt
  All-delete_rows p (x ∷ xs) (px, a) = ground (arith, All-delete_rows p xs a)

  pub All-find_first :
      (p : A → Bool) (xs : List A) (x : A)
      → find_first p xs ≡ some x
      → All P xs
      → P x × (p x ≡ true)
  All-find_first p [] x e a = cc
  All-find_first p (y ∷ ys) x e (py, a) = ground (arith, All-find_first p ys x)

  pub All-map {μ} : (Q : A → Type μ) (xs : List A) → ((x : A) → P x → Q x) → All P xs → All Q xs
  All-map Q [] f a = tt
  All-map Q (x ∷ xs) f (px, a) = (f x px, All-map Q xs f a)

  pub All-at : (xs : List A) (y : A) (ys : List A) → All P (xs ++ y ∷ ys) → P y
  All-at [] y ys a = a.0
  All-at (x ∷ xs) y ys a = All-at xs y ys a.1

  pub All-replace :
      (xs : List A) (y z : A) (ys : List A) → P z → All P (xs ++ y ∷ ys) → All P (xs ++ z ∷ ys)
  All-replace [] y z ys pz a = (pz, a.1)
  All-replace (x ∷ xs) y z ys pz a = (a.0, All-replace xs y z ys pz a.1)

module _ {ℓ κ μ} {A : Type ℓ} (P : A → Type κ) (Q : A → Type μ) where
  pub All-both : (xs : List A) → All P xs → All Q xs → All (λ x. P x × Q x) xs
  All-both [] a b = tt
  All-both (x ∷ xs) a b = ((a.0, b.0), All-both xs a.1 b.1)
