-- ===== src/Publishing/Remap.antt =====
-- What the replacements of removed lessons are.
use aivirteach_server.Common.{
  ◌≡◌, ◌∙◌, true, false, ◌||◌, ◌&&◌, not, ◌<◌, length, inl, inr, String, some, List, [], ◌∷◌, arith,
  or_default, is_some, eq_iff, includes, find_first, Bool-cases,
}
use aivirteach_server.Learning.Dict.{Object, lookup, assign, lookup-assign}
use aivirteach_server.Publishing.{last_of, remap_lessons, remap_removed_lessons}

includes-last_of : (x : String) (xs : List String) → includes (last_of x xs) (x ∷ xs) ≡ true
unfolding last_of
includes-last_of x [] = ground (arith, eq_iff x x)
includes-last_of x (y ∷ ys) = ground (arith, includes-last_of y ys)

-- The replacement that the loop chooses is retained.
next-retained :
    (retained : List String) (fallback : String) (xs : List String)
    → includes fallback retained ≡ true
    → includes (or_default (find_first (λ y. includes y retained) xs) fallback) retained ≡ true
next-retained retained fallback [] h = h
next-retained retained fallback (x ∷ xs) h = ground (arith, next-retained retained fallback xs h)

module _ (retained : List String) (fallback : String) (ok : includes fallback retained ≡ true) where
  -- Keys are removed lessons, values are retained ones.
  abbrev IsReplacing : Object String → Type 0
  IsReplacing m =
      (k v : String)
      → lookup k m ≡ some v
      → (includes k retained ≡ false) × (includes v retained ≡ true)

  assigned-IsReplacing :
      (x next : String) (m : Object String)
      → IsReplacing m
      → (includes x retained || is_some (lookup x m)) ≡ false
      → includes next retained ≡ true
      → IsReplacing (assign x next m)
  assigned-IsReplacing x next m h t r k v e =
      ground (arith, h k v, lookup-assign x k next m, eq_iff x k)

  remap_lessons-IsReplacing :
      (xs : List String) (m : Object String)
      → IsReplacing m
      → IsReplacing (remap_lessons retained fallback xs m)
  unfolding remap_lessons
  remap_lessons-IsReplacing [] m h = h
  remap_lessons-IsReplacing (x ∷ xs) m h =
      elim (Bool-cases (includes x retained || is_some (lookup x m))) [
        | inl t ↦ rw t (remap_lessons-IsReplacing xs m h)
        | inr t ↦ rw t (
            remap_lessons-IsReplacing xs _ (λ k v e.
              assigned-IsReplacing x _ m h t (next-retained retained fallback xs ok) k v e))
      ]

kept_key :
    (x k : String) (retained xs : List String) (m : Object String)
    → (includes x retained || is_some (lookup x m)) ≡ true
    → (is_some (lookup k m) || (includes k xs && not (includes k retained)))
      ≡ (is_some (lookup k m) || (includes k (x ∷ xs) && not (includes k retained)))
kept_key x k retained xs m t = ground (arith, eq_iff x k, t)

new_key :
    (x k next : String) (retained xs : List String) (m : Object String)
    → (includes x retained || is_some (lookup x m)) ≡ false
    → (is_some (lookup k (assign x next m)) || (includes k xs && not (includes k retained)))
      ≡ (is_some (lookup k m) || (includes k (x ∷ xs) && not (includes k retained)))
new_key x k next retained xs m t = ground (arith, lookup-assign x k next m, eq_iff x k, t)

remap_lessons-keys :
    (retained : List String) (fallback : String) (k : String) (xs : List String) (m : Object String)
    → is_some (lookup k (remap_lessons retained fallback xs m))
      ≡ (is_some (lookup k m) || (includes k xs && not (includes k retained)))
unfolding remap_lessons
remap_lessons-keys retained fallback k [] m = ground arith
remap_lessons-keys retained fallback k (x ∷ xs) m =
    let next = or_default (find_first (λ y. includes y retained) xs) fallback in
    elim (Bool-cases (includes x retained || is_some (lookup x m))) [
      | inl t ↦ rw t (remap_lessons-keys retained fallback k xs m ∙ kept_key x k retained xs m t)
      | inr t ↦ rw t (
          remap_lessons-keys retained fallback k xs (assign x next m)
          ∙ new_key x k next retained xs m t)
    ]

no_key : {C : Type 0} (k v : String) → lookup k [] ≡ some v → C
unfolding lookup
no_key k v e = cc

no_less : 0 < 0 → ⊥
no_less h = omega (arith, h)

-- Where the new version has a lesson: exactly the lessons of the old order that the new one lacks
-- are replaced, each by a lesson of the new order.
pub remap_removed_lessons-lookup :
    (old_order new_order : List String)
    → 0 < length new_order
    → (k : String)
    → (is_some (lookup k (remap_removed_lessons old_order new_order))
        ≡ (includes k old_order && not (includes k new_order)))
      × ((v : String)
          → lookup k (remap_removed_lessons old_order new_order) ≡ some v
          → includes v new_order ≡ true)
unfolding remap_removed_lessons lookup
remap_removed_lessons-lookup old [] h k = absurd (no_less h)
remap_removed_lessons-lookup old (n ∷ ns) h k = (
  remap_lessons-keys (n ∷ ns) (last_of n ns) k old [],
  λ v e.
      (remap_lessons-IsReplacing (n ∷ ns) (last_of n ns) (includes-last_of n ns) old []
        (λ k v e. no_key k v e) k v e).1,
)
