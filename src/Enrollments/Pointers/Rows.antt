-- ===== src/Enrollments/Pointers/Rows.antt =====
-- Enrollments looked up and changed by id, and the rows whose reading position a publication moves.
use aivirteach_server.Common.{
  ℕ, ◌≡◌, ◌∙◌, refl, ap, Bool, true, false, ◌||◌, String, Option, none, some, List, [], ◌∷◌, map,
  arith, if◌then◌else◌, ◌==◌, any, keep, find_first, update_rows, insert_row, order_rows, All,
  Bool-cases, Option-cases, inl, inr,
}
use aivirteach_server.Learning.{LearningState, get_replacement, truthy, remap_reading_position}
use aivirteach_server.Learning.Dict.{Object, lookup}
use aivirteach_server.Database.Rows.{Enrollment}
use aivirteach_server.Enrollments.Pointers.{
  is_key, is_pointing, is_moved, has_id, is_before, pointing_ids, IsReplacing,
}

abbrev updated : ℕ → (Enrollment → Enrollment) → Option Enrollment → Option Enrollment
updated j f none = none
updated j f (some r) = some (if has_id j r then f r else r)

-- A change of the rows of one id, which keeps ids, is seen where that id is looked up.
pub find-update :
    (i j : ℕ) (f : Enrollment → Enrollment) (es : List Enrollment)
    → ((r : Enrollment) → (f r).id ≡ r.id)
    → find_first (has_id i) (update_rows (has_id j) f es) ≡ updated j f (find_first (has_id i) es)
find-update i j f [] h = refl
find-update i j f (e ∷ es) h = ground (arith, h e, find-update i j f es h)

pub find_has_id :
    (i : ℕ) (es : List Enrollment) (e : Enrollment) → find_first (has_id i) es ≡ some e → e.id ≡ i
find_has_id i [] e h = cc
find_has_id i (x ∷ xs) e h = ground (arith, find_has_id i xs e)

module _ {κ} (P : Enrollment → Type κ) where
  pub All-updated :
      (p : Enrollment → Bool) (f : Enrollment → Enrollment) (es : List Enrollment)
      → All (λ r. P (if p r then f r else r)) es
      → All P (update_rows p f es)
  All-updated p f [] a = tt
  All-updated p f (e ∷ es) a = (a.0, All-updated p f es a.1)

module _ (course_id : ℕ) (removed : Object String) (ok : IsReplacing removed) where
  -- A row that points to a removed lesson moves, and then points to none.
  pub pointing_moves :
      (e : Enrollment)
      → is_pointing course_id removed e ≡ true
      → is_moved removed e.learning_state ≡ true
  pointing_moves e h = moves e.learning_state.reading_lesson_id (ground (arith, h))
    where
      moves :
          (o : Option String) → is_key removed o ≡ true → truthy (get_replacement o removed) ≡ true
      moves none k = cc
      moves (some id) k = elim (Option-cases (lookup id removed)) [
        | inl e ↦ ground (arith, e)
        | inr (v, e) ↦ rw ((ok id v e).0, e) (rw ((ok id v e).1) refl)
      ]

  pub moved_clear :
      (state : LearningState)
      → is_moved removed state ≡ true
      → is_key removed (remap_reading_position state removed).reading_lesson_id ≡ false
  unfolding remap_reading_position
  moved_clear state h = rw h (clear state.reading_lesson_id h)
    where
      clear :
          (o : Option String)
          → truthy (get_replacement o removed) ≡ true
          → is_key removed (get_replacement o removed) ≡ false
      clear none k = cc
      clear (some id) k = elim (Option-cases (lookup id removed)) [
        | inl e ↦ ground (arith, e)
        | inr (v, e) ↦ rw ((ok id v e).0, e) (rw ((ok id v e).2) refl)
      ]

abbrev pub has_any : ℕ → List ℕ → Bool
has_any i = any (λ j. j == i)

module _ (i : ℕ) where
  has_any-insert_row :
      (e : Enrollment) (es : List Enrollment)
      → has_any i (map (λ (r : Enrollment). r.id) (insert_row is_before e es))
        ≡ (e.id == i || has_any i (map (λ (r : Enrollment). r.id) es))
  has_any-insert_row e [] = refl
  has_any-insert_row e (x ∷ xs) = ground (arith, has_any-insert_row e xs)

  pub has_any-order_rows :
      (es : List Enrollment)
      → has_any i (map (λ (r : Enrollment). r.id) (order_rows is_before es))
        ≡ has_any i (map (λ (r : Enrollment). r.id) es)
  has_any-order_rows [] = refl
  has_any-order_rows (x ∷ xs) =
      has_any-insert_row x (order_rows is_before xs)
      ∙ ap (λ b. x.id == i || b) (has_any-order_rows xs)

module _ (P : ℕ → Type 0) where
  All-insert_row :
      (e : Enrollment) (es : List Enrollment)
      → P e.id
      → All P (map (λ (r : Enrollment). r.id) es)
      → All P (map (λ (r : Enrollment). r.id) (insert_row is_before e es))
  All-insert_row e [] p a = (p, tt)
  All-insert_row e (x ∷ xs) p a = elim (Bool-cases (is_before e x)) [
    | inl t ↦ rw t (p, a)
    | inr t ↦ rw t (a.0, All-insert_row e xs p a.1)
  ]

  pub All-pointing_ids :
      (c : ℕ) (removed : Object String) (es : List Enrollment)
      → All (λ (r : Enrollment). P r.id) es
      → All P (pointing_ids c removed es)
  All-pointing_ids c removed [] a = tt
  All-pointing_ids c removed (x ∷ xs) a = elim (Bool-cases (is_pointing c removed x)) [
    | inl t ↦ rw t (
        All-insert_row x (order_rows is_before (keep (is_pointing c removed) xs)) a.0
          (All-pointing_ids c removed xs a.1))
    | inr t ↦ rw t (All-pointing_ids c removed xs a.1)
  ]

pub has_id_self : (i : ℕ) → (i == i) ≡ true
has_id_self i = ground arith
