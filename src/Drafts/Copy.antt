-- ===== src/Drafts/Copy.antt =====
-- A draft that is copied from a version reads like that version, but for the ids.
use aivirteach_server.Common.{
  ℕ, suc, ◌≤◌, ◌<◌, ◌≡◌, refl, sym, ap, ◌∙◌, Bool, true, false, List, [], ◌∷◌, ◌++◌, arith, ◌==◌,
  map, keep, order_rows, IsFrom, IsSorted, order_rows-IsSorted, order_rows-sorted, All, All-map,
  Bool-cases, inl, inr,
}
use mathlib.Core.List.{append_assoc as list_assoc}
use aivirteach_server.Drafts.{
  LessonAssessment, DraftLesson, DraftModule, DraftVersion, is_module_before, is_lesson_before,
  lessons_of, with_lessons, include_modules,
}
use aivirteach_server.Drafts.Course.{
  copy_assessments, after_assessments, copy_lessons, after_lessons, copy_modules, copy_all_lessons,
  copy_version,
}

abbrev pub strip_assessment : LessonAssessment → LessonAssessment
strip_assessment a = record a { id = 0 }

abbrev pub strip_lesson : DraftLesson → DraftLesson
strip_lesson l = record l {
  id = 0;
  module_id = 0;
  assessments = map strip_assessment l.assessments;
}

-- a module and its lessons without the ids of the rows
abbrev pub strip : DraftModule × List DraftLesson → DraftModule × List DraftLesson
strip (m, ls) = (record m { id = 0 }, map strip_lesson ls)

strip-copy_assessments :
    (n : ℕ) (xs : List LessonAssessment)
    → map strip_assessment (copy_assessments n xs) ≡ map strip_assessment xs
strip-copy_assessments n [] = refl
strip-copy_assessments n (a ∷ xs) = rw (strip-copy_assessments (suc n) xs) refl

strip-copy_lessons :
    (id n : ℕ) (ls : List DraftLesson)
    → map strip_lesson (copy_lessons id n ls) ≡ map strip_lesson ls
strip-copy_lessons id n [] = refl
strip-copy_lessons id n (l ∷ ls) =
    rw
      (
        strip-copy_assessments (suc n) l.assessments,
        strip-copy_lessons id (after_assessments (suc n) l.assessments) ls,
      )
      refl

after_assessments_le : (n : ℕ) (xs : List LessonAssessment) → n ≤ after_assessments n xs
after_assessments_le n [] = omega arith
after_assessments_le n (a ∷ xs) = omega (arith, after_assessments_le (suc n) xs)

after_lessons_le : (n : ℕ) (ls : List DraftLesson) → n ≤ after_lessons n ls
after_lessons_le n [] = omega arith
after_lessons_le n (l ∷ ls) = omega (
  arith,
  after_assessments_le (suc n) l.assessments,
  after_lessons_le (after_assessments (suc n) l.assessments) ls,
)

copy_lessons-IsFrom :
    (id n p : ℕ) (ls : List DraftLesson)
    → IsFrom (λ (l : DraftLesson). l.position) p ls
    → IsFrom (λ (l : DraftLesson). l.position) p (copy_lessons id n ls)
copy_lessons-IsFrom id n p [] s = tt
copy_lessons-IsFrom id n p (l ∷ ls) (h, s) =
    (h, copy_lessons-IsFrom id (after_assessments (suc n) l.assessments) l.position ls s)

-- the lessons of the other modules
keep_none :
    (id : ℕ) (ls : List DraftLesson)
    → All (λ l. (l.module_id == id) ≡ false) ls
    → keep (λ (l : DraftLesson). l.module_id == id) ls ≡ []
keep_none id [] a = refl
keep_none id (l ∷ ls) (h, a) = rw (h, keep_none id ls a) refl

keep_own :
    (id n : ℕ) (ls : List DraftLesson)
    → keep (λ (l : DraftLesson). l.module_id == id) (copy_lessons id n ls) ≡ copy_lessons id n ls
keep_own id n [] = refl
keep_own id n (l ∷ ls) =
    let same : (id == id) ≡ true = ground arith in
    rw (same, keep_own id (after_assessments (suc n) l.assessments) ls) refl

keep-append :
    (p : DraftLesson → Bool) (xs ys : List DraftLesson) → keep p (xs ++ ys) ≡ keep p xs ++ keep p ys
keep-append p [] ys = refl
keep-append p (x ∷ xs) ys = elim (Bool-cases (p x)) [
  | inl t ↦ rw (t, keep-append p xs ys) refl
  | inr f ↦ rw (f, keep-append p xs ys) refl
]

append_nil : {A : Type 0} (xs : List A) → xs ++ [] ≡ xs
append_nil [] = refl
append_nil (x ∷ xs) = ap (λ r. x ∷ r) (append_nil xs)

All-append : {A : Type 0} (R : A → Type 0) (xs ys : List A) → All R xs → All R ys → All R (xs ++ ys)
All-append R [] ys a b = b
All-append R (x ∷ xs) ys (r, a) b = (r, All-append R xs ys a b)

copied_of : (id n : ℕ) (ls : List DraftLesson) → All (λ l. l.module_id ≡ id) (copy_lessons id n ls)
copied_of id n [] = tt
copied_of id n (l ∷ ls) = (refl, copied_of id (after_assessments (suc n) l.assessments) ls)

copied_later :
    (n : ℕ) (ms : List (DraftModule × List DraftLesson))
    → All (λ l. n ≤ l.module_id) (copy_all_lessons n ms)
copied_later n [] = tt
copied_later n ((m, ls) ∷ ms) =
    All-append (λ l. n ≤ l.module_id) (copy_lessons n (suc n) ls)
      (copy_all_lessons (after_lessons (suc n) ls) ms)
      (All-map (λ l. l.module_id ≡ n) (λ l. n ≤ l.module_id) (copy_lessons n (suc n) ls)
        (λ l e. omega (arith, e)) (copied_of n (suc n) ls))
      (All-map (λ l. after_lessons (suc n) ls ≤ l.module_id) (λ l. n ≤ l.module_id)
        (copy_all_lessons (after_lessons (suc n) ls) ms)
        (λ l h. omega (arith, h, after_lessons_le (suc n) ls))
        (copied_later (after_lessons (suc n) ls) ms))

-- the lessons of each module by position
abbrev AreSorted : List (DraftModule × List DraftLesson) → Type 0
AreSorted =
    All (λ (m : DraftModule × List DraftLesson). IsSorted (λ (l : DraftLesson). l.position) m.1)

module _ (pre : List DraftLesson) (n : ℕ) (ls : List DraftLesson)
    (ms : List (DraftModule × List DraftLesson)) (before : All (λ l. l.module_id < n) pre)
    (sorted : IsSorted (λ (l : DraftLesson). l.position) ls) where
  abbrev more : List DraftLesson
  more = copy_all_lessons (after_lessons (suc n) ls) ms

  own_lessons :
      lessons_of n (pre ++ (copy_lessons n (suc n) ls ++ more)) ≡ copy_lessons n (suc n) ls
  own_lessons =
      ap (order_rows is_lesson_before) (
        keep-append (λ (l : DraftLesson). l.module_id == n) pre (copy_lessons n (suc n) ls ++ more)
        ∙ ap
            (λ xs.
              xs
              ++ keep (λ (l : DraftLesson). l.module_id == n) (copy_lessons n (suc n) ls ++ more))
            (keep_none n pre earlier)
        ∙ keep-append (λ (l : DraftLesson). l.module_id == n) (copy_lessons n (suc n) ls) more
        ∙ ap (λ xs. xs ++ keep (λ (l : DraftLesson). l.module_id == n) more) (keep_own n (suc n) ls)
        ∙ ap (λ xs. copy_lessons n (suc n) ls ++ xs) (keep_none n more later)
        ∙ append_nil (copy_lessons n (suc n) ls))
      ∙ order_rows-sorted (λ (l : DraftLesson). l.position) 0 (copy_lessons n (suc n) ls)
          (copy_lessons-IsFrom n (suc n) 0 ls sorted)
    where
      earlier : All (λ l. (l.module_id == n) ≡ false) pre
      earlier =
          All-map (λ l. l.module_id < n) (λ l. (l.module_id == n) ≡ false) pre
            (λ l h. ground (arith, h)) before

      later : All (λ l. (l.module_id == n) ≡ false) more
      later =
          All-map (λ l. after_lessons (suc n) ls ≤ l.module_id) (λ l. (l.module_id == n) ≡ false)
            more (λ l h. ground (arith, h, after_lessons_le (suc n) ls))
            (copied_later (after_lessons (suc n) ls) ms)

with_copied :
    (pre : List DraftLesson) (n : ℕ) (ms : List (DraftModule × List DraftLesson))
    → All (λ l. l.module_id < n) pre
    → AreSorted ms
    → map strip (with_lessons (pre ++ copy_all_lessons n ms) (copy_modules n ms)) ≡ map strip ms
with_copied pre n [] before sorted = refl
with_copied pre n ((m, ls) ∷ ms) before (s, sorted) =
    rw (own_lessons pre n ls ms before s, strip-copy_lessons n (suc n) ls)
      (ap (λ t. (record m { id = 0 }, map strip_lesson ls) ∷ t)
        (ap (λ all. map strip (with_lessons all (copy_modules (after_lessons (suc n) ls) ms)))
            (sym (
              list_assoc pre (copy_lessons n (suc n) ls)
                (copy_all_lessons (after_lessons (suc n) ls) ms)))
          ∙ with_copied (pre ++ copy_lessons n (suc n) ls) (after_lessons (suc n) ls) ms earlier
              sorted))
  where
    earlier : All (λ l. l.module_id < after_lessons (suc n) ls) (pre ++ copy_lessons n (suc n) ls)
    earlier =
        All-append (λ l. l.module_id < after_lessons (suc n) ls) pre (copy_lessons n (suc n) ls)
          (All-map (λ l. l.module_id < n) (λ l. l.module_id < after_lessons (suc n) ls) pre
            (λ l h. omega (arith, h, after_lessons_le (suc n) ls)) before)
          (All-map (λ l. l.module_id ≡ n) (λ l. l.module_id < after_lessons (suc n) ls)
            (copy_lessons n (suc n) ls) (λ l e. omega (arith, e, after_lessons_le (suc n) ls))
            (copied_of n (suc n) ls))

with_lessons-AreSorted :
    (ls : List DraftLesson) (ms : List DraftModule) → AreSorted (with_lessons ls ms)
with_lessons-AreSorted ls [] = tt
with_lessons-AreSorted ls (m ∷ ms) = (
  order_rows-IsSorted (λ (l : DraftLesson). l.position)
      (keep (λ (l : DraftLesson). l.module_id == m.id) ls),
  with_lessons-AreSorted ls ms,
)

-- the modules are copied in their order
copy_modules-IsFrom :
    (n p : ℕ) (ls : List DraftLesson) (ms : List DraftModule)
    → IsFrom (λ (m : DraftModule). m.position) p ms
    → IsFrom (λ (m : DraftModule). m.position) p (copy_modules n (with_lessons ls ms))
copy_modules-IsFrom n p ls [] s = tt
copy_modules-IsFrom n p ls (m ∷ ms) (h, s) =
    (h, copy_modules-IsFrom (after_lessons (suc n) (lessons_of m.id ls)) m.position ls ms s)

-- The draft that is copied from a version reads like it: the same modules in the same order, each with
-- the same lessons and assessments in the same order, all but the ids of the rows.
pub include_modules-copy_version :
    (id n : ℕ) (v : DraftVersion)
    → map strip (include_modules (copy_version id n v)) ≡ map strip (include_modules v)
unfolding include_modules copy_version
include_modules-copy_version id n v =
    let ms = order_rows is_module_before v.modules in
    rw
      (order_rows-sorted (λ (m : DraftModule). m.position) 0
        (copy_modules n (with_lessons v.lessons ms))
        (copy_modules-IsFrom n 0 v.lessons ms
          (order_rows-IsSorted (λ (m : DraftModule). m.position) v.modules)))
      (with_copied [] n (with_lessons v.lessons ms) tt (with_lessons-AreSorted v.lessons ms))
