-- ===== src/Drafts/Content/Reorder.antt =====
-- admin/draft/draft-content.service.ts: the reordering of a draft's modules and lessons.
use aivirteach_server.Common.{
  ℕ, suc, ◌+◌, Bool, true, ◌&&◌, not, String, Option, none, some, List, [], ◌∷◌, ◌++◌,
  if◌then◌else◌, ◌==◌, str_eq, any, all, map, length, find_first, order_rows,
}
use aivirteach_server.Process.{aborted, not_found, conflict, bad_request, ◌>>=◌, transaction}
use aivirteach_server.Drafts.{
  DraftLesson, DraftModule, DraftVersion, DraftTask, reorder_action, require_draft_ref, then_do,
  is_module_before, with_lessons,
}
use aivirteach_server.Drafts.Placed.{each, update_row, lift_where}
use aivirteach_server.Drafts.Content.{
  ContentWrite, module_rows, lesson_rows, in_modules, in_lessons, mutate,
}
use aivirteach_server.Drafts.Content.Lesson.{has_content_id}

-- a module and the content ids of its lessons, as they are to follow
pub record ModuleOrder : Type 0 where
  pub id : ℕ
  pub lessons : List String

module _ {A : Type 0} (eq : A → A → Bool) where
  -- `new Set(xs).size === xs.length`
  abbrev pub all_distinct : List A → Bool
  all_distinct [] = true
  all_distinct (x ∷ xs) = not (any (eq x) xs) && all_distinct xs

  -- `assertPermutation`
  unfoldable pub is_permutation : List A → List A → Bool
  is_permutation actual expected =
      length actual == length expected
      && all_distinct actual
      && all (λ x. any (eq x) expected) actual

abbrev pub all_content_ids : List ModuleOrder → List String
all_content_ids [] = []
all_content_ids (m ∷ ms) = m.lessons ++ all_content_ids ms

abbrev pub all_lessons : List (DraftModule × List DraftLesson) → List DraftLesson
all_lessons [] = []
all_lessons ((m, ls) ∷ ms) = ls ++ all_lessons ms

-- `xs.entries()`
abbrev pub entries : {A : Type 0} → ℕ → List A → List (ℕ × A)
entries n [] = []
entries n (x ∷ xs) = (n, x) ∷ entries (suc n) xs

abbrev pub place_module : ℕ × ModuleOrder → ContentWrite (Unit {0})
place_module (index, item) =
    in_modules (update_row module_rows item.id (module_rows.put (index + 1)))

abbrev pub put_lesson : ℕ → ℕ → String → DraftLesson → DraftLesson
put_lesson module_id index content_id l = record l {
  module_id = module_id;
  position = index + 1;
  content_id = content_id;
}

-- `lessonByContentId.get(id)!`
abbrev pub place_found : ℕ → ℕ → String → Option DraftLesson → ContentWrite (Unit {0})
place_found module_id index content_id none c = aborted not_found
place_found module_id index content_id (some l) c =
    in_lessons (update_row lesson_rows l.id (put_lesson module_id index content_id)) c

abbrev pub place_lessons : List DraftLesson → ModuleOrder → ContentWrite (Unit {0})
place_lessons lessons item =
    each (entries 0 item.lessons)
      (λ (e : ℕ × String). place_found item.id e.0 e.1 (find_first (has_content_id e.1) lessons))

-- `temporary` prints the content id that a lesson has while it moves.
module _ (temporary : ℕ → ℕ → String) (draft_id : ℕ) where
  abbrev pub set_aside : DraftLesson → ContentWrite (Unit {0})
  set_aside l = in_lessons (
      update_row lesson_rows l.id
        (λ (k : DraftLesson). record k { content_id = temporary draft_id l.id }))

  unfoldable pub move_rows :
      List DraftModule → List DraftLesson → List ModuleOrder → ContentWrite (Unit {0})
  move_rows modules lessons order = then_do (in_modules (lift_where module_rows (λ m. true))) (λ u.
      then_do (each (entries 0 order) place_module) (λ u.
        then_do
          (in_lessons
            (lift_where lesson_rows (λ l. any (λ (m : DraftModule). m.id == l.module_id) modules)))
          (λ u. then_do (each lessons set_aside) (λ u. each order (place_lessons lessons)))))

  abbrev pub checked_move :
      List (DraftModule × List DraftLesson) → List ModuleOrder → ContentWrite (Unit {0})
  checked_move snapshot order c =
      if not (
        is_permutation (λ a b. a == b) (map (λ (m : ModuleOrder). m.id) order)
          (map (λ (m : DraftModule × List DraftLesson). m.0.id) snapshot))
      then aborted bad_request
      else if not (all_distinct str_eq (all_content_ids order))
      then aborted bad_request
      else if not (
          is_permutation str_eq (all_content_ids order)
            (map (λ (l : DraftLesson). l.content_id) (all_lessons snapshot)))
      then aborted bad_request
      else if not
          (all_distinct str_eq (map (λ (l : DraftLesson). l.content_id) (all_lessons snapshot)))
      then aborted conflict
      else move_rows (map (λ (m : DraftModule × List DraftLesson). m.0) snapshot)
          (all_lessons snapshot) order c

  unfoldable pub reorder_rows : List ModuleOrder → ContentWrite (Unit {0})
  reorder_rows order c =
      checked_move (with_lessons c.lessons (order_rows is_module_before c.modules)) order c

unfoldable pub reorder :
    (ℕ → ℕ → String) → String → List ModuleOrder → String → DraftTask DraftVersion
reorder temporary slug order operator = do
  draft ← require_draft_ref slug
  transaction (mutate reorder_action slug operator draft.id (reorder_rows temporary draft.id order))
