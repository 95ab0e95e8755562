-- ===== src/Drafts/Content/Numbering.antt =====
-- The modules of a draft, and the lessons of a module, keep the positions 1, 2, ..., n.
use aivirteach_server.Common.{
  ℕ, suc, ◌+◌, ◌-◌, ◌≤◌, ◌≡◌, refl, ap, Bool, true, false, String, some, List, [], ◌∷◌, arith, ◌==◌,
  any, keep, find_first, count_rows, delete_rows, All, Bool-cases, inl, inr,
}
use aivirteach_server.Process.{committed}
use aivirteach_server.Drafts.{DraftLesson, DraftModule}
use aivirteach_server.Drafts.Placed.{is_clear, last_position, position_offset}
use aivirteach_server.Drafts.Placed.Appending.{append_row-IsNumbered}
use aivirteach_server.Drafts.Placed.Phase.{PlacedLaws}
use aivirteach_server.Drafts.Placed.Numbering.{IsNumbered, renumbered, close_gap-IsNumbered}
use aivirteach_server.Drafts.Content.{
  Content, module_rows, lesson_rows, is_module, delete_module_rows, ModuleInput, create_module_rows,
}
use aivirteach_server.Drafts.Content.Lesson.{
  LessonInput, has_content_id, new_lesson, create_lesson_rows, delete_lesson_rows, find_lesson_row,
}

pub module_laws : PlacedLaws module_rows
module_laws = record {
  id-put = λ n a. refl;
  parent-put = λ n a. refl;
  position-put = λ n a. refl;
  put-put = λ n m a. refl;
  other-put = λ n a b. refl;
  other-put_right = λ n a b. refl;
}

lesson_laws : PlacedLaws lesson_rows
lesson_laws = record {
  id-put = λ n a. refl;
  parent-put = λ n a. refl;
  position-put = λ n a. refl;
  put-put = λ n m a. refl;
  other-put = λ n a b. refl;
  other-put_right = λ n a b. refl;
}

-- the modules of a draft: distinct ids, clear unique indexes, no position past the offset, and `n` of
-- them numbered from 1
pub record AreModules (n : ℕ) (ms : List DraftModule) : Type 0 where
  pub ids : (i : ℕ) → count_rows (is_module i) ms ≤ 1
  pub clear : is_clear module_rows ms ≡ true
  pub bounded : All (λ m. m.position ≤ position_offset) ms
  pub numbered : IsNumbered module_rows 0 n ms

-- Where a draft has the module and its modules are numbered from 1 to `n`, deleteModule commits, the
-- modules that are left are numbered from 1 to `n - 1`, and the lessons of the module are gone.
pub delete_module_rows-IsNumbered :
    (id n : ℕ) (m : DraftModule) (c : Content)
    → find_first (is_module id) c.modules ≡ some m
    → AreModules n c.modules
    → (c' : Content) × (delete_module_rows id c ≡ committed tt c')
      × IsNumbered module_rows 0 (n - 1) c'.modules
      × (c'.lessons ≡ delete_rows (λ (l : DraftLesson). l.module_id == id) c.lessons)
unfolding delete_module_rows
delete_module_rows-IsNumbered id n m c found are =
    let closed =
      close_gap-IsNumbered module_rows module_laws c.modules id m found are.ids are.clear
        are.bounded n are.numbered in
    (
      record c {
        modules = renumbered module_rows module_laws 0 m.position (is_module id) c.modules;
        lessons = delete_rows (λ (l : DraftLesson). l.module_id == id) c.lessons;
      },
      rw (found, closed.0) refl,
      closed.1,
      refl,
    )

-- The only row that a test keeps is the first with its id.
only_found :
    (q : DraftLesson → Bool) (l : DraftLesson) (ls : List DraftLesson)
    → keep q ls ≡ l ∷ []
    → ((i : ℕ) → count_rows (λ (r : DraftLesson). r.id == i) ls ≤ 1)
    → (1 ≤ count_rows (λ (r : DraftLesson). r.id == l.id) ls)
      × (find_first (λ (r : DraftLesson). r.id == l.id) ls ≡ some l)
only_found q l [] h ids = cc
only_found q l (x ∷ xs) h ids = elim (Bool-cases (q x)) [
  | inl t ↦ here (rw t at h)
  | inr f ↦
      let more = only_found q l xs (rw f at h) (λ i. ground (arith, ids i)) in
      (ground (arith, more.0), ground (arith, ids l.id, more.0, more.1))
]
  where
    here :
        x ∷ keep q xs ≡ l ∷ []
        → (1 ≤ count_rows (λ (r : DraftLesson). r.id == l.id) (x ∷ xs))
          × (find_first (λ (r : DraftLesson). r.id == l.id) (x ∷ xs) ≡ some l)
    here e =
        let same : x ≡ l = cc in
        let at_id : x.id ≡ l.id = ap (λ (r : DraftLesson). r.id) same in
        (ground (arith, at_id), ground (arith, at_id, same))

-- the lessons of a draft, of which `n` stand in the module, numbered from 1
pub record AreLessons (module_id n : ℕ) (ls : List DraftLesson) : Type 0 where
  pub ids : (i : ℕ) → count_rows (λ (l : DraftLesson). l.id == i) ls ≤ 1
  pub clear : is_clear lesson_rows ls ≡ true
  pub bounded : All (λ l. l.position ≤ position_offset) ls
  pub numbered : IsNumbered lesson_rows module_id n ls

-- Where one lesson of the draft has the content id, and the lessons of its module are numbered from 1
-- to `n`, deleteLesson commits, those that are left are numbered from 1 to `n - 1`, and the modules
-- stay as they were.
pub delete_lesson_rows-IsNumbered :
    (content_id : String) (n : ℕ) (l : DraftLesson) (c : Content)
    → keep (has_content_id content_id) c.lessons ≡ l ∷ []
    → AreLessons l.module_id n c.lessons
    → (c' : Content) × (delete_lesson_rows content_id c ≡ committed tt c')
      × IsNumbered lesson_rows l.module_id (n - 1) c'.lessons
      × (c'.modules ≡ c.modules)
unfolding delete_lesson_rows find_lesson_row
delete_lesson_rows-IsNumbered content_id n l c only are =
    let found = (only_found (has_content_id content_id) l c.lessons only are.ids).1 in
    let closed =
      close_gap-IsNumbered lesson_rows lesson_laws c.lessons l.id l found are.ids are.clear
        are.bounded n are.numbered in
    (
      record c {
        lessons =
            renumbered lesson_rows lesson_laws l.module_id l.position
              (λ (r : DraftLesson). r.id == l.id) c.lessons;
      },
      rw (only, closed.0) refl,
      closed.1,
      refl,
    )

-- Where the modules of a draft are numbered from 1 to `n`, createModule commits, and they are numbered
-- from 1 to `n + 1`.
pub create_module_rows-IsNumbered :
    (input : ModuleInput) (n : ℕ) (c : Content)
    → AreModules n c.modules
    → (c' : Content) × (create_module_rows input c ≡ committed tt c')
      × IsNumbered module_rows 0 (n + 1) c'.modules
      × (c'.lessons ≡ c.lessons)
unfolding create_module_rows
create_module_rows-IsNumbered input n c are =
    let appended =
      append_row-IsNumbered module_rows 0 n (new input c) c.modules are.clear are.numbered refl refl
        (no_other c.modules) in
    (
      record c { modules = new input c ∷ c.modules; next_row = suc c.next_row },
      rw appended.0 refl,
      appended.1,
      refl,
    )
  where
    new : ModuleInput → Content → DraftModule
    new input c = record {
      id = c.next_row;
      position = last_position module_rows 0 c.modules + 1;
      title = input.title;
      description = input.description;
      estimated_minutes = input.estimated_minutes;
    }

    no_other : (ms : List DraftModule) → any (module_rows.other (new input c)) ms ≡ false
    no_other [] = refl
    no_other (m ∷ ms) = no_other ms

-- Where the draft has the module and no lesson with the content id, and the lessons of the module are
-- numbered from 1 to `n`, createLesson's write commits, and they are numbered from 1 to `n + 1`.
pub create_lesson_rows-IsNumbered :
    (module_id : ℕ) (content : String) (input : LessonInput) (n : ℕ) (m : DraftModule) (c : Content)
    → find_first (is_module module_id) c.modules ≡ some m
    → any (has_content_id input.content_id) c.lessons ≡ false
    → AreLessons module_id n c.lessons
    → (c' : Content) × (create_lesson_rows module_id content input c ≡ committed tt c')
      × IsNumbered lesson_rows module_id (n + 1) c'.lessons
      × (c'.modules ≡ c.modules)
unfolding create_lesson_rows
create_lesson_rows-IsNumbered module_id content input n m c found free are =
    let appended =
      append_row-IsNumbered lesson_rows module_id n new c.lessons are.clear are.numbered refl refl
        (no_other c.lessons free) in
    (
      record c { lessons = new ∷ c.lessons; next_row = suc c.next_row },
      rw (found, free, appended.0) refl,
      appended.1,
      refl,
    )
  where
    new : DraftLesson
    new =
        new_lesson c.next_row module_id (last_position lesson_rows module_id c.lessons + 1) content
          input

    no_other :
        (ls : List DraftLesson)
        → any (has_content_id input.content_id) ls ≡ false
        → any
            (lesson_rows.other (
              new_lesson c.next_row module_id
                (last_position lesson_rows module_id c.lessons + 1)
                content
                input))
            ls
          ≡ false
    no_other [] h = refl
    no_other (l ∷ ls) h = ground (arith, h, no_other ls)
