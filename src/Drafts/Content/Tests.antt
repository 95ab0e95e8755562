-- ===== src/Drafts/Content/Tests.antt =====
-- Modules and lessons are deleted and created in a draft of two modules.
use aivirteach_server.Common.{◌≡◌, refl, none, [], ◌∷◌, arith}
use aivirteach_server.Process.{committed}
use aivirteach_server.Drafts.Placed.{close_gap}
use aivirteach_server.Drafts.Placed.Numbering.{IsNumbered}
use aivirteach_server.Drafts.Placed.Closing.{close_gap-renumbers}
use aivirteach_server.Drafts.Content.{
  Content, ModuleInput, module_rows, lesson_rows, delete_module_rows, create_module_rows,
}
use aivirteach_server.Drafts.Content.Lesson.{LessonInput, create_lesson_rows, delete_lesson_rows}
use aivirteach_server.Drafts.Content.Numbering.{
  AreModules, AreLessons, module_laws, delete_module_rows-IsNumbered, delete_lesson_rows-IsNumbered,
  create_module_rows-IsNumbered, create_lesson_rows-IsNumbered,
}
use aivirteach_server.Drafts.Tests.{module_row, lesson_row, first_version}

abbrev two_modules : Content
two_modules = record {
  modules = first_version.modules;
  lessons = first_version.lessons;
  next_row = 3;
}

two_modules-AreModules : AreModules 2 two_modules.modules
two_modules-AreModules = record {
  ids = λ i. ground arith;
  clear = refl;
  bounded = (omega arith, (omega arith, tt));
  numbered = λ p. ground arith;
}

two_modules-AreLessons : AreLessons 1 1 two_modules.lessons
two_modules-AreLessons = record {
  ids = λ i. ground arith;
  clear = refl;
  bounded = (omega arith, (omega arith, tt));
  numbered = λ p. ground arith;
}

delete_module_rows-IsNumbered_example :
    (c : Content) × (delete_module_rows 1 two_modules ≡ committed tt c)
    × IsNumbered module_rows 0 1 c.modules
    × (c.lessons ≡ lesson_row 2 2 "b" 1 ∷ [])
delete_module_rows-IsNumbered_example =
    delete_module_rows-IsNumbered 1 2 (module_row 1 1) two_modules refl two_modules-AreModules

delete_lesson_rows-IsNumbered_example :
    (c : Content) × (delete_lesson_rows "a" two_modules ≡ committed tt c)
    × IsNumbered lesson_rows 1 0 c.lessons
    × (c.modules ≡ two_modules.modules)
delete_lesson_rows-IsNumbered_example =
    delete_lesson_rows-IsNumbered "a" 1 (lesson_row 1 1 "a" 1) two_modules refl
      two_modules-AreLessons

abbrev third : ModuleInput
third = record { title = "t"; description = ""; estimated_minutes = 1 }

create_module_rows-IsNumbered_example :
    (c : Content) × (create_module_rows third two_modules ≡ committed tt c)
    × IsNumbered module_rows 0 3 c.modules
    × (c.lessons ≡ two_modules.lessons)
create_module_rows-IsNumbered_example =
    create_module_rows-IsNumbered third 2 two_modules two_modules-AreModules

close_gap-renumbers_example :
    close_gap module_rows 0 1 (module_row 2 2 ∷ []) ≡ committed tt (module_row 2 1 ∷ [])
close_gap-renumbers_example =
    close_gap-renumbers module_rows module_laws 0 1 (module_row 2 2 ∷ []) refl (λ i. ground arith)
      ((omega arith, refl), tt)

abbrev third_lesson : LessonInput
third_lesson = record {
  content_id = "c";
  title = "t";
  content = none;
  estimated_minutes = 1;
  objectives = none;
  activity = record { type_name = "read"; prompt = ""; completion_type = "manual" };
}

create_lesson_rows-IsNumbered_example :
    (c : Content) × (create_lesson_rows 1 "{}" third_lesson two_modules ≡ committed tt c)
    × IsNumbered lesson_rows 1 2 c.lessons
    × (c.modules ≡ two_modules.modules)
create_lesson_rows-IsNumbered_example =
    create_lesson_rows-IsNumbered 1 "{}" third_lesson 1 (module_row 1 1) two_modules refl refl
      two_modules-AreLessons
