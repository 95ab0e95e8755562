-- ===== src/Drafts/Content/Assessment.antt =====
-- admin/draft/draft-content.service.ts: the assessments of a lesson.
use aivirteach_server.Common.{
  ℕ, suc, Bool, String, Option, List, ◌∷◌, if◌then◌else◌, ◌==◌, or_default, any, map, update_rows,
}
use aivirteach_server.Process.{committed, aborted, not_found}
use aivirteach_server.Drafts.{
  LessonAssessment, DraftLesson, DraftVersion, create_assessment_action, update_assessment_action,
  DraftTask, then_do,
}
use aivirteach_server.Drafts.Placed.{update_row}
use aivirteach_server.Drafts.Content.{ContentWrite, lesson_rows, in_lessons, edit_draft}
use aivirteach_server.Drafts.Content.Lesson.{find_lesson_row}

pub record AssessmentInput : Type 0 where
  pub type_name : String
  pub question : String
  pub options : List String
  pub client_criteria : List String
  pub expected_result : Option String
  pub success_criteria : List String
  pub common_failures : List String

abbrev pub add_assessment : ℕ → AssessmentInput → DraftLesson → DraftLesson
add_assessment id input l = record l {
  assessments =
      record {
        id = id;
        type_name = input.type_name;
        question = input.question;
        options = input.options;
        client_criteria = input.client_criteria;
        expected_result = input.expected_result;
        success_criteria = input.success_criteria;
        common_failures = input.common_failures;
      }
      ∷ l.assessments;
}

unfoldable pub create_assessment_rows : String → AssessmentInput → ContentWrite (Unit {0})
create_assessment_rows content_id input = then_do (find_lesson_row content_id) (λ l c.
    in_lessons (update_row lesson_rows l.id (add_assessment c.next_row input))
      (record c { next_row = suc c.next_row }))

-- `expected_result` is `some none` where the patch sets it to null.
pub record AssessmentPatch : Type 0 where
  pub type_name : Option String
  pub question : Option String
  pub options : Option (List String)
  pub client_criteria : Option (List String)
  pub expected_result : Option (Option String)
  pub success_criteria : Option (List String)
  pub common_failures : Option (List String)

abbrev pub patch_assessment : AssessmentPatch → LessonAssessment → LessonAssessment
patch_assessment p a = record a {
  type_name = or_default p.type_name a.type_name;
  question = or_default p.question a.question;
  options = or_default p.options a.options;
  client_criteria = or_default p.client_criteria a.client_criteria;
  expected_result = or_default p.expected_result a.expected_result;
  success_criteria = or_default p.success_criteria a.success_criteria;
  common_failures = or_default p.common_failures a.common_failures;
}

abbrev pub is_assessment : ℕ → LessonAssessment → Bool
is_assessment id a = a.id == id

-- updateMany, and the exception when it counts no row
unfoldable pub update_assessment_rows : ℕ → AssessmentPatch → ContentWrite (Unit {0})
update_assessment_rows id p c =
    if any (λ (l : DraftLesson). any (is_assessment id) l.assessments) c.lessons
    then committed tt (record c {
      lessons =
          map
            (λ (l : DraftLesson). record l {
              assessments = update_rows (is_assessment id) (patch_assessment p) l.assessments;
            })
            c.lessons;
    })
    else aborted not_found

unfoldable pub create_assessment :
    String → String → AssessmentInput → String → DraftTask DraftVersion
create_assessment slug content_id input operator =
    edit_draft create_assessment_action slug (create_assessment_rows content_id input) operator

unfoldable pub update_assessment : String → ℕ → AssessmentPatch → String → DraftTask DraftVersion
update_assessment slug id p operator =
    edit_draft update_assessment_action slug (update_assessment_rows id p) operator
