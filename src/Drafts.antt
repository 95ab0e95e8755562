-- ===== src/Drafts.antt =====
-- The editing of courses: the tables that apps/api/src/admin/draft reads and writes, and the
-- statements that its services share. A version's modules and lessons are the rows of CourseModule
-- and CourseLesson that belong to it. The answers of zod are taken for granted.
pub mod Course
pub mod Create
pub mod Single
pub mod Copy
pub mod Placed
pub mod Content
pub mod Publish
pub mod System
mod Tests
use aivirteach_server.Common.{
  ℕ, suc, ◌+◌, ◌≡◌, Bool, true, false, ◌&&◌, not, String, Option, none, some, List, [], ◌∷◌,
  if◌then◌else◌, ◌==◌, leb, ltb, str_eq, is_some, any, keep, find_first, update_rows, delete_rows,
  order_rows,
}
use aivirteach_server.Database.{Database}
use aivirteach_server.Process.{
  HttpError, Outcome, committed, aborted, not_found, conflict, Process, pure, fail, ◌>>=◌, query,
}

pub record LessonAssessment : Type 0 where
  pub id : ℕ
  pub type_name : String
  pub question : String
  pub options : List String
  pub client_criteria : List String
  pub expected_result : Option String
  pub success_criteria : List String
  pub common_failures : List String

-- `content` and `source_range` are the texts of their JSON.
pub record DraftLesson : Type 0 where
  pub id : ℕ
  pub module_id : ℕ
  pub content_id : String
  pub position : ℕ
  pub title : String
  pub estimated_minutes : ℕ
  pub objectives : List String
  pub source_range : Option String
  pub content : Option String
  pub activity_type : String
  pub activity_prompt : String
  pub activity_completion_type : String
  pub assessment_ids : List String
  pub assessments : List LessonAssessment

pub record DraftModule : Type 0 where
  pub id : ℕ
  pub position : ℕ
  pub title : String
  pub description : String
  pub estimated_minutes : ℕ

pub record CourseWelcome : Type 0 where
  pub overview_asset_id : Option String
  pub overview_heading : Option String
  pub overview_paragraphs : List String
  pub how_it_works_steps : Option String
  pub final_outcome : Option String

-- where the version was ingested from
pub record Source : Type 0 where
  pub image_digest : Option String
  pub source_format : Option String
  pub source_path : Option String
  pub source_encoding : Option String
  pub intro_source_range : Option String
  pub intro_featured_asset_ids : List String

-- `meta`: the patched columns of the course by name, each as the text of its JSON
abbrev pub CourseMeta : Type 0
CourseMeta = List (String × String)

pub record DraftVersion : Type 0 where
  pub id : ℕ
  pub course_id : ℕ
  pub version : ℕ
  pub published_at : Option ℕ
  pub source : Source
  pub meta : Option CourseMeta
  pub modules : List DraftModule
  pub lessons : List DraftLesson
  pub welcome : Option CourseWelcome

-- `columns`: those that a patch can set, by name
pub record DraftCourse : Type 0 where
  pub id : ℕ
  pub slug : String
  pub published : Bool
  pub cover_asset_id : Option String
  pub lesson_count : ℕ
  pub duration_minutes : ℕ
  pub columns : CourseMeta

pub data DraftAction : Type 0 where
  create_action discard_action update_course_action update_welcome_action create_course_action
        create_module_action update_module_action delete_module_action create_lesson_action
        update_lesson_action delete_lesson_action reorder_action create_assessment_action
        update_assessment_action publish_action :
      DraftAction

pub record DraftEvent : Type 0 where
  pub operator : String
  pub action : DraftAction
  pub target_id : ℕ
  pub slug : String

-- `next_row`: the next id of a module, a lesson or an assessment; `learners`: the tables of the learners
pub record DraftDatabase : Type 0 where
  pub now : ℕ
  pub next_id : ℕ
  pub next_row : ℕ
  pub courses : List DraftCourse
  pub versions : List DraftVersion
  pub asset_ids : List (ℕ × String)
  pub audit_events : List DraftEvent
  pub learners : Database

-- The services ask nobody else.
pub data DraftRequest : Type 0 where

abbrev pub DraftReply : DraftRequest → Type 0
DraftReply q = Unit {0}

abbrev pub DraftTask : Type 0 → Type 0
DraftTask A = Process DraftDatabase DraftRequest DraftReply A

abbrev pub DraftTransaction : Type 0 → Type 0
DraftTransaction A = DraftDatabase → Outcome DraftDatabase A

module _ {W A B : Type 0} where
  abbrev pub continue : Outcome W A → (A → W → Outcome W B) → Outcome W B
  continue (committed a w) f = f a w
  continue (aborted e) f = aborted e

  -- one statement of a transaction after the other
  abbrev pub then_do : (W → Outcome W A) → (A → W → Outcome W B) → W → Outcome W B
  then_do t f w = continue (t w) f

abbrev pub has_id : ℕ → DraftVersion → Bool
has_id id v = v.id == id

-- `publishedAt: null`
abbrev pub is_draft : DraftVersion → Bool
is_draft v = not (is_some v.published_at)

abbrev pub is_open : ℕ → DraftVersion → Bool
is_open id v = has_id id v && is_draft v

abbrev pub find_course : String → DraftDatabase → Option DraftCourse
find_course slug w = find_first (λ (c : DraftCourse). str_eq c.slug slug) w.courses

-- `orderBy: { version: 'desc' }`, the first
abbrev pub later_version : DraftVersion → Option DraftVersion → Option DraftVersion
later_version v none = some v
later_version v (some u) = if ltb v.version u.version then some u else some v

unfoldable pub latest : (DraftVersion → Bool) → List DraftVersion → Option DraftVersion
latest p [] = none
latest p (v ∷ vs) = let rest = latest p vs in if p v then later_version v rest else rest

abbrev pub is_draft_of : ℕ → DraftVersion → Bool
is_draft_of course_id v = v.course_id == course_id && is_draft v

abbrev pub is_published_of : ℕ → DraftVersion → Bool
is_published_of course_id v = v.course_id == course_id && is_some v.published_at

-- `findDraft`, and the query of `requireDraftRef`
abbrev pub find_draft : ℕ → DraftDatabase → Option DraftVersion
find_draft course_id w = latest (is_draft_of course_id) w.versions

abbrev pub or_fail : {A : Type 0} → HttpError → Option A → DraftTask A
or_fail e none = fail e
or_fail e (some a) = pure a

unfoldable pub require_draft_ref : String → DraftTask DraftVersion
require_draft_ref slug = do
  found ← query (find_course slug)
  course ← or_fail not_found found
  draft ← query (find_draft course.id)
  or_fail not_found draft

-- `lockUnpublishedVersion` and `requireUnpublishedVersion`: the row lock is the transaction's
unfoldable pub require_unpublished_version : ℕ → DraftTransaction (Unit {0})
require_unpublished_version id w =
    if any (is_open id) w.versions then committed tt w else aborted conflict

unfoldable pub record_event : DraftAction → String → ℕ → String → DraftTransaction (Unit {0})
record_event action operator target_id slug w = committed tt (record w {
  audit_events =
      record { operator = operator; action = action; target_id = target_id; slug = slug }
      ∷ w.audit_events;
})

-- a change of the rows that belong to one version
unfoldable pub update_version : ℕ → (DraftVersion → DraftVersion) → DraftDatabase → DraftDatabase
update_version id f w = record w { versions = update_rows (has_id id) f w.versions }

abbrev pub is_module_before : DraftModule → DraftModule → Bool
is_module_before a b = leb a.position b.position

abbrev pub is_lesson_before : DraftLesson → DraftLesson → Bool
is_lesson_before a b = leb a.position b.position

abbrev pub lessons_of : ℕ → List DraftLesson → List DraftLesson
lessons_of module_id ls =
    order_rows is_lesson_before (keep (λ (l : DraftLesson). l.module_id == module_id) ls)

-- `DRAFT_INCLUDE`: the modules by position, each with its lessons by position
abbrev pub with_lessons :
    List DraftLesson → List DraftModule → List (DraftModule × List DraftLesson)
with_lessons ls [] = []
with_lessons ls (m ∷ ms) = (m, lessons_of m.id ls) ∷ with_lessons ls ms

unfoldable pub include_modules : DraftVersion → List (DraftModule × List DraftLesson)
include_modules v = with_lessons v.lessons (order_rows is_module_before v.modules)
