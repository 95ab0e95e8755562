-- ===== src/Drafts/Create.antt =====
-- admin/draft/course-create.service.ts: a new course with its first draft.
use aivirteach_server.Common.{
  ℕ, suc, false, String, none, some, [], ◌∷◌, if◌then◌else◌, str_eq, any,
}
use aivirteach_server.Process.{
  HttpError, committed, aborted, conflict, unique_violation, pure, fail, attempt, ◌>>=◌, ◌>>◌,
  transaction,
}
use aivirteach_server.Drafts.{
  DraftVersion, DraftCourse, create_course_action, DraftTask, DraftTransaction, then_do,
  record_event, Source,
}
use aivirteach_server.Drafts.Course.{create_version, is_unique_violation, empty_welcome}

abbrev pub no_source : Source
no_source = record {
  image_digest = none;
  source_format = none;
  source_path = none;
  source_encoding = none;
  intro_source_range = none;
  intro_featured_asset_ids = [];
}

abbrev pub first_draft : ℕ → ℕ → DraftVersion
first_draft id course_id = record {
  id = id;
  course_id = course_id;
  version = 1;
  published_at = none;
  source = no_source;
  meta = none;
  modules = [];
  lessons = [];
  welcome = some empty_welcome;
}

-- course.create, under the unique index on the slug, and the first draft
unfoldable pub create_course_rows : String → String → DraftTransaction (ℕ × DraftVersion)
create_course_rows slug title w =
    if any (λ (c : DraftCourse). str_eq c.slug slug) w.courses
    then aborted unique_violation
    else (then_do
        (create_version (first_draft (suc w.next_id) w.next_id) (suc (suc w.next_id)) w.next_row)
        (λ created. committed (w.next_id, created))
        (record w {
          courses =
              record {
                id = w.next_id;
                slug = slug;
                published = false;
                cover_asset_id = none;
                lesson_count = 0;
                duration_minutes = 0;
                columns = ("title", title) ∷ [];
              }
              ∷ w.courses;
        }))

abbrev pub slug_taken : HttpError → DraftTask (ℕ × DraftVersion)
slug_taken e = if is_unique_violation e then fail conflict else fail e

unfoldable pub create_course : String → String → String → DraftTask DraftVersion
create_course slug title operator = do
  created ← attempt (transaction (create_course_rows slug title)) pure slug_taken
  transaction (record_event create_course_action operator created.0 slug)
  pure created.1
