-- ===== src/Drafts/Tests.antt =====
-- A draft is copied and published in a small catalogue, and the theorems there.
use aivirteach_server.Common.{
  is_some, ℕ, ◌≤◌, refl, true, none, some, String, [], ◌∷◌, arith, count_rows, inl,
}
use aivirteach_server.Database.{Database}
use aivirteach_server.Process.Contract.{Reaches, Step}
use aivirteach_server.Process.Drive.{drive, drive-Reaches}
use aivirteach_server.Drafts.{
  DraftVersion, DraftLesson, DraftModule, DraftDatabase, DraftRequest, DraftReply, DraftTask,
  is_draft_of,
}
use aivirteach_server.Drafts.Create.{no_source}
use aivirteach_server.Drafts.System.{DraftEnv, handler, creates_draft, Starts, Moves}
use aivirteach_server.Drafts.Single.{IsSingle, IsIn}
use aivirteach_server.Drafts.Single.Stays.{single_contract}
use aivirteach_server.Drafts.Single.System.{runs_keep_single, runs_keep_published}
use aivirteach_server.Common.{map, str_eq, All, List, ◌≡◌}
use aivirteach_server.Process.{attempt, query, transaction}
use aivirteach_server.Drafts.{include_modules, latest, record_event}
use aivirteach_server.Drafts.Course.{copy_version, create_version, copy_draft, create_draft}
use aivirteach_server.Drafts.Content.Reorder.{all_distinct}
use aivirteach_server.Drafts.Copy.{strip, include_modules-copy_version}
use aivirteach_server.Drafts.Publish.{published_columns, lesson_order}
use aivirteach_server.Drafts.Publish.Issues.{collect_draft_publish_issues}
use aivirteach_server.Drafts.Publish.Valid.{
  IsInOrder, AreLaid, collect_draft_publish_issues-IsInOrder,
}
use aivirteach_server.Process.{committed, after}
use aivirteach_server.Learning.Dict.{lookup, assign}
use aivirteach_server.Publishing.{remap_removed_lessons, remap_lessons}
use aivirteach_server.Enrollments.Pointers.{remap_published_reading_pointers, remap_each}
use aivirteach_server.Drafts.Publish.{PublishReads, stamp, issues_of, publish_rows}
use aivirteach_server.Drafts.Publish.Answers.{publish_rows-published}

abbrev no_learners : Database
no_learners = record {
  now = 0;
  next_id = 0;
  courses = [];
  enrollments = [];
  workspaces = [];
  provisions = [];
  snapshots = [];
  conversations = [];
  quota_ledger = [];
  activities = [];
  audit_events = [];
  background = [];
  broadcasts = [];
}

abbrev pub module_row : ℕ → ℕ → DraftModule
module_row id position = record {
  id = id;
  position = position;
  title = "m";
  description = "";
  estimated_minutes = 5;
}

abbrev pub lesson_row : ℕ → ℕ → String → ℕ → DraftLesson
lesson_row id module_id content_id position = record {
  id = id;
  module_id = module_id;
  content_id = content_id;
  position = position;
  title = "l";
  estimated_minutes = 5;
  objectives = [];
  source_range = none;
  content = some "{}";
  activity_type = "read";
  activity_prompt = "";
  activity_completion_type = "manual";
  assessment_ids = [];
  assessments = [];
}

abbrev pub first_version : DraftVersion
first_version = record {
  id = 2;
  course_id = 1;
  version = 1;
  published_at = some 5;
  source = no_source;
  meta = none;
  modules = module_row 1 1 ∷ module_row 2 2 ∷ [];
  lessons = lesson_row 1 1 "a" 1 ∷ lesson_row 2 2 "b" 1 ∷ [];
  welcome = none;
}

abbrev catalogue : DraftDatabase
catalogue = record {
  now = 10;
  next_id = 3;
  next_row = 3;
  courses =
      record {
        id = 1;
        slug = "c";
        published = true;
        cover_asset_id = none;
        lesson_count = 2;
        duration_minutes = 10;
        columns = [];
      }
      ∷ [];
  versions = first_version ∷ [];
  asset_ids = [];
  audit_events = [];
  learners = no_learners;
}

abbrev test_env : DraftEnv
test_env = record {
  is_object = λ s. true;
  byte_length = λ s. 2;
  validate = λ c ids. record { errors = []; warnings = [] };
  temporary = λ d l. "reorder";
  checks = record { errors = λ c ids. []; renderable = λ c. 1; is_meta = λ m. true };
}

catalogue-IsSingle : IsSingle catalogue
catalogue-IsSingle = record {
  ids = λ k. ground arith;
  fresh_id = λ k l. ground (arith, l);
  fresh_course = λ c n l. ground (arith, l);
  twin = λ c n. ground arith;
  tip = λ c n m d e. ground (arith, d, e);
  filled = λ c a b m x y l u. ground (arith, x, y, l, u);
}

abbrev nobody : (q : DraftRequest) → DraftReply q
nobody q = tt

unfoldable copied : DraftDatabase × DraftTask (Unit {0})
copied = drive nobody 20 catalogue (handler test_env (creates_draft "c" "anna"))

copied_runs :
    Reaches single_contract
      (Starts test_env)
      Moves
      (record { world = catalogue; running = [] })
      (record { world = copied.0; running = copied.1 ∷ [] })
unfolding copied
copied_runs =
    drive-Reaches nobody single_contract (Starts test_env) Moves (λ q. tt) 20 catalogue
      (handler test_env (creates_draft "c" "anna")) []
      (Reaches.next Reaches.here (
        Step.start (handler test_env (creates_draft "c" "anna")) (creates_draft "c" "anna", refl)
          refl))

runs_keep_single_example : count_rows (is_draft_of 1) copied.0.versions ≤ 1
runs_keep_single_example =
    runs_keep_single test_env catalogue (record { world = copied.0; running = copied.1 ∷ [] })
      catalogue-IsSingle copied_runs 1

runs_keep_published_example : IsIn first_version copied.0.versions
runs_keep_published_example =
    runs_keep_published test_env catalogue (record { world = copied.0; running = copied.1 ∷ [] })
      catalogue-IsSingle copied_runs first_version refl (inl refl)

-- The copy is a draft of the course's next version, beside the version that was published.
copied_drafts : count_rows (is_draft_of 1) copied.0.versions ≡ 1
unfolding copied drive handler create_draft copy_draft create_version copy_version record_event
    latest transaction query attempt
copied_drafts = refl

include_modules-copy_version_example :
    map strip (include_modules (copy_version 9 10 first_version))
    ≡ map strip (include_modules first_version)
include_modules-copy_version_example = include_modules-copy_version 9 10 first_version

no_issues : collect_draft_publish_issues test_env.checks [] none true first_version ≡ []
unfolding collect_draft_publish_issues include_modules
no_issues = refl

collect_draft_publish_issues-IsInOrder_example :
    IsInOrder
      (λ (m : DraftModule × List DraftLesson). m.0.position)
      0
      (include_modules first_version)
    × All (AreLaid test_env.checks []) (include_modules first_version)
    × (all_distinct str_eq (lesson_order first_version) ≡ true)
collect_draft_publish_issues-IsInOrder_example =
    collect_draft_publish_issues-IsInOrder test_env.checks [] none true first_version no_issues

-- the draft of a second version beside the first
abbrev second_draft : DraftVersion
second_draft = record first_version { id = 3; version = 2; published_at = none }

abbrev with_draft : DraftDatabase
with_draft = record catalogue { next_id = 4; versions = second_draft ∷ first_version ∷ [] }

abbrev reads : PublishReads
reads = record {
  course = record {
    id = 1;
    slug = "c";
    published = true;
    cover_asset_id = none;
    lesson_count = 2;
    duration_minutes = 10;
    columns = [];
  };
  draft_id = 3;
  asset_ids = [];
  previous = some first_version;
}

published_now :
    publish_rows test_env.checks "anna" reads with_draft
    ≡ committed
        (stamp 10 second_draft)
        (after with_draft (publish_rows test_env.checks "anna" reads with_draft))
unfolding published_columns publish_rows issues_of collect_draft_publish_issues include_modules
    lesson_order remap_published_reading_pointers remap_removed_lessons remap_lessons lookup assign
    remap_each record_event
published_now = refl

publish_rows-published_example : is_some (stamp 10 second_draft).published_at ≡ true
publish_rows-published_example =
    publish_rows-published test_env.checks "anna" reads with_draft
      (after with_draft (publish_rows test_env.checks "anna" reads with_draft))
      (stamp 10 second_draft) published_now
