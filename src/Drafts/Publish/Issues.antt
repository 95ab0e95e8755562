-- ===== src/Drafts/Publish/Issues.antt =====
-- admin/publish-validation.ts: what keeps a draft from being published.
use aivirteach_server.Common.{
  ℕ, suc, ◌+◌, Bool, true, false, ◌&&◌, not, String, Option, none, some, List, [], ◌∷◌, ◌++◌, ◌==◌,
  ltb, str_eq, all, includes,
}
use aivirteach_server.Drafts.{
  DraftLesson, DraftModule, CourseWelcome, CourseMeta, DraftVersion, include_modules,
}

pub data PublishIssue : Type 0 where
  no_module cover_not_of_course overview_not_of_course no_lesson invalid_meta : PublishIssue
  module_position empty_module : ℕ → PublishIssue
  lesson_position duplicate_lesson not_renderable : ℕ → String → PublishIssue
  invalid_block : ℕ → String → String → PublishIssue

abbrev pub when : Bool → PublishIssue → List PublishIssue
when true i = i ∷ []
when false i = []

-- `id && !ids.has(id)`
abbrev pub is_foreign : Option String → List String → Bool
is_foreign none ids = false
is_foreign (some id) ids = not (str_eq id "") && not (includes id ids)

abbrev pub overview_of : Option CourseWelcome → Option String
overview_of none = none
overview_of (some c) = c.overview_asset_id

abbrev pub is_empty : {A : Type 0} → List A → Bool
is_empty [] = true
is_empty (x ∷ xs) = false

abbrev pub block_issues : ℕ → String → List String → List PublishIssue
block_issues module_id content_id [] = []
block_issues module_id content_id (e ∷ es) =
    invalid_block module_id content_id e ∷ block_issues module_id content_id es

-- the content ids seen after a module
abbrev pub seen_after : List String → List DraftLesson → List String
seen_after seen [] = seen
seen_after seen (l ∷ ls) = seen_after (l.content_id ∷ seen) ls

-- `errors` are those of validateLessonContent, `renderable` is countRenderableBlocks, `is_meta` the
-- schema of the metadata.
pub record PublishChecks : Type 0 where
  pub errors : Option String → List String → List String
  pub renderable : Option String → ℕ
  pub is_meta : CourseMeta → Bool

module _ (checks : PublishChecks) (asset_ids : List String) where
  abbrev pub lesson_issues : ℕ → ℕ → List String → DraftLesson → List PublishIssue
  lesson_issues module_id index seen l =
      when (not (l.position == index + 1)) (lesson_position module_id l.content_id)
      ++ when (includes l.content_id seen) (duplicate_lesson module_id l.content_id)
      ++ block_issues module_id l.content_id (checks.errors l.content asset_ids)
      ++ when (ltb (checks.renderable l.content) 1) (not_renderable module_id l.content_id)

  -- `lessons.forEach`, with the content ids seen before
  abbrev pub lessons_issues : ℕ → ℕ → List String → List DraftLesson → List PublishIssue
  lessons_issues module_id index seen [] = []
  lessons_issues module_id index seen (l ∷ ls) =
      lesson_issues module_id index seen l
      ++ lessons_issues module_id (suc index) (l.content_id ∷ seen) ls

  -- `modules.forEach`
  abbrev pub modules_issues :
      Bool → ℕ → List String → List (DraftModule × List DraftLesson) → List PublishIssue
  modules_issues is_first index seen [] = []
  modules_issues is_first index seen ((m, ls) ∷ ms) =
      when (not (m.position == index + 1)) (module_position m.id)
      ++ when (is_first && is_empty ls) (empty_module m.id)
      ++ lessons_issues m.id 0 seen ls
      ++ modules_issues is_first (suc index) (seen_after seen ls) ms

  abbrev pub meta_issues : Option CourseMeta → List PublishIssue
  meta_issues none = []
  meta_issues (some meta) = when (not (is_empty meta) && not (checks.is_meta meta)) invalid_meta

  unfoldable pub collect_draft_publish_issues :
      Option String → Bool → DraftVersion → List PublishIssue
  collect_draft_publish_issues cover is_first draft =
      let modules = include_modules draft in
      when (is_first && is_empty modules) no_module
      ++ when (is_foreign cover asset_ids) cover_not_of_course
      ++ when (is_foreign (overview_of draft.welcome) asset_ids) overview_not_of_course
      ++ when (all (λ (m : DraftModule × List DraftLesson). is_empty m.1) modules && not is_first)
          no_lesson
      ++ modules_issues is_first 0 [] modules
      ++ meta_issues draft.meta
