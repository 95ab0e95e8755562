-- ===== src/Drafts/Single/Calls.antt =====
-- Each call on drafts keeps them single and keeps what is published, whatever runs in between.
use aivirteach_server.Common.{
  ℕ, suc, refl, Bool, false, ◌||◌, not, String, Option, none, some, List, [], ◌∷◌, arith, str_eq,
  ltb, any, is_some, Bool-cases, inl, inr,
}
use aivirteach_server.Process.{committed, bad_request, pure, fail}
use aivirteach_server.Process.Steady.{Steady-attempt, Steady-if}
use aivirteach_server.Drafts.{
  DraftVersion, DraftCourse, DraftDatabase, DraftTask, DraftTransaction, create_course_action,
  create_lesson_action, update_lesson_action, then_do,
}
use aivirteach_server.Drafts.Course.{discard, discard_draft, create_version, is_unique_violation}
use aivirteach_server.Drafts.Create.{first_draft, create_course_rows, slug_taken, create_course}
use aivirteach_server.Drafts.Content.{ContentWrite, mutate, edit_draft}
use aivirteach_server.Drafts.Publish.{
  PublishReads, publish_rows, publish_latest, publish, issues_of,
}
use aivirteach_server.Drafts.Publish.Issues.{PublishChecks, is_empty}
use aivirteach_server.Drafts.System.{forget}
use aivirteach_server.Drafts.Single.{IsSingle, published_stays}
use aivirteach_server.Drafts.Single.Creation.{create_version-Keeps}
use aivirteach_server.Drafts.Single.Transactions.{
  Keeps-none, after-Keeps, elsewhere-Keeps, KeepsAll, continue-Keeps, record_event-Keeps,
  discard-Keeps,
}
use aivirteach_server.Drafts.Single.Writes.{mutate-Keeps, publish_rows-Keeps}
use aivirteach_server.Drafts.Single.Stays.{
  single_contract, Stays, transaction-Stays, bind-Stays, ask-Stays, need-Stays,
  require_draft_ref-Stays, edit-Stays,
}
use aivirteach_server.Drafts.Content.Lesson.{
  LessonInput, LessonPatch, ValidationReport, create_lesson_rows, update_lesson_rows,
  assert_writable_content, refused, checked_content, create_lesson, update_lesson,
}

pub forget-Stays :
    {A : Type 0} (m : DraftTask A) (v : DraftDatabase) → Stays v m → Stays v (forget m)
forget-Stays m v s = bind-Stays v m (λ a. pure tt) s (λ w a g. tt)

pub discard_draft-Stays :
    (slug operator : String) (v : DraftDatabase) → Stays v (discard_draft slug operator)
unfolding discard_draft
discard_draft-Stays slug operator v = ask-Stays v _ _ (λ w found.
    need-Stays w _ found _ (λ u course l. ask-Stays u _ _ (λ x published.
      need-Stays x _ published _ (λ y p m.
        edit-Stays slug (λ draft. discard slug operator draft.id) y
          (λ draft. discard-Keeps slug operator draft.id)))))

create_course_rows-Keeps : (slug title : String) → KeepsAll (create_course_rows slug title)
unfolding create_course_rows
create_course_rows-Keeps slug title w i =
    elim (Bool-cases (any (λ (c : DraftCourse). str_eq c.slug slug) w.courses)) [
      | inl t ↦ rw t (Keeps-none w i)
      | inr f ↦ rw f (
          after-Keeps w added (then_do row (λ created. committed (w.next_id, created)) added) i
            (λ r p h. h)
            (continue-Keeps (λ created. committed (w.next_id, created))
              (λ created u j. Keeps-none u j) added (row added) added-IsSingle
              (create_version-Keeps (first_draft (suc w.next_id) w.next_id) (suc (suc w.next_id))
                w.next_row added added-IsSingle refl (omega arith) (omega arith) (omega arith)
                (inr (omega arith)))))
    ]
  where
    added : DraftDatabase
    added = record w {
      courses =
          record {
            id = w.next_id;
            slug = slug;
            published = false;
            cover_asset_id = none;
            lesson_count = 0;
            duration_minutes = 0;
            columns = ("title", title) ∷ [];
          }
          ∷ w.courses;
    }

    row : DraftTransaction DraftVersion
    row = create_version (first_draft (suc w.next_id) w.next_id) (suc (suc w.next_id)) w.next_row

    added-IsSingle : IsSingle added
    added-IsSingle = (elsewhere-Keeps w added refl (omega arith) i).0

pub create_course-Stays :
    (slug title operator : String) (v : DraftDatabase) → Stays v (create_course slug title operator)
unfolding create_course
create_course-Stays slug title operator v =
    bind-Stays v _ _
      (Steady-attempt single_contract published_stays v _ pure slug_taken
        (transaction-Stays (create_course_rows slug title) v (create_course_rows-Keeps slug title))
        (λ w a g. tt)
        (λ w e g. Steady-if single_contract published_stays w (is_unique_violation e) _ _ tt tt))
      (λ w created g.
        bind-Stays w _ _
          (transaction-Stays _ w (record_event-Keeps create_course_action operator slug created.0))
          (λ x u l. tt))

module _ (checks : PublishChecks) (slug operator : String) where
  pub publish_latest-Stays :
      (course : DraftCourse) (newest : DraftVersion) (v : DraftDatabase)
      → Stays v (publish_latest checks slug operator course newest)
  publish_latest-Stays course newest v =
      Steady-if single_contract published_stays v (is_some newest.published_at) _ _ tt (
        bind-Stays v _ _ (require_draft_ref-Stays slug v) (λ w draft g. ask-Stays w _ _ (λ x assets.
          ask-Stays x _ _ (λ y previous.
            let reads : PublishReads = record {
              course = course;
              draft_id = draft.id;
              asset_ids = assets;
              previous = previous;
            } in
            Steady-if single_contract published_stays y (is_empty (issues_of checks reads draft)) _
              _
              (transaction-Stays (publish_rows checks operator reads) y
                (publish_rows-Keeps checks operator reads))
              tt))))

  pub publish-Stays : (v : DraftDatabase) → Stays v (publish checks slug operator)
  unfolding publish
  publish-Stays v = ask-Stays v _ _ (λ w found. need-Stays w _ found _ (λ u course l.
      ask-Stays u _ _ (λ x newest.
        need-Stays x _ newest _
          (λ y latest_version m. publish_latest-Stays course latest_version y))))

pub edit_draft-Stays :
    (action : _) (slug : String) (t : ContentWrite (Unit {0})) (operator : String)
    (v : DraftDatabase)
    → Stays v (forget (edit_draft action slug t operator))
unfolding edit_draft
edit_draft-Stays action slug t operator v = forget-Stays (edit_draft action slug t operator) v (
    edit-Stays slug (λ draft. mutate action slug operator draft.id t) v
      (λ draft. mutate-Keeps draft.id t action slug operator))

refused-Stays : (v : DraftDatabase) (es : List String) → Stays v (refused es)
refused-Stays v [] = tt
refused-Stays v (e ∷ es) = tt

module _ (is_object : String → Bool) (byte_length : String → ℕ)
    (validate : Option String → List String → ValidationReport) (slug operator : String) where
  writable-Stays :
      (v : DraftDatabase) (content : String)
      → Stays v (assert_writable_content is_object byte_length validate content)
  unfolding assert_writable_content
  writable-Stays v content =
      Steady-if single_contract published_stays v
        (not (is_object content) || ltb 262144 (byte_length content)) (fail bad_request) (pure tt)
        tt tt

  pub create_lesson-Stays :
      (module_id : ℕ) (input : LessonInput) (v : DraftDatabase)
      → Stays v (create_lesson is_object byte_length validate slug module_id input operator)
  unfolding create_lesson
  create_lesson-Stays module_id input v = bind-Stays v _ _ (writable-Stays v _) (λ w u g.
      bind-Stays w _ _ (require_draft_ref-Stays slug w) (λ x draft l. ask-Stays x _ _ (λ y assets.
        bind-Stays y _ _ (refused-Stays y _) (λ z u m.
          bind-Stays z _ _
            (transaction-Stays _ z (
              mutate-Keeps draft.id (create_lesson_rows module_id _ input) create_lesson_action slug
                operator))
            (λ a updated n. tt)))))

  pub update_lesson-Stays :
      (content_id : String) (patch : LessonPatch) (v : DraftDatabase)
      → Stays v (update_lesson is_object byte_length validate slug content_id patch operator)
  unfolding update_lesson
  update_lesson-Stays content_id patch v =
      bind-Stays v _ _ (require_draft_ref-Stays slug v) (λ w draft g.
        bind-Stays w _ _ (checked w draft.course_id patch.content) (λ x problems l.
          bind-Stays x _ _
            (transaction-Stays _ x (
              mutate-Keeps draft.id (update_lesson_rows content_id patch) update_lesson_action slug
                operator))
            (λ a updated n. tt)))
    where
      checked :
          (w : DraftDatabase) (course_id : ℕ) (content : Option String)
          → Stays w (checked_content is_object byte_length validate course_id content)
      checked w course_id none = tt
      checked w course_id (some content) = bind-Stays w _ _ (writable-Stays w content) (λ x u g.
          ask-Stays x _ _ (λ y assets. bind-Stays y _ _ (refused-Stays y _) (λ z u m. tt)))
