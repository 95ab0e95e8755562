-- ===== src/Chat/Prepare.antt =====
-- chat/chat.service.ts: `prepareMessage` with `buildDiagnoseContext`, and `getMessages`.
use aivirteach_server.Common.{
  ℕ, suc, Bool, true, false, ◌&&◌, not, String, Option, none, some, List, [], ◌∷◌, ◌++◌, map,
  if◌then◌else◌, ◌==◌, leb, str_eq, is_some, find_first, order_rows, keep, trim, split_lines,
  nonempty,
}
use aivirteach_server.Process.{not_found, conflict, transaction, pure, ◌>>=◌ as await}
use aivirteach_server.Learning.View.{CourseModule, Lesson, Assessment}
use aivirteach_server.Database.{
  Transaction, ◌>>=◌, ◌>>◌, return, read, is_status, update_workspaces,
}
use aivirteach_server.Database.Rows.{
  Course, CourseVersion, Enrollment, Conversation, ConversationRole, DiagnoseContext, StepContext,
  Workspace, LabId, running,
}
use aivirteach_server.Enrollments.{latest_published, or_abort, ensure}
use aivirteach_server.Chat.{
  ChatContext, SendChatMessageInput, ChatMessage, ChatTask, ResolvedDiagnoseRequest, resolved,
  unresolved, AcceptedChat, assert_current_enrollment, require_owned_enrollment, is_message,
  has_generation, create_conversation, to_chat_message,
}

-- `modules.flatMap((m) => m.lessons.map((l) => ({ lesson: l, courseModule: m })))`
abbrev pairs_of : CourseModule → List Lesson → List (Lesson × CourseModule)
pairs_of m [] = []
pairs_of m (l ∷ ls) = (l, m) ∷ pairs_of m ls

unfoldable pub flattened_lessons : List CourseModule → List (Lesson × CourseModule)
flattened_lessons [] = []
flattened_lessons (m ∷ ms) = pairs_of m m.lessons ++ flattened_lessons ms

abbrev pub is_lesson : String → Lesson × CourseModule → Bool
is_lesson lesson_id p = str_eq p.0.content_id lesson_id

-- `findIndex`, counted from one, and what is there
unfoldable pub find_index :
    ℕ → String → List (Lesson × CourseModule) → Option (ℕ × (Lesson × CourseModule))
find_index n id [] = none
find_index n id (p ∷ ps) =
    let rest = find_index (suc n) id ps in if is_lesson id p then some (n, p) else rest

-- `filter(...).length !== 1` is an error
abbrev pub is_single : List (Lesson × CourseModule) → Bool
is_single [] = false
is_single (p ∷ ps) = elim ps [ [] ↦ true | q ∷ qs ↦ false ]

abbrev pub has_version : ℕ → Course → Option CourseVersion → Bool
has_version id course none = false
has_version id course (some v) = course.published && v.id == id

abbrev first_assessment : List Assessment → Option Assessment
first_assessment [] = none
first_assessment (a ∷ more) = some a

abbrev step_context : ℕ → Lesson → CourseModule → Option Assessment → StepContext
step_context sequence lesson module_row assessment = record {
  module_id = module_row.id;
  lesson_id = lesson.content_id;
  sequence = sequence;
  title = lesson.title;
  instructions = nonempty (map trim (split_lines lesson.activity_prompt));
  expected_result = elim assessment [ none ↦ "" | some a ↦ a.expected_result ];
  success_criteria = elim assessment [ none ↦ [] | some a ↦ a.success_criteria ];
  common_failures =
      map (λ (s : String). record { code = s; symptoms = [] })
        (elim assessment [ none ↦ [] | some a ↦ a.common_failures ]);
}

-- The lesson is read again, by its id in its module of the version.
abbrev pub lesson_row :
    Lesson × CourseModule → List (Lesson × CourseModule) → Option (Lesson × CourseModule)
lesson_row p = find_first (λ (q : Lesson × CourseModule). q.0.id == p.0.id && q.1.id == p.1.id)

unfoldable pub build_diagnose_context : ℕ → ChatContext → Transaction DiagnoseContext
build_diagnose_context course_id reference = do
  found ← read (λ w. find_first (λ (c : Course). c.id == course_id) w.courses)
  course ← or_abort conflict found
  let latest = latest_published course.versions
  ensure (has_version reference.course_version_id course latest) conflict
  version ← or_abort conflict latest
  let flattened = flattened_lessons version.modules
  place ← or_abort not_found (find_index 1 reference.lesson_id flattened)
  ensure (is_single (keep (is_lesson reference.lesson_id) flattened)) not_found
  row ← or_abort not_found (lesson_row place.1 flattened)
  return (record {
    course = record {
      course_id = course.slug;
      version = version.version;
      title = course.title;
      summary = course.description;
    };
    current_step = step_context place.0 place.1.0 place.1.1 (first_assessment row.0.assessments);
  })

abbrev start_first : String
start_first = "请先启动虚拟机后再提问。"

abbrev pub resolve_at :
    ℕ → DiagnoseContext → Option LabId → Bool → Transaction ResolvedDiagnoseRequest
resolve_at enrollment_id context none up = return (unresolved start_first)
resolve_at enrollment_id context (some lab_id) false = return (unresolved start_first)
resolve_at enrollment_id context (some lab_id) true = do
  update_workspaces (λ (s : Workspace). s.enrollment_id == enrollment_id)
      (λ now s. record s { last_seen_at = some now })
  return (resolved lab_id context)

-- The VM that the agent may look into: `!workspace?.labId || status !== RUNNING` has none.
abbrev pub resolve_workspace :
    ℕ → DiagnoseContext → Option Workspace → Transaction ResolvedDiagnoseRequest
resolve_workspace enrollment_id context none = return (unresolved start_first)
resolve_workspace enrollment_id context (some r) =
    resolve_at enrollment_id context r.lab_id (is_status running r)

abbrev pub student_row : ℕ → SendChatMessageInput → DiagnoseContext → ℕ → ℕ → Conversation
student_row enrollment_id command context id now = record {
  id = id;
  enrollment_id = enrollment_id;
  thread_id = enrollment_id;
  role = ConversationRole.user;
  content = command.text;
  request_id = some command.request_id;
  generation = some command.context.generation;
  course_version_id = some command.context.course_version_id;
  lesson_content_id = some command.context.lesson_id;
  context_ref = none;
  accepted_context = some context;
  usage = none;
  created_at = now;
}

abbrev pub is_question : ℕ → SendChatMessageInput → Conversation → Bool
is_question enrollment_id command =
    is_message enrollment_id command.context.generation command.request_id ConversationRole.user

-- The transaction of `prepareMessage`.
unfoldable pub accept_message : ℕ → Enrollment → SendChatMessageInput → Transaction AcceptedChat
accept_message user_id owned command = do
  assert_current_enrollment owned.id command.context.generation
  duplicate ← read (λ w. find_first (is_question owned.id command) w.conversations)
  ensure (not (is_some duplicate)) conflict
  context ← build_diagnose_context owned.course_id command.context
  row ← read (λ w. find_first (λ (r : Workspace). r.enrollment_id == owned.id) w.workspaces)
  request ← resolve_workspace owned.id context row
  student ← create_conversation (student_row owned.id command context)
  return (record {
    user_id = user_id;
    enrollment_id = owned.id;
    command = command;
    student_row = student;
    request = request;
  })

unfoldable pub prepare_message : ℕ → ℕ → SendChatMessageInput → ChatTask AcceptedChat
prepare_message user_id enrollment_id command =
    await (require_owned_enrollment user_id enrollment_id)
      (λ owned. transaction (accept_message user_id owned command))

abbrev is_earlier : Conversation → Conversation → Bool
is_earlier a b = leb a.created_at b.created_at

abbrev pub is_of_generation : ℕ → ℕ → Conversation → Bool
is_of_generation enrollment_id generation c =
    c.enrollment_id == enrollment_id && has_generation generation c.generation

unfoldable pub read_messages : ℕ → ℕ → Transaction (List Conversation)
read_messages enrollment_id generation = do
  assert_current_enrollment enrollment_id generation
  read (λ w.
      order_rows is_earlier (keep (is_of_generation enrollment_id generation) w.conversations))

unfoldable pub get_messages : ℕ → ℕ → ℕ → ChatTask (List ChatMessage)
get_messages user_id enrollment_id generation =
    await (require_owned_enrollment user_id enrollment_id) (λ owned.
      await (transaction (read_messages enrollment_id generation))
        (λ rows. pure (map (to_chat_message user_id) rows)))
