-- ===== src/Chat/Once.antt =====
-- chat.service.ts, `prepareMessage`: a question that comes again under its request id.
use aivirteach_server.Common.{
  ℕ, ◌≡◌, ◌∙◌, ◌⊎◌, inl, inr, any, false, Bool-cases, refl, ap, Bool, true, not, Option, none, some,
  List, [], ◌∷◌, arith, ◌==◌, eq_iff, is_some, keep, count_rows, update_rows, find_first,
}
use aivirteach_server.Process.{committed, aborted, conflict, not_found, stale_enrollment}
use aivirteach_server.Database.{Database, update_enrollments, update_workspaces, is_status}
use aivirteach_server.Database.Commits.{bind_commits, returned}
use aivirteach_server.Database.Rows.{
  Enrollment, Conversation, Workspace, DiagnoseContext, LabId, running, Course,
}
use aivirteach_server.Enrollments.{latest_published}
use aivirteach_server.Enrollments.Progress.Current.{or_abort_found, ensure_holds}
use aivirteach_server.Chat.{
  ChatContext, SendChatMessageInput, AcceptedChat, ResolvedDiagnoseRequest, is_current,
  assert_current_enrollment, create_conversation,
}
use aivirteach_server.Chat.Commits.{activate, locked_world, locked, created}
use aivirteach_server.Chat.Prepare.{
  flattened_lessons, is_lesson, find_index, is_single, has_version, lesson_row,
  build_diagnose_context, resolve_at, resolve_workspace, student_row, is_question, accept_message,
}

still_counted :
    (id generation : ℕ) (es : List Enrollment)
    → count_rows (is_current id generation) (update_rows (is_current id generation) activate es)
      ≡ count_rows (is_current id generation) es
still_counted id generation [] = refl
still_counted id generation (e ∷ es) = ground (arith, still_counted id generation es)

lockable :
    (id generation : ℕ) (v : Database)
    → (count_rows (is_current id generation) v.enrollments == 0) ≡ false
    → assert_current_enrollment id generation v ≡ committed tt (locked_world id generation v)
unfolding assert_current_enrollment update_enrollments
lockable id generation v t = rw t refl

-- A lock that was taken can be taken again as long as the enrollments are the same.
relock :
    (id generation : ℕ) (w u v : Database) (a : Unit {0})
    → assert_current_enrollment id generation w ≡ committed a u
    → v.enrollments ≡ u.enrollments
    → assert_current_enrollment id generation v ≡ committed tt (locked_world id generation v)
relock id generation w u v a h kept =
    let (counted, moved) = locked id generation w u a h in
    lockable id generation v (
      rw (kept ∙ ap (λ (x : Database). x.enrollments) moved)
        (rw (still_counted id generation w.enrollments) counted))

context_reads :
    (course_id : ℕ) (reference : ChatContext) (w v : Database) (c : DiagnoseContext)
    → build_diagnose_context course_id reference w ≡ committed c v
    → v ≡ w
unfolding build_diagnose_context
context_reads course_id reference w v c h =
    let (course, found, h) =
      or_abort_found conflict (find_first (λ (c : Course). c.id == course_id) w.courses) _ w v c
        h in
    let (t, h) =
      ensure_holds
        (has_version reference.course_version_id course (latest_published course.versions)) conflict
        _ w v c h in
    let (version, latest, h) =
      or_abort_found conflict (latest_published course.versions) _ w v c h in
    let (place, f, h) =
      or_abort_found not_found
        (find_index 1 reference.lesson_id (flattened_lessons version.modules)) _ w v c h in
    let (t, h) =
      ensure_holds
        (is_single (keep (is_lesson reference.lesson_id) (flattened_lessons version.modules)))
        not_found _ w v c h in
    let (row, f, h) =
      or_abort_found not_found (lesson_row place.1 (flattened_lessons version.modules)) _ w v c h in
    (returned _ c w v h).1

workspace_kept_at :
    (id : ℕ) (c : DiagnoseContext) (l : Option LabId) (b : Bool) (w v : Database)
    (d : ResolvedDiagnoseRequest)
    → resolve_at id c l b w ≡ committed d v
    → v.enrollments ≡ w.enrollments
unfolding update_workspaces
workspace_kept_at id c none b w v d h = ap (λ (x : Database). x.enrollments) (returned _ d w v h).1
workspace_kept_at id c (some l) false w v d h =
    ap (λ (x : Database). x.enrollments) (returned _ d w v h).1
workspace_kept_at id c (some l) true w v d h =
    ap (λ (x : Database). x.enrollments) (returned _ d _ v h).1

workspace_kept :
    (id : ℕ) (c : DiagnoseContext) (o : Option Workspace) (w v : Database)
    (d : ResolvedDiagnoseRequest)
    → resolve_workspace id c o w ≡ committed d v
    → v.enrollments ≡ w.enrollments
workspace_kept id c none w v d h = ap (λ (x : Database). x.enrollments) (returned _ d w v h).1
workspace_kept id c (some r) w v d h = workspace_kept_at id c r.lab_id (is_status running r) w v d h

-- The row of a question is found by its request.
question_found :
    (id : ℕ) (command : SendChatMessageInput) (c : DiagnoseContext) (n now : ℕ)
    → is_question id command (student_row id command c n now) ≡ true
question_found id command c n now = ground (arith, eq_iff command.request_id command.request_id)

question_stored :
    (id : ℕ) (command : SendChatMessageInput) (c : DiagnoseContext) (n now : ℕ)
    (cs rest : List Conversation)
    → cs ≡ student_row id command c n now ∷ rest
    → any (is_question id command) cs ≡ true
question_stored id command c n now cs rest h = rw h (rw (question_found id command c n now) refl)

any-found :
    (p : Conversation → Bool) (cs : List Conversation)
    → any p cs ≡ true
    → is_some (find_first p cs) ≡ true
any-found p [] h = cc
any-found p (c ∷ cs) h = ground (arith, any-found p cs)

refused :
    (user_id : ℕ) (owned : Enrollment) (command : SendChatMessageInput) (v : Database)
    → assert_current_enrollment owned.id command.context.generation v
      ≡ committed tt (locked_world owned.id command.context.generation v)
    → any (is_question owned.id command) v.conversations ≡ true
    → accept_message user_id owned command v ≡ aborted conflict
unfolding accept_message
refused user_id owned command v lock stored =
    rw lock (rw (any-found (is_question owned.id command) v.conversations stored) refl)

ended :
    (user_id : ℕ) (owned : Enrollment) (command : SendChatMessageInput) (u : Database)
    → (count_rows (is_current owned.id command.context.generation) u.enrollments == 0) ≡ true
    → accept_message user_id owned command u ≡ aborted stale_enrollment
unfolding accept_message assert_current_enrollment update_enrollments
ended user_id owned command u t = rw t refl

-- Where the question is stored, nothing is accepted under its request, in whatever world.
refused_or_stale :
    (user_id : ℕ) (owned : Enrollment) (command : SendChatMessageInput) (u : Database)
    → any (is_question owned.id command) u.conversations ≡ true
    → (accept_message user_id owned command u ≡ aborted conflict)
      ⊎ (accept_message user_id owned command u ≡ aborted stale_enrollment)
refused_or_stale user_id owned command u stored =
    let g = command.context.generation in
    elim (Bool-cases (count_rows (is_current owned.id g) u.enrollments == 0)) [
      | inl t ↦ inr (ended user_id owned command u t)
      | inr t ↦ inl (refused user_id owned command u (lockable owned.id g u t) stored)
    ]

-- A question that was accepted is stored, and the same request is refused as a conflict in the
-- world that the acceptance left. In any world where the question is still stored, the request is
-- refused, as a conflict or because its enrollment's generation has ended.
pub accept_message_once :
    (user_id : ℕ) (owned : Enrollment) (command : SendChatMessageInput) (w v u : Database)
    (chat : AcceptedChat)
    → accept_message user_id owned command w ≡ committed chat v
    → any (is_question owned.id command) u.conversations ≡ true
    → (any (is_question owned.id command) v.conversations ≡ true)
      × (accept_message user_id owned command v ≡ aborted conflict)
      × ((accept_message user_id owned command u ≡ aborted conflict)
          ⊎ (accept_message user_id owned command u ≡ aborted stale_enrollment))
unfolding accept_message
accept_message_once user_id owned command w v u chat h still =
    let g = command.context.generation in
    let (a, u1, lock, h) = bind_commits (assert_current_enrollment owned.id g) _ w v chat h in
    let (fresh, h) =
      ensure_holds (not (is_some (find_first (is_question owned.id command) u1.conversations)))
        conflict _ u1 v chat h in
    let (context, u2, built, h) =
      bind_commits (build_diagnose_context owned.course_id command.context) _ u1 v chat h in
    let (request, u3, ready, h) =
      bind_commits
        (resolve_workspace owned.id context
          (find_first (λ (r : Workspace). r.enrollment_id == owned.id) u2.workspaces))
        _ u2 v chat h in
    let (row, u4, made, h) =
      bind_commits (create_conversation (student_row owned.id command context)) _ u3 v chat h in
    let kept : v.enrollments ≡ u1.enrollments =
      ap (λ (x : Database). x.enrollments) (returned _ chat u4 v h).1
      ∙ ap (λ (x : Database). x.enrollments) (created _ u3 u4 row made).1
      ∙ workspace_kept owned.id context
          (find_first (λ (r : Workspace). r.enrollment_id == owned.id) u2.workspaces) u2 u3 request
          ready
      ∙ ap (λ (x : Database). x.enrollments)
          (context_reads owned.course_id command.context u1 u2 context built) in
    let stored : any (is_question owned.id command) v.conversations ≡ true =
      question_stored owned.id command context u3.next_id u3.now v.conversations u3.conversations (
        ap (λ (x : Database). x.conversations) (returned _ chat u4 v h).1
        ∙ ap (λ (x : Database). x.conversations) (created _ u3 u4 row made).1) in
    (
      stored,
      refused user_id owned command v (relock owned.id g w u1 v a lock kept) stored,
      refused_or_stale user_id owned command u still,
    )
