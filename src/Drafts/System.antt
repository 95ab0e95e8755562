-- ===== src/Drafts/System.antt =====
-- The operators' calls on drafts, interleaved at every statement and every transaction.
use aivirteach_server.Common.{ℕ, ◌≤◌, ◌≡◌, Bool, String, Option, List, []}
use aivirteach_server.Process.{pure, ◌>>=◌}
use aivirteach_server.Process.Contract.{Config}
use aivirteach_server.Drafts.{CourseMeta, DraftDatabase, DraftRequest, DraftReply, DraftTask}
use aivirteach_server.Drafts.Course.{
  WelcomePatch, create_draft, discard_draft, update_course, update_welcome,
}
use aivirteach_server.Drafts.Create.{create_course}
use aivirteach_server.Drafts.Content.{
  ModuleInput, ModulePatch, create_module, update_module, delete_module,
}
use aivirteach_server.Drafts.Content.Lesson.{
  LessonInput, LessonPatch, ValidationReport, create_lesson, update_lesson, delete_lesson,
}
use aivirteach_server.Drafts.Content.Assessment.{
  AssessmentInput, AssessmentPatch, create_assessment, update_assessment,
}
use aivirteach_server.Drafts.Content.Reorder.{ModuleOrder, reorder}
use aivirteach_server.Drafts.Publish.{publish}
use aivirteach_server.Drafts.Publish.Issues.{PublishChecks}

-- what the services take from elsewhere
pub record DraftEnv : Type 0 where
  pub is_object : String → Bool
  pub byte_length : String → ℕ
  pub validate : Option String → List String → ValidationReport
  pub temporary : ℕ → ℕ → String
  pub checks : PublishChecks

-- Each call names the course by its slug and ends with the operator.
pub data DraftCall : Type 0 where
  creates_draft discards publishes : String → String → DraftCall
  updates_course : String → CourseMeta → String → DraftCall
  updates_welcome : String → WelcomePatch → String → DraftCall
  creates_course : String → String → String → DraftCall
  creates_module : String → ModuleInput → String → DraftCall
  updates_module : String → ℕ → ModulePatch → String → DraftCall
  deletes_module : String → ℕ → String → DraftCall
  creates_lesson : String → ℕ → LessonInput → String → DraftCall
  updates_lesson : String → String → LessonPatch → String → DraftCall
  deletes_lesson : String → String → String → DraftCall
  reorders : String → List ModuleOrder → String → DraftCall
  creates_assessment : String → String → AssessmentInput → String → DraftCall
  updates_assessment : String → ℕ → AssessmentPatch → String → DraftCall

abbrev pub forget : {A : Type 0} → DraftTask A → DraftTask (Unit {0})
forget m = m >>= λ a. pure tt

unfoldable pub handler : DraftEnv → DraftCall → DraftTask (Unit {0})
handler env (creates_draft slug op) = forget (create_draft slug op)
handler env (discards slug op) = discard_draft slug op
handler env (publishes slug op) = forget (publish env.checks slug op)
handler env (updates_course slug patch op) = forget (update_course slug patch op)
handler env (updates_welcome slug patch op) = forget (update_welcome slug patch op)
handler env (creates_course slug title op) = forget (create_course slug title op)
handler env (creates_module slug input op) = forget (create_module slug input op)
handler env (updates_module slug id patch op) = forget (update_module slug id patch op)
handler env (deletes_module slug id op) = forget (delete_module slug id op)
handler env (creates_lesson slug id input op) =
    forget (create_lesson env.is_object env.byte_length env.validate slug id input op)
handler env (updates_lesson slug id patch op) =
    forget (update_lesson env.is_object env.byte_length env.validate slug id patch op)
handler env (deletes_lesson slug id op) = forget (delete_lesson slug id op)
handler env (reorders slug order op) = forget (reorder env.temporary slug order op)
handler env (creates_assessment slug id input op) = forget (create_assessment slug id input op)
handler env (updates_assessment slug id patch op) = forget (update_assessment slug id patch op)

-- Any call may start.
abbrev pub Starts : DraftEnv → DraftDatabase → DraftTask (Unit {0}) → Type 0
Starts env w p = (c : DraftCall) × (p ≡ handler env c)

-- The clock moves, and the learners go on.
abbrev pub Moves : DraftDatabase → DraftDatabase → Type 0
Moves w w' = (later : ℕ) × (w.now ≤ later) × (w' ≡ record w { now = later; learners = w'.learners })

abbrev pub idle_config : DraftDatabase → Config DraftDatabase DraftRequest DraftReply
idle_config w = record { world = w; running = [] }
