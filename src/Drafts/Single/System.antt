-- ===== src/Drafts/Single/System.antt =====
-- In every interleaving of the operators' calls each course has one draft at most, and what is
-- published stays.
use aivirteach_server.Common.{ℕ, ◌≤◌, ◌≡◌, refl, true, arith, count_rows, is_some}
use aivirteach_server.Process.Contract.{Reaches, Config}
use aivirteach_server.Process.Steady.{Reaches-IsSteady, Reaches-grows}
use aivirteach_server.Drafts.{
  DraftVersion, DraftDatabase, DraftRequest, DraftReply, DraftTask, is_draft_of,
  update_course_action, update_welcome_action, reorder_action, create_module_action,
  update_module_action, delete_module_action, delete_lesson_action, create_assessment_action,
  update_assessment_action,
}
use aivirteach_server.Drafts.Course.{update_course, update_welcome, patch_meta, upsert_welcome}
use aivirteach_server.Drafts.Content.{
  create_module, update_module, delete_module, create_module_rows, update_module_rows,
  delete_module_rows,
}
use aivirteach_server.Drafts.Content.Lesson.{delete_lesson, delete_lesson_rows}
use aivirteach_server.Drafts.Content.Assessment.{
  create_assessment, update_assessment, create_assessment_rows, update_assessment_rows,
}
use aivirteach_server.Drafts.Content.Reorder.{reorder, reorder_rows}
use aivirteach_server.Drafts.System.{
  DraftEnv, DraftCall, creates_draft, discards, publishes, updates_course, updates_welcome,
  creates_course, creates_module, updates_module, deletes_module, creates_lesson, updates_lesson,
  deletes_lesson, reorders, creates_assessment, updates_assessment, handler, Starts, Moves,
  idle_config,
}
use aivirteach_server.Drafts.Single.{IsSingle, IsSingle-one, IsIn, Grows, published_stays}
use aivirteach_server.Drafts.Single.Transactions.{elsewhere-Keeps, write_version-Keeps}
use aivirteach_server.Drafts.Single.Writes.{mutate-Keeps}
use aivirteach_server.Drafts.Single.Stays.{single_contract, Stays, edit-Stays, create_draft-Stays}
use aivirteach_server.Drafts.Single.Calls.{
  forget-Stays, discard_draft-Stays, edit_draft-Stays, create_course-Stays, publish-Stays,
  create_lesson-Stays, update_lesson-Stays,
}

handler-Stays : (env : DraftEnv) (c : DraftCall) (v : DraftDatabase) → Stays v (handler env c)
unfolding handler update_course update_welcome create_module update_module delete_module
    delete_lesson create_assessment update_assessment reorder
handler-Stays env (creates_draft slug op) v = forget-Stays _ v (create_draft-Stays slug op v)
handler-Stays env (discards slug op) v = discard_draft-Stays slug op v
handler-Stays env (publishes slug op) v = forget-Stays _ v (publish-Stays env.checks slug op v)
handler-Stays env (updates_course slug patch op) v = forget-Stays _ v (
    edit-Stays slug _ v (λ d.
      write_version-Keeps update_course_action slug op d.id (patch_meta patch)
        (λ v. (refl, refl, refl, refl))))
handler-Stays env (updates_welcome slug patch op) v = forget-Stays _ v (
    edit-Stays slug _ v (λ d.
      write_version-Keeps update_welcome_action slug op d.id (upsert_welcome patch)
        (λ v. (refl, refl, refl, refl))))
handler-Stays env (creates_course slug title op) v =
    forget-Stays _ v (create_course-Stays slug title op v)
handler-Stays env (creates_module slug input op) v =
    edit_draft-Stays create_module_action slug (create_module_rows input) op v
handler-Stays env (updates_module slug id patch op) v =
    edit_draft-Stays update_module_action slug (update_module_rows id patch) op v
handler-Stays env (deletes_module slug id op) v =
    edit_draft-Stays delete_module_action slug (delete_module_rows id) op v
handler-Stays env (creates_lesson slug id input op) v =
    forget-Stays _ v
      (create_lesson-Stays env.is_object env.byte_length env.validate slug op id input v)
handler-Stays env (updates_lesson slug id patch op) v =
    forget-Stays _ v
      (update_lesson-Stays env.is_object env.byte_length env.validate slug op id patch v)
handler-Stays env (deletes_lesson slug id op) v =
    edit_draft-Stays delete_lesson_action slug (delete_lesson_rows id) op v
handler-Stays env (reorders slug order op) v = forget-Stays _ v (
    edit-Stays slug _ v
      (λ d. mutate-Keeps d.id (reorder_rows env.temporary d.id order) reorder_action slug op))
handler-Stays env (creates_assessment slug id input op) v =
    edit_draft-Stays create_assessment_action slug (create_assessment_rows id input) op v
handler-Stays env (updates_assessment slug id patch op) v =
    edit_draft-Stays update_assessment_action slug (update_assessment_rows id patch) op v

module _ (env : DraftEnv) (w : DraftDatabase) (d : Config DraftDatabase DraftRequest DraftReply)
    (single : IsSingle w) (run : Reaches single_contract (Starts env) Moves (idle_config w) d) where
  Moves-Keeps : (v v' : DraftDatabase) → IsSingle v → Moves v v' → IsSingle v' × Grows v v'
  Moves-Keeps v v' i (later, l, e) =
      rw e
        (elsewhere-Keeps v (record v { now = later; learners = v'.learners }) refl (omega arith) i)

  Starts-Stays :
      (v : DraftDatabase) (p : DraftTask (Unit {0})) → IsSingle v → Starts env v p → Stays v p
  Starts-Stays v p i (c, e) = rw e (handler-Stays env c v)

  -- From tables whose drafts are single, whatever calls the operators make and in whatever order their
  -- statements and transactions interleave, each course has one draft at most.
  pub runs_keep_single : (course_id : ℕ) → count_rows (is_draft_of course_id) d.world.versions ≤ 1
  runs_keep_single course_id =
      IsSingle-one d.world course_id
        (Reaches-IsSteady single_contract published_stays (Starts env) Moves Starts-Stays
          Moves-Keeps (record { inv = single; all_steady = tt }) run).inv

  -- From tables whose drafts are single, whatever calls the operators make and in whatever order their
  -- statements and transactions interleave, a version that was published at the start is still there
  -- with the same row, modules and lessons.
  pub runs_keep_published :
      (r : DraftVersion)
      → is_some r.published_at ≡ true
      → IsIn r w.versions
      → IsIn r d.world.versions
  runs_keep_published =
      Reaches-grows single_contract published_stays (Starts env) Moves Starts-Stays Moves-Keeps
        (record { inv = single; all_steady = tt }) run
