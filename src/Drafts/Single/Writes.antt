-- ===== src/Drafts/Single/Writes.antt =====
-- The content writes and the publication keep what makes drafts single.
use aivirteach_server.Common.{
  ℕ, ◌≡◌, refl, Bool, true, String, Option, none, some, List, [], ◌∷◌, arith, ◌==◌, any, count_rows,
  update_rows, find_first, is_some, Bool-cases, inl, inr,
}
use aivirteach_server.Database.{Database}
use aivirteach_server.Process.{Outcome, committed, aborted, after}
use aivirteach_server.Drafts.{
  CourseMeta, DraftVersion, DraftCourse, DraftDatabase, DraftAction, publish_action,
  DraftTransaction, then_do, has_id, is_open, record_event, update_version,
}
use aivirteach_server.Drafts.Course.{is_version, summary}
use aivirteach_server.Drafts.Content.{
  Content, ContentWrite, content_written, write_found, write_content, mutate,
}
use aivirteach_server.Drafts.Publish.{
  update_course_row, publish_course_row, columns_of, learners_written, move_readers, stamp, flip,
  PublishReads, publish_course, publish_locked, publish_rows, winner, issues_of, previous_order,
  lesson_order,
}
use aivirteach_server.Drafts.Publish.Issues.{PublishChecks, is_empty}
use aivirteach_server.Publishing.Pointers.{move_pointers}
use aivirteach_server.Drafts.Single.{is_draft_at, is_published_at, IsSingle, Grows, Grows-any}
use aivirteach_server.Drafts.Single.Statements.{
  Keeps, any-update, count-update, kept_row, update_version-Keeps,
}
use aivirteach_server.Drafts.Single.Transactions.{
  Keeps-none, elsewhere-Keeps, KeepsAll, KeepsLocked, continue-Keeps, then_do-Keeps,
  record_event-Keeps, summary-Keeps, locked-Keeps,
}

module _ (id : ℕ) (t : ContentWrite (Unit {0})) where
  content_written-Keeps :
      (w : DraftDatabase) (o : Outcome Content (Unit {0}))
      → IsSingle w
      → any (is_open id) w.versions ≡ true
      → Keeps w (after w (content_written id w o))
  unfolding update_version
  content_written-Keeps w (aborted e) i d = Keeps-none w i
  content_written-Keeps w (committed u c) i d =
      let k =
        update_version-Keeps id (λ v. record v { modules = c.modules; lessons = c.lessons })
          (λ v. (refl, refl, refl, refl)) w i d in
      let more =
        elsewhere-Keeps
          (update_version id (λ v. record v { modules = c.modules; lessons = c.lessons }) w)
          (record (update_version id (λ v. record v { modules = c.modules; lessons = c.lessons })
            w) { next_row = c.next_row })
          refl (omega arith) k.0 in
      (more.0, λ r p h. more.1 r p (k.1 r p h))

  write_content-Keeps : KeepsLocked id (write_content id t)
  write_content-Keeps w i d =
      elim (find_first (has_id id) w.versions) as (λ x. Keeps w (after w (write_found id t w x))) [
        | none ↦ Keeps-none w i
        | some v ↦
            content_written-Keeps w
              (t (record { modules = v.modules; lessons = v.lessons; next_row = w.next_row })) i d
      ]

  pub mutate-Keeps :
      (action : DraftAction) (slug operator : String) → KeepsAll (mutate action slug operator id t)
  unfolding mutate
  mutate-Keeps action slug operator =
      locked-Keeps id (then_do (write_content id t) (λ u. answered)) (λ w i d.
        continue-Keeps (λ u. answered)
          (λ u. then_do-Keeps told told-Keeps (summary id) (summary-Keeps id)) w
          (write_content id t w) i (write_content-Keeps w i d))
    where
      told : DraftVersion → DraftTransaction DraftVersion
      told updated = then_do (record_event action operator id slug) (λ u. committed updated)

      answered : DraftTransaction DraftVersion
      answered = then_do (summary id) told

      told-Keeps : (v : DraftVersion) → KeepsAll (told v)
      told-Keeps v =
          then_do-Keeps (λ u. committed v) (λ u w i. Keeps-none w i)
            (record_event action operator id slug) (record_event-Keeps action operator slug id)

module _ (p : DraftVersion → Bool) (f : DraftVersion → DraftVersion) (q : DraftVersion → Bool) where
  any-update-reflects :
      ((v : DraftVersion) → q (f v) ≡ true → q v ≡ true)
      → (vs : List DraftVersion) → any q (update_rows p f vs) ≡ true
      → any q vs ≡ true
  any-update-reflects h [] e = e
  any-update-reflects h (v ∷ vs) e = ground (arith, h v, any-update-reflects h vs)

module _ (id : ℕ) (w : DraftDatabase) (i : IsSingle w) where
  flipped-Keeps :
      Keeps w (record w { versions = update_rows (is_open id) (stamp w.now) w.versions })
  flipped-Keeps = (
    record {
      ids = λ k. rw (same_count (has_id k) (λ v. refl)) (i.ids k);
      fresh_id = λ k l. rw (same_count (has_id k) (λ v. refl)) (i.fresh_id k l);
      fresh_course = λ c n l. rw (same c n) (i.fresh_course c n l);
      twin = λ c n. rw (same_count (is_version c n) (λ v. refl)) (i.twin c n);
      tip = λ c n m d. rw (same c m) (i.tip c n m (was_draft c n d));
      filled =
          λ c a b m. rw (same c a, same c b) (λ x y l u. published c m (i.filled c a b m x y l u));
    },
    stays,
  )
    where
      same_count :
          (q : DraftVersion → Bool)
          → ((v : DraftVersion) → q (stamp w.now v) ≡ q v)
          → count_rows q (update_rows (is_open id) (stamp w.now) w.versions)
            ≡ count_rows q w.versions
      same_count q h = count-update q (is_open id) (stamp w.now) w.versions h

      same :
          (c n : ℕ)
          → any (is_version c n) (update_rows (is_open id) (stamp w.now) w.versions)
            ≡ any (is_version c n) w.versions
      same c n = any-update (is_version c n) (is_open id) (stamp w.now) w.versions (λ v. refl)

      was_draft :
          (c n : ℕ)
          → any (is_draft_at c n) (update_rows (is_open id) (stamp w.now) w.versions) ≡ true
          → any (is_draft_at c n) w.versions ≡ true
      was_draft c n =
          any-update-reflects (is_open id) (stamp w.now) (is_draft_at c n)
            (λ v h. ground (arith, h)) w.versions

      stays : Grows w (record w { versions = update_rows (is_open id) (stamp w.now) w.versions })
      stays r p h = kept_row (is_open id) (stamp w.now) r w.versions (ground (arith, p)) h

      published :
          (c n : ℕ)
          → any (is_published_at c n) w.versions ≡ true
          → any (is_published_at c n) (update_rows (is_open id) (stamp w.now) w.versions) ≡ true
      published c n =
          Grows-any c n w
            (record w { versions = update_rows (is_open id) (stamp w.now) w.versions }) stays

flip-Keeps : (id : ℕ) → KeepsAll (flip id)
flip-Keeps id w i = elim (Bool-cases (any (is_open id) w.versions)) [
  | inl t ↦ rw t (flipped-Keeps id w i)
  | inr f ↦ rw f (Keeps-none w i)
]

course_row-Keeps : (id : ℕ) (f : DraftCourse → DraftCourse) → KeepsAll (update_course_row id f)
course_row-Keeps id f w i = elim (Bool-cases (any (λ (c : DraftCourse). c.id == id) w.courses)) [
  | inl t ↦ rw t (
      elsewhere-Keeps w
        (record w { courses = update_rows (λ (c : DraftCourse). c.id == id) f w.courses }) refl
        (omega arith) i)
  | inr f ↦ rw f (Keeps-none w i)
]

columns-Keeps :
    (id : ℕ) (v : DraftVersion) (o : Option CourseMeta) → KeepsAll (publish_course_row id v o)
columns-Keeps id v none w i = Keeps-none w i
columns-Keeps id v (some columns) w i = course_row-Keeps id (publish_course v columns) w i

learners_written-Keeps :
    (w : DraftDatabase) (o : Outcome Database (Unit {0}))
    → IsSingle w
    → Keeps w (after w (learners_written w o))
learners_written-Keeps w (committed u l) i =
    elsewhere-Keeps w (record w { learners = l }) refl (omega arith) i
learners_written-Keeps w (aborted e) i = Keeps-none w i

move_readers-Keeps :
    (course_id : ℕ) (old new : List String) → KeepsAll (move_readers course_id old new)
move_readers-Keeps course_id old new w i =
    learners_written-Keeps w (move_pointers course_id old new w.learners) i

module _ (checks : PublishChecks) (operator : String) (r : PublishReads) where
  publish_locked-Keeps : (v : DraftVersion) → KeepsAll (publish_locked checks operator r v)
  publish_locked-Keeps v w i = elim (Bool-cases (is_empty (issues_of checks r v))) [
    | inr f ↦ rw f (Keeps-none w i)
    | inl t ↦ rw t (
        then_do-Keeps (λ u. to_course)
          (λ u.
            then_do-Keeps (λ u. to_readers)
              (λ u.
                then_do-Keeps (λ u. answered)
                  (λ u.
                    then_do-Keeps told told-Keeps (summary r.draft_id) (summary-Keeps r.draft_id))
                  (move_readers r.course.id (previous_order r.previous) (lesson_order v))
                  (move_readers-Keeps r.course.id (previous_order r.previous) (lesson_order v)))
              (publish_course_row r.course.id v (columns_of v))
              (columns-Keeps r.course.id v (columns_of v)))
          (flip r.draft_id) (flip-Keeps r.draft_id) w i)
  ]
    where
      told : DraftVersion → DraftTransaction DraftVersion
      told version =
          then_do (record_event publish_action operator version.id r.course.slug)
            (λ u. committed version)

      answered : DraftTransaction DraftVersion
      answered = then_do (summary r.draft_id) told

      to_readers : DraftTransaction DraftVersion
      to_readers =
          then_do (move_readers r.course.id (previous_order r.previous) (lesson_order v))
            (λ u. answered)

      to_course : DraftTransaction DraftVersion
      to_course = then_do (publish_course_row r.course.id v (columns_of v)) (λ u. to_readers)

      told-Keeps : (version : DraftVersion) → KeepsAll (told version)
      told-Keeps version =
          then_do-Keeps (λ u. committed version) (λ u w i. Keeps-none w i)
            (record_event publish_action operator version.id r.course.slug)
            (record_event-Keeps publish_action operator r.course.slug version.id)

  pub publish_rows-Keeps : KeepsAll (publish_rows checks operator r)
  unfolding publish_rows
  publish_rows-Keeps w i = elim (Bool-cases (any (is_open r.draft_id) w.versions)) [
    | inl t ↦ rw t (
        then_do-Keeps (publish_locked checks operator r) publish_locked-Keeps (summary r.draft_id)
          (summary-Keeps r.draft_id) w i)
    | inr f ↦ rw f (lost (find_first (has_id r.draft_id) w.versions))
  ]
    where
      lost : (o : Option DraftVersion) → Keeps w (after w (winner o w))
      lost none = Keeps-none w i
      lost (some v) = elim (Bool-cases (is_some v.published_at)) [
        | inl t ↦ rw t (Keeps-none w i)
        | inr f ↦ rw f (Keeps-none w i)
      ]
