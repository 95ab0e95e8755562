-- ===== src/Drafts/Publish/Answers.antt =====
-- What the transaction of a publication answers: admin/course-publish.service.ts, lines 78-188.
use aivirteach_server.Common.{
  ℕ, ◌≡◌, refl, sym, ◌∙◌, true, false, String, Option, none, some, List, [], ◌∷◌, arith, ◌==◌, any,
  find_first, update_rows, is_some, Bool-cases, inl, inr,
}
use aivirteach_server.Database.{Database}
use aivirteach_server.Process.{Outcome, committed, aborted}
use aivirteach_server.Publishing.Pointers.{move_pointers}
use aivirteach_server.Drafts.{
  CourseMeta, DraftVersion, DraftCourse, DraftDatabase, DraftTransaction, publish_action, continue,
  then_do, has_id, is_open, record_event,
}
use aivirteach_server.Drafts.Course.{summarised}
use aivirteach_server.Drafts.Publish.{
  stamp, flip, update_course_row, publish_course_row, columns_of, learners_written, move_readers,
  publish_course, previous_order, lesson_order, PublishReads, issues_of, winner, publish_locked,
  publish_rows,
}
use aivirteach_server.Drafts.Publish.Issues.{PublishChecks, is_empty}

-- an outcome that is aborted, or a published version
abbrev IsPublished : Outcome DraftDatabase DraftVersion → Type 0
IsPublished (committed v w) = is_some v.published_at ≡ true
IsPublished (aborted e) = Unit {0}

-- in this world the version is no draft
abbrev IsClosed : ℕ → DraftDatabase → Type 0
IsClosed id w = any (is_open id) w.versions ≡ false

-- A transaction that leaves the version published, whatever it answers.
abbrev Closes : {A : Type 0} → ℕ → Outcome DraftDatabase A → Type 0
Closes id (committed a w) = IsClosed id w
Closes id (aborted e) = Unit {0}

continue-IsPublished :
    {A : Type 0} (id : ℕ) (o : Outcome DraftDatabase A) (f : A → DraftTransaction DraftVersion)
    → Closes id o
    → ((a : A) (w : DraftDatabase) → IsClosed id w → IsPublished (f a w))
    → IsPublished (continue o f)
continue-IsPublished id (committed a w) f c k = k a w c
continue-IsPublished id (aborted e) f c k = tt

stamped :
    (id now : ℕ) (vs : List DraftVersion)
    → any (is_open id) (update_rows (is_open id) (stamp now) vs) ≡ false
stamped id now [] = refl
stamped id now (v ∷ vs) = ground (arith, stamped id now vs)

found_closed :
    (id : ℕ) (vs : List DraftVersion) (v : DraftVersion)
    → any (is_open id) vs ≡ false
    → find_first (has_id id) vs ≡ some v
    → is_some v.published_at ≡ true
found_closed id [] v c e = cc
found_closed id (x ∷ xs) v c e = elim (Bool-cases (has_id id x)) [
  | inl t ↦ here t (rw t at e)
  | inr f ↦ found_closed id xs v (ground (arith, c)) (rw f at e)
]
  where
    here : has_id id x ≡ true → some x ≡ some v → is_some v.published_at ≡ true
    here t e =
        let same : is_some x.published_at ≡ is_some v.published_at = cc in
        sym same ∙ ground (arith, t, c)

flip-Closes : (id : ℕ) (w : DraftDatabase) → Closes id (flip id w)
flip-Closes id w = elim (Bool-cases (any (is_open id) w.versions)) [
  | inl t ↦ rw t (stamped id w.now w.versions)
  | inr f ↦ rw f tt
]

course-Closes :
    (id course_id : ℕ) (f : DraftCourse → DraftCourse) (w : DraftDatabase)
    → IsClosed id w
    → Closes id (update_course_row course_id f w)
course-Closes id course_id f w c =
    elim (Bool-cases (any (λ (k : DraftCourse). k.id == course_id) w.courses)) [
      | inl t ↦ rw t c
      | inr n ↦ rw n tt
    ]

columns-Closes :
    (id course_id : ℕ) (v : DraftVersion) (o : Option CourseMeta) (w : DraftDatabase)
    → IsClosed id w
    → Closes id (publish_course_row course_id v o w)
columns-Closes id course_id v none w c = tt
columns-Closes id course_id v (some columns) w c =
    course-Closes id course_id (publish_course v columns) w c

readers-Closes :
    (id : ℕ) (w : DraftDatabase) (o : Outcome Database (Unit {0}))
    → IsClosed id w
    → Closes id (learners_written w o)
readers-Closes id w (committed u l) c = c
readers-Closes id w (aborted e) c = tt

module _ (checks : PublishChecks) (operator : String) (r : PublishReads) where
  answered :
      (w : DraftDatabase) (o : Option DraftVersion)
      → find_first (has_id r.draft_id) w.versions ≡ o
      → IsClosed r.draft_id w
      → IsPublished (
          continue (summarised w o) (λ version.
            then_do
              (record_event publish_action operator version.id r.course.slug)
              (λ u. committed version)))
  unfolding record_event
  answered w none e c = tt
  answered w (some v) e c = found_closed r.draft_id w.versions v c e

  locked-IsPublished :
      (v : DraftVersion) (w : DraftDatabase) → IsPublished (publish_locked checks operator r v w)
  locked-IsPublished v w = elim (Bool-cases (is_empty (issues_of checks r v))) [
    | inr f ↦ rw f tt
    | inl t ↦ rw t (
        continue-IsPublished r.draft_id (flip r.draft_id w) _ (flip-Closes r.draft_id w) (λ u w1 c1.
          continue-IsPublished r.draft_id (publish_course_row r.course.id v (columns_of v) w1) _
            (columns-Closes r.draft_id r.course.id v (columns_of v) w1 c1)
            (λ u w2 c2.
              continue-IsPublished r.draft_id
                (move_readers r.course.id (previous_order r.previous) (lesson_order v) w2) _
                (readers-Closes r.draft_id w2
                  (move_pointers r.course.id (previous_order r.previous) (lesson_order v)
                    w2.learners)
                  c2)
                (λ u w3 c3. answered w3 (find_first (has_id r.draft_id) w3.versions) refl c3))))
  ]

  summary_then :
      (w : DraftDatabase) (o : Option DraftVersion)
      → IsPublished (continue (summarised w o) (publish_locked checks operator r))
  summary_then w none = tt
  summary_then w (some v) = locked-IsPublished v w

  winner-IsPublished : (w : DraftDatabase) (o : Option DraftVersion) → IsPublished (winner o w)
  winner-IsPublished w none = tt
  winner-IsPublished w (some v) = elim (Bool-cases (is_some v.published_at)) [
    | inl t ↦ rw t t
    | inr f ↦ rw f tt
  ]

  rows-IsPublished : (w : DraftDatabase) → IsPublished (publish_rows checks operator r w)
  unfolding publish_rows
  rows-IsPublished w = elim (Bool-cases (any (is_open r.draft_id) w.versions)) [
    | inl t ↦ rw t (summary_then w (find_first (has_id r.draft_id) w.versions))
    | inr f ↦ rw f (winner-IsPublished w (find_first (has_id r.draft_id) w.versions))
  ]

  -- A publication's transaction that commits answers with a published version, both when it publishes
  -- the draft and when another publication was first; otherwise it is rolled back.
  pub publish_rows-published :
      (w w' : DraftDatabase) (v : DraftVersion)
      → publish_rows checks operator r w ≡ committed v w'
      → is_some v.published_at ≡ true
  publish_rows-published w w' v e = rw e at (rows-IsPublished w)
