-- ===== src/Enrollments/Pointers.antt =====
-- enrollments.service.ts: `remapPublishedReadingPointers`, in the transaction of a publication.
pub mod Rows
pub mod Ready
pub mod Clear
use aivirteach_server.Common.{
  ℕ, ◌+◌, ◌≡◌, ◌≢◌, ◌∙◌, refl, sym, ap, Bool, true, false, ◌&&◌, ◌||◌, not, String, Option, none,
  some, List, [], ◌∷◌, map, arith, if◌then◌else◌, ◌==◌, ==_iff, leb, str_eq, eq_iff, is_some, any,
  keep, find_first, update_rows, insert_row, order_rows, All, All-map, All-both, Bool-cases,
  Option-cases, inl, inr,
}
use aivirteach_server.Process.{not_found, committed, after}
use aivirteach_server.Learning.{LearningState, get_replacement, truthy, remap_reading_position}
use aivirteach_server.Learning.Dict.{Object, lookup}
use aivirteach_server.Database.{Database, Transaction, ◌>>=◌, ◌>>◌, return, read}
use aivirteach_server.Database.Rows.{Enrollment}
use aivirteach_server.Enrollments.{or_abort, update_enrollment}
use aivirteach_server.Enrollments.Progress.{store_state}

-- `OR: keys.map((id) => readingLessonId equals id)`
abbrev pub is_key : Object String → Option String → Bool
is_key removed none = false
is_key removed (some id) = is_some (lookup id removed)

abbrev pub is_pointing : ℕ → Object String → Enrollment → Bool
is_pointing course_id removed e =
    e.course_id == course_id && is_key removed e.learning_state.reading_lesson_id

-- `next !== state`
abbrev pub is_moved : Object String → LearningState → Bool
is_moved removed state = truthy (get_replacement state.reading_lesson_id removed)

abbrev pub remap_current : Object String → Enrollment → Transaction (Unit {0})
remap_current removed current =
    if is_moved removed current.learning_state
    then (update_enrollment current
          (store_state (remap_reading_position current.learning_state removed))
        >> return tt)
    else return tt

abbrev pub has_id : ℕ → Enrollment → Bool
has_id id e = e.id == id

unfoldable pub remap_each : Object String → List ℕ → Transaction (Unit {0})
remap_each removed [] = return tt
remap_each removed (id ∷ ids) = do
  row ← read (λ w. find_first (has_id id) w.enrollments)
  current ← or_abort not_found row
  remap_current removed current
  remap_each removed ids

abbrev pub is_before : Enrollment → Enrollment → Bool
is_before a b = leb a.id b.id

abbrev pub pointing_ids : ℕ → Object String → List Enrollment → List ℕ
pointing_ids course_id removed es =
    map (λ (e : Enrollment). e.id) (order_rows is_before (keep (is_pointing course_id removed) es))

unfoldable pub remap_published_reading_pointers : ℕ → Object String → Transaction (Unit {0})
remap_published_reading_pointers course_id [] = return tt
remap_published_reading_pointers course_id (r ∷ removed) = do
  ids ← read (λ w. pointing_ids course_id (r ∷ removed) w.enrollments)
  remap_each (r ∷ removed) ids

-- The id is the primary key: a row is found by its id.
abbrev pub HasKey : List Enrollment → Type 0
HasKey es = All (λ (r : Enrollment). find_first (has_id r.id) es ≡ some r) es

-- A removed id is not empty, and is replaced by an id that is neither empty nor removed.
abbrev pub IsReplacing : Object String → Type 0
IsReplacing removed =
    (k v : String)
    → lookup k removed ≡ some v
    → (str_eq k "" ≡ false) × (str_eq v "" ≡ false) × (lookup v removed ≡ none)
