-- ===== src/Drafts/Placed.antt =====
-- Tables whose rows have a position, unique below their parent: CourseModule in a version and
-- CourseLesson in a module. A statement that breaks a unique index fails, and an update of many rows
-- changes them one by one, as the database does.
pub mod Phase
pub mod Apart
pub mod Rows
pub mod Closing
pub mod Numbering
pub mod Appending
use aivirteach_server.Common.{
  ℕ, ◌+◌, ◌-◌, Bool, true, false, ◌&&◌, ◌||◌, not, Option, none, some, List, [], ◌∷◌, if◌then◌else◌,
  ◌==◌, leb, ltb, any, keep, update_rows, order_rows,
}
use aivirteach_server.Process.{Outcome, committed, aborted, unique_violation}
use aivirteach_server.Drafts.{then_do}

-- the columns, and what another unique index of the table forbids
pub record Placed (A : Type 0) : Type 0 where
  pub id : A → ℕ
  pub parent : A → ℕ
  pub position : A → ℕ
  pub put : ℕ → A → A
  pub other : A → A → Bool

abbrev pub position_offset : ℕ
position_offset = 1000000

abbrev pub RowWrite : Type 0 → Type 0
RowWrite A = List A → Outcome (List A) (Unit {0})

-- one statement after the other
abbrev pub each :
    {W X : Type 0} → List X → (X → W → Outcome W (Unit {0})) → W → Outcome W (Unit {0})
each [] f = committed tt
each (x ∷ xs) f = then_do (f x) (λ u. each xs f)

module _ {A : Type 0} where
  module _ (P : Placed A) where
    abbrev pub is_at : ℕ → ℕ → A → Bool
    is_at parent n a = P.parent a == parent && P.position a == n

    abbrev pub is_after : ℕ → ℕ → A → Bool
    is_after parent n a = P.parent a == parent && ltb n (P.position a)

    abbrev pub clashes : A → A → Bool
    clashes a b = is_at (P.parent a) (P.position a) b || P.other a b

    abbrev pub is_clear : List A → Bool
    is_clear [] = true
    is_clear (a ∷ rows) = not (any (clashes a) rows) && is_clear rows

    unfoldable pub store : List A → Outcome (List A) (Unit {0})
    store rows = if is_clear rows then committed tt rows else aborted unique_violation

    -- update by id, of a row that the transaction has read
    abbrev pub update_row : ℕ → (A → A) → RowWrite A
    update_row id f rows = store (update_rows (λ a. P.id a == id) f rows)

    abbrev pub is_placed_before : A → A → Bool
    is_placed_before a b = leb (P.position a) (P.position b)

    -- `{ increment: POSITION_OFFSET }`
    abbrev pub lift : A → A
    lift a = P.put (P.position a + position_offset) a

    abbrev pub lift_row : A → RowWrite A
    lift_row a = update_row (P.id a) lift

    abbrev pub lift_where : (A → Bool) → RowWrite A
    lift_where p rows = each (keep p rows) lift_row rows

    abbrev pub pull_row : A → RowWrite A
    pull_row a = update_row (P.id a) (P.put (P.position a - 1))

    -- What deleteModule and deleteLesson do once the row at `n` is gone.
    unfoldable pub close_gap : ℕ → ℕ → RowWrite A
    close_gap parent n rows =
        then_do (lift_where (is_after parent n))
          (λ u. each (order_rows is_placed_before (keep (is_after parent n) rows)) pull_row) rows

    -- `(last?.position ?? 0) + 1`
    abbrev pub last_position : ℕ → List A → ℕ
    last_position parent [] = 0
    last_position parent (a ∷ rows) =
        let rest = last_position parent rows in
        if P.parent a == parent && ltb rest (P.position a) then P.position a else rest

    unfoldable pub append_row : A → RowWrite A
    append_row a rows = store (a ∷ rows)
