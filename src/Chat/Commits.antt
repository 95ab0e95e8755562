-- ===== src/Chat/Commits.antt =====
-- What the shared statements of the chat leave when they commit.
use aivirteach_server.Common.{
  ℕ, suc, ◌≡◌, true, false, ◌∷◌, ◌==◌, any, count_rows, update_rows, Bool-cases, inl, inr,
}
use aivirteach_server.Process.{committed, stale_enrollment, unique_violation}
use aivirteach_server.Database.{Database, update_enrollments}
use aivirteach_server.Database.Commits.{returned, abort_apart}
use aivirteach_server.Database.Rows.{Enrollment, Conversation}
use aivirteach_server.Chat.{is_current, assert_current_enrollment, create_conversation, collides}

abbrev pub activate : Enrollment → Enrollment
activate e = record e { active = true }

abbrev pub locked_world : ℕ → ℕ → Database → Database
locked_world id generation w = record w {
  enrollments = update_rows (is_current id generation) activate w.enrollments;
}

pub locked :
    (id generation : ℕ) (w u : Database) (a : Unit {0})
    → assert_current_enrollment id generation w ≡ committed a u
    → ((count_rows (is_current id generation) w.enrollments == 0) ≡ false)
      × (u ≡ locked_world id generation w)
unfolding assert_current_enrollment update_enrollments
locked id generation w u a h =
    elim (Bool-cases (count_rows (is_current id generation) w.enrollments == 0)) [
      | inl t ↦ abort_apart stale_enrollment a u (rw t at h)
      | inr t ↦ (t, (returned tt a _ u (rw t at h)).1)
    ]

pub created :
    (make : ℕ → ℕ → Conversation) (w v : Database) (row : Conversation)
    → create_conversation make w ≡ committed row v
    → (row ≡ make w.next_id w.now)
      × (v ≡ record w {
        conversations = make w.next_id w.now ∷ w.conversations;
        next_id = suc w.next_id;
      })
unfolding create_conversation
created make w v row h = elim (Bool-cases (any (collides (make w.next_id w.now)) w.conversations)) [
  | inl t ↦ abort_apart unique_violation row v (rw t at h)
  | inr t ↦ returned _ row _ v (rw t at h)
]
