-- ===== src/Chat/Talks.antt =====
-- What a handler tells the consumer of a stream, and what ends a transaction of the chat.
use aivirteach_server.Common.{
  ℕ, ◌≡◌, refl, Bool, true, false, Option, List, [], ◌∷◌, arith, if◌then◌else◌, any, count_rows,
}
use aivirteach_server.Process.{
  HttpError, pure, fail, atomic, request, attempt, Outcome, committed, aborted,
}
use aivirteach_server.Database.{Database, continue, update_enrollments}
use aivirteach_server.Database.Rows.{Enrollment, Conversation, DiagnoseResponse}
use aivirteach_server.Chat.{
  ChatTask, ChatStreamEvent, progress, diagnose, diagnose_stream, emit, Frame, is_stale_error,
  is_current, assert_current_enrollment, create_conversation,
}
use aivirteach_server.Chat.Reply.{create_current}

abbrev pub is_progress : ChatStreamEvent → Bool
is_progress (progress event x) = true
is_progress _ = false

-- Nothing is left to do.
abbrev pub IsDone : ChatTask (Unit {0}) → Type 0
IsDone (pure a) = Unit {0}
IsDone _ = ⊥

-- Events of progress, then one last event, after which nothing comes; no exception. Only the worlds
-- of `R` are met, and the stream ends without a last event only if `E`.
abbrev pub IsStream : (Database → Type 0) → Type 0 → ChatTask (Unit {0}) → Type 0
IsStream R E (pure a) = E
IsStream R E (fail e) = ⊥
IsStream R E (atomic f k) = (w : Database) → R w → IsStream R E (k w)
IsStream R E (request (emit e) k) = if is_progress e then IsStream R E (k tt) else IsDone (k tt)
IsStream R E (request (diagnose d) k) = (r : Option DiagnoseResponse) → IsStream R E (k r)
IsStream R E (request (diagnose_stream d) k) = (fs : List Frame) → IsStream R E (k fs)

-- Only progress is emitted, and the end is as `P` and `F` say.
abbrev pub Talks :
    {A : Type 0} → (Database → Type 0) → (A → Type 0) → (HttpError → Type 0) → ChatTask A → Type 0
Talks R P F (pure a) = P a
Talks R P F (fail e) = F e
Talks R P F (atomic f k) = (w : Database) → R w → Talks R P F (k w)
Talks R P F (request (emit e) k) = (is_progress e ≡ true) × Talks R P F (k tt)
Talks R P F (request (diagnose d) k) = (r : Option DiagnoseResponse) → Talks R P F (k r)
Talks R P F (request (diagnose_stream d) k) = (fs : List Frame) → Talks R P F (k fs)

module _ (R : Database → Type 0) where
  pub Talks-attempt :
      {A B : Type 0} (P : A → Type 0) (Q : B → Type 0) (F G : HttpError → Type 0) (m : ChatTask A)
      (f : A → ChatTask B) (g : HttpError → ChatTask B)
      → Talks R P F m
      → ((a : A) → P a → Talks R Q G (f a))
      → ((e : HttpError) → F e → Talks R Q G (g e))
      → Talks R Q G (attempt m f g)
  unfolding attempt
  Talks-attempt P Q F G (pure a) f g t tf tg = tf a t
  Talks-attempt P Q F G (fail e) f g t tf tg = tg e t
  Talks-attempt P Q F G (atomic u k) f g t tf tg =
      λ w r. Talks-attempt P Q F G (k w) f g (t w r) tf tg
  Talks-attempt P Q F G (request (emit e) k) f g t tf tg =
      (t.0, Talks-attempt P Q F G (k tt) f g t.1 tf tg)
  Talks-attempt P Q F G (request (diagnose d) k) f g t tf tg =
      λ r. Talks-attempt P Q F G (k r) f g (t r) tf tg
  Talks-attempt P Q F G (request (diagnose_stream d) k) f g t tf tg =
      λ r. Talks-attempt P Q F G (k r) f g (t r) tf tg

  pub IsStream-attempt :
      {A : Type 0} (E : Type 0) (P : A → Type 0) (F : HttpError → Type 0) (m : ChatTask A)
      (f : A → ChatTask (Unit {0})) (g : HttpError → ChatTask (Unit {0}))
      → Talks R P F m
      → ((a : A) → P a → IsStream R E (f a))
      → ((e : HttpError) → F e → IsStream R E (g e))
      → IsStream R E (attempt m f g)
  unfolding attempt
  IsStream-attempt E P F (pure a) f g t tf tg = tf a t
  IsStream-attempt E P F (fail e) f g t tf tg = tg e t
  IsStream-attempt E P F (atomic u k) f g t tf tg =
      λ w r. IsStream-attempt E P F (k w) f g (t w r) tf tg
  IsStream-attempt E P F (request (emit e) k) f g t tf tg =
      rw t.0 (IsStream-attempt E P F (k tt) f g t.1 tf tg)
  IsStream-attempt E P F (request (diagnose d) k) f g t tf tg =
      λ r. IsStream-attempt E P F (k r) f g (t r) tf tg
  IsStream-attempt E P F (request (diagnose_stream d) k) f g t tf tg =
      λ r. IsStream-attempt E P F (k r) f g (t r) tf tg

  pub if-Talks :
      {A : Type 0} (P : A → Type 0) (F : HttpError → Type 0) (b : Bool) (m n : ChatTask A)
      → Talks R P F m
      → Talks R P F n
      → Talks R P F (if b then m else n)
  if-Talks P F true m n t u = t
  if-Talks P F false m n t u = u

count_none : (p : Enrollment → Bool) (es : List Enrollment) → count_rows p es ≡ 0 → any p es ≡ false
count_none p [] h = refl
count_none p (e ∷ es) h = ground (arith, count_none p es)

abbrev pub has_current : ℕ → ℕ → Database → Bool
has_current enrollment_id generation w = any (is_current enrollment_id generation) w.enrollments

pub true_not_false : {C : Type 0} (b : Bool) → b ≡ true → b ≡ false → C
true_not_false b s t = cc

-- Only a transaction that finds no current enrollment is stale.
pub assert_current-stale :
    (id generation : ℕ) (w : Database) (e : HttpError)
    → assert_current_enrollment id generation w ≡ aborted e
    → has_current id generation w ≡ false
unfolding assert_current_enrollment update_enrollments
assert_current-stale id generation w e h =
    ground (arith, count_none (is_current id generation) w.enrollments)

created_fairly :
    (make : ℕ → ℕ → Conversation) (w : Database) (e : HttpError)
    → create_conversation make w ≡ aborted e
    → is_stale_error e ≡ false
unfolding create_conversation
created_fairly make w e h = ground arith

continued_stale :
    (o : Outcome Database (Unit {0})) (make : ℕ → ℕ → Conversation) (e : HttpError)
    → continue o (λ u. create_conversation make) ≡ aborted e
    → is_stale_error e ≡ true
    → o ≡ aborted e
continued_stale (committed u w) make e h s =
    true_not_false (is_stale_error e) s (created_fairly make w e h)
continued_stale (aborted f) make e h s = cc h

pub create_current-stale :
    (id generation : ℕ) (make : ℕ → ℕ → Conversation) (w : Database) (e : HttpError)
    → create_current id generation make w ≡ aborted e
    → is_stale_error e ≡ true
    → has_current id generation w ≡ false
unfolding create_current
create_current-stale id generation make w e h s =
    assert_current-stale id generation w e
      (continued_stale (assert_current_enrollment id generation w) make e h s)
