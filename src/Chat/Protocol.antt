-- ===== src/Chat/Protocol.antt =====
-- What the consumer of a stream gets, whatever the others do between the statements.
use aivirteach_server.Common.{◌≡◌, true}
use aivirteach_server.TokenUsage.{TokenWeights}
use aivirteach_server.Chat.{AcceptedChat}
use aivirteach_server.Chat.Stream.{stream_prepared}
use aivirteach_server.Chat.Talks.{IsStream, has_current, true_not_false}
use aivirteach_server.Chat.Quiet.{resolved-IsStream}

-- The stream of an accepted message never throws. It gives events of progress and then at most one
-- last event, `complete` or `error`, with nothing after it, whatever the agent sends and whatever
-- the other requests do. While the enrollment stays current there is exactly one last event.
pub stream_prepared-IsStream :
    (weights : TokenWeights) (chat : AcceptedChat)
    → IsStream (λ w. Unit {0}) (Unit {0}) (stream_prepared weights chat)
      × IsStream
          (λ w. has_current chat.enrollment_id chat.command.context.generation w ≡ true)
          ⊥
          (stream_prepared weights chat)
unfolding stream_prepared
stream_prepared-IsStream weights chat = (
  resolved-IsStream (λ w. Unit {0}) (Unit {0}) chat (λ w r h. tt) weights chat.request,
  resolved-IsStream _ ⊥ chat (λ w r h. true_not_false _ r h) weights chat.request,
)
