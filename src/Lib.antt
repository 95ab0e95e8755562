-- ===== src/Lib.antt =====
-- AIVirTeach Server: a verification library for the learning platform's API (apps/api/src).
--
-- The program. A learner enrolls in a course, reads its lessons and marks them as completed, talks to
-- a teaching agent whose tokens count against a quota, and works on a virtual machine that Labs, a
-- remote service, runs. Postgres (behind Prisma) holds the state; each HTTP request, each background
-- task and each sweep is a handler that reads and writes it.
--
-- How handlers are modelled. `Process` (Process.antt) is a handler as a tree of committed changes and
-- requests to other services; `transaction` commits the statements of `prisma.$transaction` in one
-- step, `query` and `execute` one statement. `Process.Contract` has the system of all handlers: a step
-- lets any of them commit once or get one reply, starts another, or moves the clock, so handlers
-- interleave at every `await`. `Safe` says that a handler keeps an invariant, and sends only allowed
-- requests, whatever the others do that keep it too; `Reaches-IsSafe` carries this to every
-- configuration reached. `Process.Drive` runs one handler alone, on fuel, against an oracle: 20 steps
-- in the tests, 5 for a refresh, whose longest refused run makes three commits, and for a failed
-- login, which makes four, 4 for the saving of a reply, which makes three steps at most, and 6 for
-- the reset of an operator, which makes five.
-- `Process.Steady` is for handlers that rely on what they have read: a fact that only grows still
-- holds when they act on it.
-- `Process.Refusal` has the processes that end in an exception whatever happens around them.
--
-- The parts, by file:
--   * Common: Boolean tests, lists, tables of rows (find_first, update_rows, delete_rows).
--   * Database, Database/Rows: the tables of apps/api/prisma/schema.prisma that the services share, and
--     their statements; audit/audit.service.ts; the broadcast of workspace/workspace.gateway.ts.
--   * Workspace: apps/api/src/workspace/workspace.service.ts. Transactions has the reservation of a
--     provision and its attachment; Provision has scheduleProvision, provisionInBackground and
--     cleanupProvision; Reset has finishReset and sweepResets; Create has getForEnrollment and create;
--     Power has start, stop, stopWorkspace, heartbeat, sweepIdle, rebuildMissingVm; Console has the
--     two console methods. Labs' calls (workspace/labs-client.ts) are requests: any reply may come,
--     but a VM that was created has the name it was asked for. Invariant has the invariant and its
--     statements, Safety the methods that keep it, System the interleavings.
--   * Learning: apps/api/src/enrollments/learning-state.ts, and in View learning-progress-view.ts.
--   * TokenUsage: apps/api/src/token-usage, the quota and what it counts.
--   * Enrollments: the transactions of apps/api/src/enrollments/enrollments.service.ts. Active has
--     enroll, Progress has writeProgress, Restart has restart and createSnapshot, and Settlement what
--     a restart charges. Pointers has remapPublishedReadingPointers, and View what
--     listForUser and getProgress show.
--   * Chat: apps/api/src/chat/chat.service.ts and enrollments/assert-current-enrollment.ts. Prepare has
--     prepareMessage and getMessages, Reply has sendMessage and saveAgentReply, Stream has
--     streamPrepared, whose yields are requests. The agent's answers and frames are replies; a frame's
--     text is what JSON.parse and the schema find in it. Talks says what an event stream is, Quiet
--     and Protocol that the code makes one, Charges and Billing what a reply costs.
--     Sse has chat/sse-parser.ts, on the chunks of text up to the end of the stream; its inner loop
--     has the length of the buffer as fuel, and each frame takes two characters off it.
--   * OperatorAuth: apps/api/src/operator-auth and, in Admin, apps/api/src/admin/operator-admin.service.ts,
--     in a database of their own. Guard has the guard of the admin routes. Barred has what bars an
--     operator as a record of laws, which Lock and Disabled fill, and Counting describes the lock by
--     itself. The email schema is a parameter, and the memo of the dummy hash is left out.
--   * Publishing: apps/api/src/admin/progress-remap.ts, and how course-publish.service.ts uses it.
--   * Auth: apps/api/src/auth/auth.service.ts, in a database of its own; Accounts has acceptInvitation,
--     login and logout. Passwords, signatures and random tokens are requests, `hash` is a parameter.
--
--   * Drafts: apps/api/src/admin/draft, in a database of its own that holds the learners' tables as one
--     field. Course has course-draft.service.ts and Create course-create.service.ts; Content, with Lesson,
--     Assessment and Reorder, has draft-content.service.ts; Publish has admin/course-publish.service.ts and
--     admin/publish-validation.ts. A version holds the rows of its modules and lessons. Placed has the
--     tables with a position below a parent, where every statement is checked against the unique
--     indexes. Copy is about the copy of a version, Single about the drafts of one course, and System
--     has the interleavings of the calls. The validation of a lesson and of the metadata, the measures
--     of a JSON text and the temporary content ids of a reordering are parameters.
--
-- Abstractions. Ids and time stamps are numbers, a generated id is fresh, and JSON columns have the
-- type that the code parses them to. The names of VMs are the texts that the code builds, as data.
-- Token weights and their sums are doubles, as multiples of 2^-1074, and TokenUsage.Double rounds them
-- to nearest even; its search of the last digit has the number itself as fuel. The percentage of the
-- progress is the code's formula over an interface of double operations with their IEEE laws. A row
-- lock is the atomicity of its transaction.
--
-- Not modelled: the HTTP client of Labs and of the agent, controllers and schemas, the ingestion and
-- conversion of courses, the assets, the dashboard and the admin application; of the enrollments
-- service, the reading of snapshots. Clients that disconnect, which end a stream at a yield, are not
-- modelled either.
pub mod Common
pub mod Process
pub mod Database
pub mod Learning
pub mod TokenUsage
pub mod Workspace
pub mod Enrollments
pub mod Auth
pub mod Chat
pub mod OperatorAuth
pub mod Publishing
pub mod Drafts
