-- ===== src/Workspace/Console.antt =====
-- workspace.service.ts: `createConsoleSession` and `exchangeConsoleToken`.
use aivirteach_server.Common.{ℕ, true, false, String, Option, none, some, if◌then◌else◌, str_eq}
use aivirteach_server.Process.{pure, fail, ◌>>=◌, ◌>>◌, send, not_found, conflict, HttpError}
use aivirteach_server.Database.{is_status}
use aivirteach_server.Database.Rows.{Workspace, running, plain}
use aivirteach_server.Workspace.{
  Task, LabsResult, ok, failed, BrowserSession, GuacamoleToken, create_browser_session,
  exchange_guacamole_token, asserted_lab_id, find_by_enrollment, or_throw, by_user, audit,
  require_owned_enrollment,
}

abbrev pub session_answered : ℕ → Workspace → LabsResult BrowserSession → Task BrowserSession
session_answered user_id workspace (failed message) = do
  audit (by_user user_id) "workspace.console-session" false workspace.id none plain
  fail (HttpError.bad_gateway message)
session_answered user_id workspace (ok session) =
    if str_eq session.state "ready"
    then (do
      audit (by_user user_id) "workspace.console-session" true workspace.id none plain
      pure session)
    else pure session

unfoldable pub create_console_session : ℕ → ℕ → Task BrowserSession
create_console_session user_id enrollment_id = do
  enrollment ← require_owned_enrollment user_id enrollment_id
  found ← find_by_enrollment enrollment.id
  workspace ← or_throw not_found found
  if is_status running workspace
      then (do
        session ← send (create_browser_session (asserted_lab_id workspace) user_id)
        session_answered user_id workspace session)
      else fail conflict

abbrev pub token_answered : LabsResult GuacamoleToken → Task GuacamoleToken
token_answered (ok token) = pure token
token_answered (failed message) = fail (HttpError.bad_gateway message)

abbrev pub exchange_with : String → Option Workspace → Task GuacamoleToken
exchange_with ticket none = fail conflict
exchange_with ticket (some workspace) =
    if is_status running workspace
    then (do token ← send (exchange_guacamole_token ticket); token_answered token)
    else fail conflict

unfoldable pub exchange_console_token : ℕ → ℕ → String → Task GuacamoleToken
exchange_console_token user_id enrollment_id ticket = do
  enrollment ← require_owned_enrollment user_id enrollment_id
  found ← find_by_enrollment enrollment.id
  exchange_with ticket found
