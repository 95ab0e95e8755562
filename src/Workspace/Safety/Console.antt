-- ===== src/Workspace/Safety/Console.antt =====
-- `createConsoleSession` and `exchangeConsoleToken` are safe.
use aivirteach_server.Common.{ℕ, refl, true, false, String, none, str_eq}
use aivirteach_server.Process.{not_found}
use aivirteach_server.Process.Contract.{Safe-if, Safe-send}
use aivirteach_server.Database.{is_status}
use aivirteach_server.Database.Rows.{Workspace, running, plain}
use aivirteach_server.Workspace.{
  LabsResult, ok, failed, BrowserSession, GuacamoleToken, create_browser_session,
  exchange_guacamole_token, asserted_lab_id, by_user,
}
use aivirteach_server.Workspace.Console.{
  session_answered, create_console_session, token_answered, exchange_console_token,
}
use aivirteach_server.Workspace.Safety.{
  workspace_contract, IsSafe, Safe-require_by_enrollment, Safe-find_by_enrollment,
  Safe-require_owned, Safe-audit,
}
use aivirteach_server.Workspace.Safety.Power.{asserted-is_named, up_of_running}

session_answered-IsSafe :
    (user_id : ℕ) (r : Workspace) (o : LabsResult BrowserSession)
    → IsSafe (session_answered user_id r o)
session_answered-IsSafe user_id r (failed message) =
    Safe-audit (by_user user_id) "workspace.console-session" false r.id none plain _ tt
session_answered-IsSafe user_id r (ok session) =
    Safe-if workspace_contract (str_eq session.state "ready") _ _
      (λ t. Safe-audit (by_user user_id) "workspace.console-session" true r.id none plain _ tt)
      (λ t. tt)

-- A console session is asked for a VM that exists.
pub create_console_session-IsSafe :
    (user_id enrollment_id : ℕ) → IsSafe (create_console_session user_id enrollment_id)
unfolding create_console_session
create_console_session-IsSafe user_id enrollment_id =
    Safe-require_owned user_id enrollment_id _ (λ e.
      Safe-require_by_enrollment e.id not_found _ (λ r u.
        Safe-if workspace_contract (is_status running r) _ _
          (λ t.
            Safe-send workspace_contract (create_browser_session (asserted_lab_id r) user_id) _
              (asserted-is_named r u (up_of_running r t))
              (λ o g. session_answered-IsSafe user_id r o))
          (λ t. tt)))

token_answered-IsSafe : (o : LabsResult GuacamoleToken) → IsSafe (token_answered o)
token_answered-IsSafe (ok token) = tt
token_answered-IsSafe (failed message) = tt

pub exchange_console_token-IsSafe :
    (user_id enrollment_id : ℕ) (ticket : String)
    → IsSafe (exchange_console_token user_id enrollment_id ticket)
unfolding exchange_console_token
exchange_console_token-IsSafe user_id enrollment_id ticket =
    Safe-require_owned user_id enrollment_id _ (λ e. Safe-find_by_enrollment e.id _ tt (λ r u.
      Safe-if workspace_contract (is_status running r) _ _
        (λ t.
          Safe-send workspace_contract (exchange_guacamole_token ticket) _ refl
            (λ o g. token_answered-IsSafe o))
        (λ t. tt)))
