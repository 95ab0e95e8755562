-- ===== src/Auth/Tests.antt =====
-- Runs of the auth service where a revoked token is used again.
use aivirteach_server.Common.{◌≡◌, refl, true, none, some, [], ◌∷◌, count_rows}
use aivirteach_server.Process.{fail, unauthorized}
use aivirteach_server.Process.Contract.{Reaches, Step}
use aivirteach_server.Process.Drive.{drive, drive-Reaches}
use aivirteach_server.Auth.{
  User, active, RefreshToken, AuthDatabase, AuthRequest, AuthReply, AuthTask, AuthEnv,
  hash_password, verify_password, sign_access_token, generate_opaque_token, refresh, find_token,
  is_live,
}
use aivirteach_server.Auth.Revocation.{is_revoked}
use aivirteach_server.Auth.System.{
  auth_contract, refreshes, handler, Starts, Moves, idle_config, runs_keep_revoked,
}
use aivirteach_server.Auth.Replay.{Refuses, refresh-Refuses, refresh-revokes_family}

abbrev test_env : AuthEnv
test_env = record { hash = λ s. s; access_token_ttl = 900; refresh_token_ttl_days = 30 }

abbrev learner : User
learner = record { id = 7; email = "a@b.c"; password_hash = some "argon"; status = active }

abbrev rotated_token : RefreshToken
rotated_token = record {
  id = 1;
  user_id = 7;
  token_hash = "old";
  expires_at = 9000;
  revoked_at = some 500;
  replaced_by = some 2;
}

abbrev current_token : RefreshToken
current_token = record {
  id = 2;
  user_id = 7;
  token_hash = "new";
  expires_at = 9000;
  revoked_at = none;
  replaced_by = none;
}

abbrev auth_world : AuthDatabase
auth_world = record {
  now = 1000;
  next_id = 3;
  users = learner ∷ [];
  invitations = [];
  refresh_tokens = current_token ∷ rotated_token ∷ [];
  audit_events = [];
}

abbrev external : (q : AuthRequest) → AuthReply q
external (hash_password p) = p
external (verify_password h p) = true
external (sign_access_token u e) = "jwt"
external generate_opaque_token = "fresh"

-- The current token is rotated.
refreshed : AuthDatabase × AuthTask (Unit {0})
unfolding drive
refreshed = drive external 20 auth_world (handler test_env (refreshes "new"))

refreshed_runs :
    Reaches
      (auth_contract "old")
      (Starts test_env)
      Moves
      (idle_config auth_world)
      (record { world = refreshed.0; running = refreshed.1 ∷ [] })
unfolding refreshed
refreshed_runs =
    drive-Reaches external (auth_contract "old") (Starts test_env) Moves (λ q. tt) 20 auth_world
      (handler test_env (refreshes "new")) []
      (Reaches.next Reaches.here
        (Step.start (handler test_env (refreshes "new")) (refreshes "new", refl) refl))

runs_keep_revoked_example : is_revoked "old" refreshed.0 ≡ true
runs_keep_revoked_example =
    runs_keep_revoked "old" test_env auth_world
      (record { world = refreshed.0; running = refreshed.1 ∷ [] }) refl refreshed_runs

refresh-Refuses_example : Refuses "old" (refresh test_env "old")
refresh-Refuses_example = refresh-Refuses test_env "old"

refresh-revokes_family_example :
    ((drive external 5 auth_world (refresh test_env "old")).1 ≡ fail unauthorized)
    × (count_rows
          (is_live 7)
          (drive external 5 auth_world (refresh test_env "old")).0.refresh_tokens
        ≡ 0)
unfolding find_token
refresh-revokes_family_example =
    refresh-revokes_family external test_env "old" auth_world rotated_token learner refl refl
