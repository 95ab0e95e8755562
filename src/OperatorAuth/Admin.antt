-- ===== src/OperatorAuth/Admin.antt =====
-- admin/operator-admin.service.ts: accounts of operators are added, reset and disabled by a command.
use aivirteach_server.Common.{
  ℕ, suc, Bool, true, false, String, Option, none, some, ◌∷◌, if◌then◌else◌, str_eq, any,
  update_rows,
}
use aivirteach_server.Process.{
  pure, fail, ◌>>=◌, ◌>>◌, query, execute, transaction, send, Outcome, committed, aborted, conflict,
  not_found, unique_violation, validation_error,
}
use aivirteach_server.OperatorAuth.{
  Operator, active, disabled, OperatorAction, add_action, reset_action, disable_action,
  OperatorDatabase, OperatorTask, OperatorEnv, hash_password, generate_password, find_operator,
  has_id, record_event,
}

pub record OperatorChangeContext : Type 0 where
  pub operator : String
  pub reason : String
  pub execute_it : Bool

pub record OperatorChangeResult : Type 0 where
  pub dry_run : Bool
  pub email : String
  pub password : Option String

-- a lookup by email that may find nothing
abbrev pub or_fail : {A : Type 0} → Option A → OperatorTask A
or_fail none = fail not_found
or_fail (some a) = pure a

-- `EmailSchema.parse`
abbrev pub parsed : OperatorEnv → String → OperatorTask String
parsed env raw = valid (env.parse_email raw)
  where
    valid : Option String → OperatorTask String
    valid none = fail validation_error
    valid (some email) = pure email

unfoldable pub record_change : OperatorAction → ℕ → OperatorChangeContext → OperatorTask (Unit {0})
record_change action id ctx = execute (
    record_event (record {
      actor = ctx.operator;
      action = action;
      success = true;
      target_id = some id;
      reason = some ctx.reason;
    }))

-- `UPDATE "Operator" SET "passwordChangedAt" = now() WHERE "email" = ...`
abbrev pub stamp_password_changed : String → OperatorDatabase → OperatorDatabase
stamp_password_changed email w = record w {
  operators =
      update_rows (λ (o : Operator). str_eq o.email email)
        (λ (o : Operator). record o { password_changed_at = w.now }) w.operators;
}

abbrev pub new_operator : String → String → OperatorDatabase → Operator
new_operator email password_hash w = record {
  id = w.next_id;
  email = email;
  password_hash = password_hash;
  status = active;
  failed_login_count = 0;
  locked_until = none;
  password_changed_at = w.now;
}

-- operator.create, under the unique index on the email, and the stamp
unfoldable pub create_operator : String → String → OperatorDatabase → Outcome OperatorDatabase ℕ
create_operator email password_hash w =
    if any (λ (o : Operator). str_eq o.email email) w.operators
    then aborted unique_violation
    else committed w.next_id (
        stamp_password_changed email (record w {
          operators = new_operator email password_hash w ∷ w.operators;
          next_id = suc w.next_id;
        }))

abbrev pub created_account : String → OperatorChangeContext → OperatorTask OperatorChangeResult
created_account email ctx = do
  password ← send generate_password
  password_hash ← send (hash_password password)
  id ← transaction (create_operator email password_hash)
  record_change add_action id ctx
  pure (record { dry_run = false; email = email; password = some password })

abbrev pub dry_run_of : String → OperatorTask OperatorChangeResult
dry_run_of email = pure (record { dry_run = true; email = email; password = none })

abbrev pub add_to :
    String → OperatorChangeContext → Option Operator → OperatorTask OperatorChangeResult
add_to email ctx (some existing) = fail conflict
add_to email ctx none = if ctx.execute_it then created_account email ctx else dry_run_of email

unfoldable pub add :
    OperatorEnv → String → OperatorChangeContext → OperatorTask OperatorChangeResult
add env raw_email ctx = do
  email ← parsed env raw_email
  existing ← query (find_operator email)
  add_to email ctx existing

-- operator.update by id; a row that is gone is an error
unfoldable pub update_operator :
    ℕ
    → (Operator → Operator)
    → (OperatorDatabase → OperatorDatabase)
    → OperatorDatabase
    → Outcome OperatorDatabase (Unit {0})
update_operator id f g w =
    if any (has_id id) w.operators
    then committed tt (g (record w { operators = update_rows (has_id id) f w.operators }))
    else aborted not_found

abbrev pub new_password : String → Operator → Operator
new_password password_hash o = record o {
  password_hash = password_hash;
  failed_login_count = 0;
  locked_until = none;
}

abbrev pub reset_account :
    String → OperatorChangeContext → Operator → OperatorTask OperatorChangeResult
reset_account email ctx operator = do
  password ← send generate_password
  password_hash ← send (hash_password password)
  transaction
      (update_operator operator.id (new_password password_hash) (stamp_password_changed email))
  record_change reset_action operator.id ctx
  pure (record { dry_run = false; email = email; password = some password })

unfoldable pub reset :
    OperatorEnv → String → OperatorChangeContext → OperatorTask OperatorChangeResult
reset env raw_email ctx = do
  email ← parsed env raw_email
  found ← query (find_operator email)
  operator ← or_fail found
  if ctx.execute_it then reset_account email ctx operator else dry_run_of email

abbrev pub disable_row : Operator → Operator
disable_row o = record o { status = disabled }

abbrev pub disable_account :
    String → OperatorChangeContext → Operator → OperatorTask OperatorChangeResult
disable_account email ctx operator = do
  transaction (update_operator operator.id disable_row (λ w. w))
  record_change disable_action operator.id ctx
  pure (record { dry_run = false; email = email; password = none })

unfoldable pub disable :
    OperatorEnv → String → OperatorChangeContext → OperatorTask OperatorChangeResult
disable env raw_email ctx = do
  email ← parsed env raw_email
  found ← query (find_operator email)
  operator ← or_fail found
  if ctx.execute_it then disable_account email ctx operator else dry_run_of email
