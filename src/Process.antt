-- ===== src/Process.antt =====
-- A request handler as a process: the statements and transactions that it commits one by one, and
-- the requests that it sends to other services in between. Between two of these any other handler
-- may run, so an `await` is where the world can change.
pub mod Contract
pub mod Drive
pub mod Refusal
pub mod Steady
use aivirteach_server.Common.{String, Option, none, some}

-- The exceptions that the services throw. A message is kept where the code computes it.
pub data HttpError : Type 0 where
  not_found conflict forbidden unauthorized unique_violation stale_enrollment stale_provision
        validation_error bad_request unprocessable :
      HttpError
  bad_gateway : String → HttpError

-- The statements of one database transaction, which commits or rolls back as a whole.
pub data Outcome (W A : Type 0) : Type 0 where
  committed : A → W → Outcome W A
  aborted : HttpError → Outcome W A

pub data Process (W Q : Type 0) (R : Q → Type 0) (A : Type 0) : Type 0 where
  pure : A → Process W Q R A
  fail : HttpError → Process W Q R A
  -- one committed change; the rest sees the world before it
  atomic : (W → W) → (W → Process W Q R A) → Process W Q R A
  request : (q : Q) → (R q → Process W Q R A) → Process W Q R A

module _ {W Q : Type 0} {R : Q → Type 0} {A B : Type 0} where
  -- `try { a = await m } catch (e) { ... }`, and what comes after
  unfoldable pub attempt :
      Process W Q R A → (A → Process W Q R B) → (HttpError → Process W Q R B) → Process W Q R B
  attempt (pure a) f g = f a
  attempt (fail e) f g = g e
  attempt (atomic u k) f g = atomic u (λ w. attempt (k w) f g)
  attempt (request q k) f g = request q (λ r. attempt (k r) f g)

  infixl 5 ◌>>=◌ ◌>>◌
  abbrev pub ◌>>=◌ : Process W Q R A → (A → Process W Q R B) → Process W Q R B
  m >>= f = attempt m f fail

  abbrev pub ◌>>◌ : Process W Q R A → Process W Q R B → Process W Q R B
  m >> n = m >>= λ _. n

abbrev pub after : {W A : Type 0} → W → Outcome W A → W
after w (committed a w') = w'
after w (aborted e) = w

module _ {W Q : Type 0} {R : Q → Type 0} {A : Type 0} where
  abbrev pub answer : Outcome W A → Process W Q R A
  answer (committed a w') = pure a
  answer (aborted e) = fail e

  -- `await prisma.$transaction(...)`
  unfoldable pub transaction : (W → Outcome W A) → Process W Q R A
  transaction t = atomic (λ w. after w (t w)) (λ w. answer (t w))

  -- a read
  unfoldable pub query : (W → A) → Process W Q R A
  query f = atomic (λ w. w) (λ w. pure (f w))

module _ {W Q : Type 0} {R : Q → Type 0} where
  -- a write whose result nobody reads
  unfoldable pub execute : (W → W) → Process W Q R (Unit {0})
  execute f = atomic f (λ w. pure tt)

  unfoldable pub send : (q : Q) → Process W Q R (R q)
  send q = request q (λ r. pure r)
