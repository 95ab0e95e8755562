-- ===== src/Process/Contract.antt =====
-- What a process keeps and sends whatever the others do, and the system of all processes.
use aivirteach_server.Common.{
  ◌≡◌, refl, Bool, true, false, List, ◌∷◌, ◌++◌, if◌then◌else◌, All, All-at, All-replace,
}
use aivirteach_server.Process.{
  HttpError, Outcome, committed, aborted, Process, pure, fail, atomic, request, attempt, ◌>>=◌,
  after, answer, transaction, query, execute, send,
}

-- An invariant of the world, the requests that may be sent, and the replies that may come.
pub record Contract (W Q : Type 0) (R : Q → Type 0) : Type 1 where
  pub inv : W → Type 0
  pub allowed : Q → Type 0
  pub good : (q : Q) → R q → Type 0

module _ {W Q : Type 0} {R : Q → Type 0} (C : Contract W Q R) where
  -- Each commit keeps the invariant in every world that has it, and each request is allowed.
  abbrev pub Safe : {A : Type 0} → Process W Q R A → Type 0
  Safe (pure a) = Unit {0}
  Safe (fail e) = Unit {0}
  Safe (atomic f k) = (w : W) → C.inv w → C.inv (f w) × Safe (k w)
  Safe (request q k) = C.allowed q × ((r : R q) → C.good q r → Safe (k r))

  pub Safe-attempt :
      {A B : Type 0} (m : Process W Q R A) (f : A → Process W Q R B)
      (g : HttpError → Process W Q R B)
      → Safe m
      → ((a : A) → Safe (f a))
      → ((e : HttpError) → Safe (g e))
      → Safe (attempt m f g)
  unfolding attempt
  Safe-attempt (pure a) f g s sf sg = sf a
  Safe-attempt (fail e) f g s sf sg = sg e
  Safe-attempt (atomic u k) f g s sf sg = λ w i. ((s w i).0, Safe-attempt (k w) f g (s w i).1 sf sg)
  Safe-attempt (request q k) f g s sf sg = (s.0, λ r h. Safe-attempt (k r) f g (s.1 r h) sf sg)

  pub Safe-bind :
      {A B : Type 0} (m : Process W Q R A) (f : A → Process W Q R B)
      → Safe m
      → ((a : A) → Safe (f a))
      → Safe (m >>= f)
  Safe-bind m f s sf = Safe-attempt m f fail s sf (λ e. tt)

  -- What follows a read may use the invariant of the world that it read.
  pub Safe-query :
      {A B : Type 0} (g : W → A) (f : A → Process W Q R B)
      → ((w : W) → C.inv w → Safe (f (g w)))
      → Safe (query g >>= f)
  unfolding query attempt
  Safe-query g f s = λ w i. (i, s w i)

  pub Safe-execute :
      {B : Type 0} (u : W → W) (f : Unit {0} → Process W Q R B)
      → ((w : W) → C.inv w → C.inv (u w))
      → Safe (f tt)
      → Safe (execute u >>= f)
  unfolding execute attempt
  Safe-execute u f keeps s = λ w i. (keeps w i, s)

  pub Safe-execute_last : (u : W → W) → ((w : W) → C.inv w → C.inv (u w)) → Safe (execute u)
  unfolding execute
  Safe-execute_last u keeps = λ w i. (keeps w i, tt)

  Safe-answer :
      {A B : Type 0} (o : Outcome W A) (f : A → Process W Q R B)
      → ((a : A) → Safe (f a))
      → Safe (answer o >>= f)
  unfolding attempt
  Safe-answer (committed a w) f s = s a
  Safe-answer (aborted e) f s = tt

  pub Safe-transaction :
      {A B : Type 0} (t : W → Outcome W A) (f : A → Process W Q R B)
      → ((w : W) → C.inv w → C.inv (after w (t w)))
      → ((a : A) → Safe (f a))
      → Safe (transaction t >>= f)
  unfolding transaction attempt
  Safe-transaction t f keeps s = λ w i. (keeps w i, Safe-answer (t w) f s)

  answer_ends : {A : Type 0} (o : Outcome W A) → Safe (answer {W = W} {Q = Q} {R = R} o)
  answer_ends (committed a w) = tt
  answer_ends (aborted e) = tt

  pub Safe-transaction_last :
      {A : Type 0} (t : W → Outcome W A)
      → ((w : W) → C.inv w → C.inv (after w (t w)))
      → Safe (transaction t)
  unfolding transaction
  Safe-transaction_last t keeps = λ w i. (keeps w i, answer_ends (t w))

  pub Safe-send :
      {B : Type 0} (q : Q) (f : R q → Process W Q R B)
      → C.allowed q
      → ((r : R q) → C.good q r → Safe (f r))
      → Safe (send q >>= f)
  unfolding send attempt
  Safe-send q f ok s = (ok, s)

  pub Safe-if :
      {A : Type 0} (b : Bool) (m n : Process W Q R A)
      → (b ≡ true → Safe m)
      → (b ≡ false → Safe n)
      → Safe (if b then m else n)
  Safe-if true m n sm sn = sm refl
  Safe-if false m n sm sn = sn refl

-- The world, and the handlers that are under way in it.
pub record Config (W Q : Type 0) (R : Q → Type 0) : Type 0 where
  pub world : W
  pub running : List (Process W Q R (Unit {0}))

-- One step of the system: a handler commits or gets a reply, a handler starts, or the environment
-- (the clock) moves. `starts` says which handlers may start.
pub data Step {W Q : Type 0} {R : Q → Type 0} (C : Contract W Q R)
    (starts : W → Process W Q R (Unit {0}) → Type 0) (moves : W → W → Type 0) (c d : Config W Q R)
    : Type 0 where
  commit :
      (xs ys : List (Process W Q R (Unit {0}))) (f : W → W) (k : W → Process W Q R (Unit {0}))
      → c.running ≡ xs ++ atomic f k ∷ ys
      → d ≡ record { world = f c.world; running = xs ++ k c.world ∷ ys }
      → Step C starts moves c d
  reply :
      (xs ys : List (Process W Q R (Unit {0}))) (q : Q) (k : R q → Process W Q R (Unit {0}))
      (r : R q)
      → C.good q r
      → c.running ≡ xs ++ request q k ∷ ys
      → d ≡ record { world = c.world; running = xs ++ k r ∷ ys }
      → Step C starts moves c d
  start :
      (p : Process W Q R (Unit {0}))
      → starts c.world p
      → d ≡ record { world = c.world; running = p ∷ c.running }
      → Step C starts moves c d
  move :
      (w : W)
      → moves c.world w
      → d ≡ record { world = w; running = c.running }
      → Step C starts moves c d

pub data Reaches {W Q : Type 0} {R : Q → Type 0} (C : Contract W Q R)
    (starts : W → Process W Q R (Unit {0}) → Type 0) (moves : W → W → Type 0) (c : Config W Q R)
    : Config W Q R → Type 0 where
  here : Reaches C starts moves c c
  next :
      {d e : Config W Q R}
      → Reaches C starts moves c d
      → Step C starts moves d e
      → Reaches C starts moves c e

pub record IsSafe {W Q : Type 0} {R : Q → Type 0} (C : Contract W Q R) (c : Config W Q R)
    : Type 0 where
  pub inv : C.inv c.world
  pub all_safe : All (Safe C) c.running

module _ {W Q : Type 0} {R : Q → Type 0} (C : Contract W Q R)
    (starts : W → Process W Q R (Unit {0}) → Type 0) (moves : W → W → Type 0)
    (starts_safe : (w : W) (p : Process W Q R (Unit {0})) → C.inv w → starts w p → Safe C p)
    (moves_keep : (w w' : W) → C.inv w → moves w w' → C.inv w') where
  Step-IsSafe : {c d : Config W Q R} → Step C starts moves c d → IsSafe C c → IsSafe C d
  Step-IsSafe {c} (commit xs ys f k e e') s =
      let all = rw e at s.all_safe in
      let one = All-at (Safe C) xs (atomic f k) ys all in
      rw e' (record {
        inv = (one c.world s.inv).0;
        all_safe = All-replace (Safe C) xs (atomic f k) (k c.world) ys (one c.world s.inv).1 all;
      })
  Step-IsSafe {c} (reply xs ys q k r g e e') s =
      let all = rw e at s.all_safe in
      let one = All-at (Safe C) xs (request q k) ys all in
      rw e' (record {
        inv = s.inv;
        all_safe = All-replace (Safe C) xs (request q k) (k r) ys (one.1 r g) all;
      })
  Step-IsSafe {c} (start p h e') s =
      rw e' (record { inv = s.inv; all_safe = (starts_safe c.world p s.inv h, s.all_safe) })
  Step-IsSafe {c} (move w h e') s =
      rw e' (record { inv = moves_keep c.world w s.inv h; all_safe = s.all_safe })

  -- Whatever the order in which the handlers take turns.
  pub Reaches-IsSafe : {c d : Config W Q R} → IsSafe C c → Reaches C starts moves c d → IsSafe C d
  Reaches-IsSafe s here = s
  Reaches-IsSafe s (next r st) = Step-IsSafe st (Reaches-IsSafe s r)
