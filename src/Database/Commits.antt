-- ===== src/Database/Commits.antt =====
-- What a committed transaction says of its statements.
use aivirteach_server.Common.{◌≡◌, refl}
use aivirteach_server.Process.{HttpError, Outcome, committed, aborted}
use aivirteach_server.Database.{Database, Transaction, continue, ◌>>=◌}

continue_commits :
    {A B : Type 0} (o : Outcome Database A) (f : A → Transaction B) (b : B) (v : Database)
    → continue o f ≡ committed b v
    → (a : A) × (u : Database) × (o ≡ committed a u) × (f a u ≡ committed b v)
continue_commits (committed a u) f b v h = (a, u, refl, h)
continue_commits (aborted e) f b v h = cc

-- A sequence that committed has committed both its parts.
pub bind_commits :
    {A B : Type 0} (t : Transaction A) (f : A → Transaction B) (w v : Database) (b : B)
    → (t >>= f) w ≡ committed b v
    → (a : A) × (u : Database) × (t w ≡ committed a u) × (f a u ≡ committed b v)
bind_commits t f w v b h = continue_commits (t w) f b v h

pub returned :
    {A : Type 0} (x p : A) (w v : Database) → committed x w ≡ committed p v → (p ≡ x) × (v ≡ w)
returned x p w v h = (cc, cc)

pub abort_apart :
    {A C : Type 0} (e : HttpError) (a : A) (w : Database) → aborted e ≡ committed a w → C
abort_apart e a w h = cc
