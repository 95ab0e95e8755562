-- ===== src/Process/Refusal.antt =====
-- A process that never returns: each of its ends is an exception.
use aivirteach_server.Common.{◌≡◌, refl, Bool, true, false, if◌then◌else◌}
use aivirteach_server.Process.{Process, pure, fail, atomic, request, attempt, ◌>>=◌, query, send}
use aivirteach_server.Process.Contract.{Contract}

module _ {W Q : Type 0} {R : Q → Type 0} (C : Contract W Q R) where
  -- Whatever worlds with the invariant it meets, and whatever good replies it gets.
  abbrev pub Refuses : {A : Type 0} → Process W Q R A → Type 0
  Refuses (pure a) = ⊥
  Refuses (fail e) = Unit {0}
  Refuses (atomic f k) = (w : W) → C.inv w → Refuses (k w)
  Refuses (request q k) = (r : R q) → C.good q r → Refuses (k r)

  pub Refuses-bind :
      {A B : Type 0} (m : Process W Q R A) (f : A → Process W Q R B)
      → ((a : A) → Refuses (f a))
      → Refuses (m >>= f)
  unfolding attempt
  Refuses-bind (pure a) f s = s a
  Refuses-bind (fail e) f s = tt
  Refuses-bind (atomic u k) f s = λ w i. Refuses-bind (k w) f s
  Refuses-bind (request q k) f s = λ r g. Refuses-bind (k r) f s

  pub Refuses-query :
      {A B : Type 0} (g : W → A) (f : A → Process W Q R B)
      → ((w : W) → C.inv w → Refuses (f (g w)))
      → Refuses (query g >>= f)
  unfolding query attempt
  Refuses-query g f s = s

  pub Refuses-send :
      {B : Type 0} (q : Q) (f : R q → Process W Q R B)
      → ((r : R q) → C.good q r → Refuses (f r))
      → Refuses (send q >>= f)
  unfolding send attempt
  Refuses-send q f s = s

  pub Refuses-if :
      {A : Type 0} (b : Bool) (m n : Process W Q R A)
      → (b ≡ true → Refuses m)
      → (b ≡ false → Refuses n)
      → Refuses (if b then m else n)
  Refuses-if true m n sm sn = sm refl
  Refuses-if false m n sm sn = sn refl
