-- ===== src/Process/Steady.antt =====
-- Handlers that rely on what only grows: a fact that a handler has read, and that no step takes back,
-- still holds when it acts on it.
use aivirteach_server.Common.{
  Bool, true, false, List, ◌∷◌, ◌++◌, if◌then◌else◌, All, All-at, All-replace, All-map,
}
use aivirteach_server.Process.{
  HttpError, Outcome, committed, aborted, Process, pure, fail, atomic, request, attempt, ◌>>=◌,
  after, answer, transaction, query,
}
use aivirteach_server.Process.Contract.{Contract, Config, Step, commit, reply, start, move, Reaches}

-- What a later world keeps of an earlier one.
pub record Growth (W : Type 0) : Type 1 where
  pub grows : W → W → Type 0
  pub stays : (w : W) → grows w w
  pub joins : (u v w : W) → grows u v → grows v w → grows u w

module _ {W Q : Type 0} {R : Q → Type 0} (C : Contract W Q R) (G : Growth W) where
  -- From this world on, each commit keeps the invariant, and the world grows.
  abbrev pub Steady : {A : Type 0} → W → Process W Q R A → Type 0
  Steady v (pure a) = Unit {0}
  Steady v (fail e) = Unit {0}
  Steady v (atomic f k) =
      (w : W) → G.grows v w → C.inv w → C.inv (f w) × G.grows w (f w) × Steady (f w) (k w)
  Steady v (request q k) = C.allowed q × ((r : R q) → C.good q r → Steady v (k r))

  pub Steady-later :
      {A : Type 0} (v w : W) (p : Process W Q R A) → G.grows v w → Steady v p → Steady w p
  Steady-later v w (pure a) g s = tt
  Steady-later v w (fail e) g s = tt
  Steady-later v w (atomic f k) g s = λ u h i. s u (G.joins v w u g h) i
  Steady-later v w (request q k) g s = (s.0, λ r h. Steady-later v w (k r) g (s.1 r h))

  pub Steady-attempt :
      {A B : Type 0} (v : W) (m : Process W Q R A) (f : A → Process W Q R B)
      (g : HttpError → Process W Q R B)
      → Steady v m
      → ((w : W) (a : A) → G.grows v w → Steady w (f a))
      → ((w : W) (e : HttpError) → G.grows v w → Steady w (g e))
      → Steady v (attempt m f g)
  unfolding attempt
  Steady-attempt v (pure a) f g s sf sg = sf v a (G.stays v)
  Steady-attempt v (fail e) f g s sf sg = sg v e (G.stays v)
  Steady-attempt v (atomic u k) f g s sf sg = λ w h i.
      let one = s w h i in
      let far = G.joins v w (u w) h one.1 in
      (
        one.0,
        one.1,
        Steady-attempt (u w) (k w) f g one.2 (λ x a l. sf x a (G.joins v (u w) x far l))
            (λ x e l. sg x e (G.joins v (u w) x far l)),
      )
  Steady-attempt v (request q k) f g s sf sg =
      (s.0, λ r h. Steady-attempt v (k r) f g (s.1 r h) sf sg)

  pub Steady-bind :
      {A B : Type 0} (v : W) (m : Process W Q R A) (f : A → Process W Q R B)
      → Steady v m
      → ((w : W) (a : A) → G.grows v w → Steady w (f a))
      → Steady v (m >>= f)
  Steady-bind v m f s sf = Steady-attempt v m f fail s sf (λ w e l. tt)

  -- What follows a read may rely on what it read.
  pub Steady-query :
      {A B : Type 0} (v : W) (g : W → A) (f : A → Process W Q R B)
      → ((w : W) → G.grows v w → C.inv w → Steady w (f (g w)))
      → Steady v (query g >>= f)
  unfolding query attempt
  Steady-query v g f s = λ w h i. (i, G.stays w, s w h i)

  answer_ends : {A : Type 0} (v : W) (o : Outcome W A) → Steady v (answer {W = W} {Q = Q} {R = R} o)
  answer_ends v (committed a w) = tt
  answer_ends v (aborted e) = tt

  pub Steady-transaction :
      {A : Type 0} (v : W) (t : W → Outcome W A)
      → ((w : W) → G.grows v w → C.inv w → C.inv (after w (t w)) × G.grows w (after w (t w)))
      → Steady v (transaction t)
  unfolding transaction
  Steady-transaction v t keeps =
      λ w h i. ((keeps w h i).0, (keeps w h i).1, answer_ends (after w (t w)) (t w))

  pub Steady-if :
      {A : Type 0} (v : W) (b : Bool) (m n : Process W Q R A)
      → Steady v m
      → Steady v n
      → Steady v (if b then m else n)
  Steady-if v true m n sm sn = sm
  Steady-if v false m n sm sn = sn

  pub record IsSteady (c : Config W Q R) : Type 0 where
    pub inv : C.inv c.world
    pub all_steady : All (Steady c.world) c.running

  module _ (starts : W → Process W Q R (Unit {0}) → Type 0) (moves : W → W → Type 0)
      (starts_steady : (w : W) (p : Process W Q R (Unit {0})) → C.inv w → starts w p → Steady w p)
      (moves_keep : (w w' : W) → C.inv w → moves w w' → C.inv w' × G.grows w w') where
    All-later :
        (v w : W) (ps : List (Process W Q R (Unit {0})))
        → G.grows v w
        → All (Steady v) ps
        → All (Steady w) ps
    All-later v w ps g a = All-map (Steady v) (Steady w) ps (λ p s. Steady-later v w p g s) a

    Step-IsSteady : {c d : Config W Q R} → Step C starts moves c d → IsSteady c → IsSteady d
    Step-IsSteady {c} (commit xs ys f k e e') s =
        let all = rw e at s.all_steady in
        let one = All-at (Steady c.world) xs (atomic f k) ys all in
        let now = one c.world (G.stays c.world) s.inv in
        rw e' (record {
          inv = now.0;
          all_steady =
              All-replace (Steady (f c.world)) xs (atomic f k) (k c.world) ys now.2
                (All-later c.world (f c.world) (xs ++ atomic f k ∷ ys) now.1 all);
        })
    Step-IsSteady {c} (reply xs ys q k r g e e') s =
        let all = rw e at s.all_steady in
        let one = All-at (Steady c.world) xs (request q k) ys all in
        rw e' (record {
          inv = s.inv;
          all_steady = All-replace (Steady c.world) xs (request q k) (k r) ys (one.1 r g) all;
        })
    Step-IsSteady {c} (start p h e') s =
        rw e' (record { inv = s.inv; all_steady = (starts_steady c.world p s.inv h, s.all_steady) })
    Step-IsSteady {c} (move w h e') s =
        let kept = moves_keep c.world w s.inv h in
        rw e'
          (record { inv = kept.0; all_steady = All-later c.world w c.running kept.1 s.all_steady })

    -- Whatever the order in which the handlers take turns.
    pub Reaches-IsSteady :
        {c d : Config W Q R} → IsSteady c → Reaches C starts moves c d → IsSteady d
    Reaches-IsSteady s (Reaches.here) = s
    Reaches-IsSteady s (Reaches.next r st) = Step-IsSteady st (Reaches-IsSteady s r)

    Step-grows :
        {c d : Config W Q R} → Step C starts moves c d → IsSteady c → G.grows c.world d.world
    Step-grows {c} (commit xs ys f k e e') s = rw e' (
        (All-at (Steady c.world) xs (atomic f k) ys (rw e at s.all_steady) c.world (G.stays c.world)
          s.inv).1)
    Step-grows {c} (reply xs ys q k r g e e') s = rw e' (G.stays c.world)
    Step-grows {c} (start p h e') s = rw e' (G.stays c.world)
    Step-grows {c} (move w h e') s = rw e' (moves_keep c.world w s.inv h).1

    -- and the world grows all the way
    pub Reaches-grows :
        {c d : Config W Q R} → IsSteady c → Reaches C starts moves c d → G.grows c.world d.world
    Reaches-grows {c} s (Reaches.here) = G.stays c.world
    Reaches-grows {c} {d} s (Reaches.next {d = m} r st) =
        G.joins c.world m.world d.world (Reaches-grows s r) (Step-grows st (Reaches-IsSteady s r))
