-- ===== src/Process/Drive.antt =====
-- A process that runs with nobody else in between, against an oracle that answers its requests.
use aivirteach_server.Common.{◌≡◌, ap, ℕ, zero, suc, refl, List, [], ◌∷◌}
use aivirteach_server.Process.{
  Process, pure, fail, atomic, request, Outcome, committed, after, answer, attempt, transaction,
  ◌>>=◌,
}
use aivirteach_server.Process.Contract.{Contract, Config, Step, Reaches}

module _ {W Q : Type 0} {R : Q → Type 0} (oracle : (q : Q) → R q) where
  -- at most so many commits and requests
  unfoldable pub drive : {A : Type 0} → ℕ → W → Process W Q R A → W × Process W Q R A
  drive zero w p = (w, p)
  drive (suc n) w (pure a) = (w, pure a)
  drive (suc n) w (fail e) = (w, fail e)
  drive (suc n) w (atomic f k) = drive n (f w) (k w)
  drive (suc n) w (request q k) = drive n w (k (oracle q))

  module _ (C : Contract W Q R) (starts : W → Process W Q R (Unit {0}) → Type 0)
      (moves : W → W → Type 0) (honest : (q : Q) → C.good q (oracle q)) {c : Config W Q R} where
    -- Such a run is one of the interleavings.
    pub drive-Reaches :
        (n : ℕ) (w : W) (p : Process W Q R (Unit {0})) (ps : List (Process W Q R (Unit {0})))
        → Reaches C starts moves c (record { world = w; running = p ∷ ps })
        → Reaches C starts moves c
            (record { world = (drive n w p).0; running = (drive n w p).1 ∷ ps })
    unfolding drive
    drive-Reaches zero w p ps r = r
    drive-Reaches (suc n) w (pure a) ps r = r
    drive-Reaches (suc n) w (fail e) ps r = r
    drive-Reaches (suc n) w (atomic f k) ps r =
        drive-Reaches n (f w) (k w) ps (Reaches.next r (Step.commit [] ps f k refl refl))
    drive-Reaches (suc n) w (request q k) ps r =
        drive-Reaches n w (k (oracle q)) ps
          (Reaches.next r (Step.reply [] ps q k (oracle q) (honest q) refl refl))

  -- A transaction that commits takes one step.
  pub drive-transaction :
      {A B : Type 0} (n : ℕ) (w w' : W) (t : W → Outcome W A) (a : A) (f : A → Process W Q R B)
      → t w ≡ committed a w'
      → drive (suc n) w (transaction t >>= f) ≡ drive n w' (f a)
  unfolding drive transaction attempt
  drive-transaction n w w' t a f h = ap (λ o. drive n (after w o) (answer o >>= f)) h
