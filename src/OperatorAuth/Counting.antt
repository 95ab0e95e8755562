-- ===== src/OperatorAuth/Counting.antt =====
-- The counting of failed logins, against a lock that is described by itself.
use aivirteach_server.Common.{
  ℕ, ◌+◌, ◌≡◌, refl, ap, ◌∙◌, Bool, true, false, ◌&&◌, Option, none, some, List, [], ◌∷◌, ◌++◌,
  if◌then◌else◌, ◌==◌, ltb, Bool-cases, inl, inr, find_first, update_rows, count_rows, All, All-map,
}
use aivirteach_server.Process.{◌>>=◌, committed, pure, transaction, execute}
use aivirteach_server.Process.Drive.{drive, drive-transaction}
use aivirteach_server.OperatorAuth.{
  Operator, OperatorDatabase, OperatorRequest, OperatorReply, has_id, is_expired, is_unlocked,
  update_operators, restart_count, one_more, increment_count, set_lock, lock, lock_ms,
  max_failed_logins, register_failure, record_event, record_locked, locked_event, OperatorTask,
}

-- How many attempts have failed in a row, and until when the account is locked.
pub record LockState : Type 0 where
  pub failures : ℕ
  pub until : Option ℕ

abbrev pub counted : ℕ → LockState → LockState
counted now s = record s {
  until =
      if ltb s.failures max_failed_logins
      then s.until
      else (if is_unlocked now s.until then some (now + lock_ms) else s.until);
}

-- A failed attempt: one after a lock has run out is the first; the fifth sets a lock.
abbrev pub fail_at : ℕ → LockState → LockState
fail_at now s =
    if is_expired now s.until
    then record { failures = 1; until = none }
    else counted now (record s { failures = s.failures + 1 })

abbrev pub state_of : Operator → LockState
state_of o = record { failures = o.failed_login_count; until = o.locked_until }

abbrev pub with_state : Operator → LockState → Operator
with_state o s = record o { failed_login_count = s.failures; locked_until = s.until }

module _ (p : Operator → Bool) where
  update_none :
      (f : Operator → Operator) (os : List Operator)
      → All (λ o. p o ≡ false) os
      → update_rows p f os ≡ os
  update_none f [] a = refl
  update_none f (o ∷ os) a = rw (a.0) (ap (λ t. o ∷ t) (update_none f os a.1))

  count_none : (os : List Operator) → All (λ o. p o ≡ false) os → count_rows p os ≡ 0
  count_none [] a = refl
  count_none (o ∷ os) a = rw (a.0) (count_none os a.1)

module _ (p : Operator → Bool) (r : Operator) (ys : List Operator)
    (behind : All (λ o. p o ≡ false) ys) where
  update_at :
      (f : Operator → Operator) (xs : List Operator)
      → All (λ o. p o ≡ false) xs
      → update_rows p f (xs ++ r ∷ ys) ≡ xs ++ (if p r then f r else r) ∷ ys
  update_at f [] a = ap (λ t. (if p r then f r else r) ∷ t) (update_none p f ys behind)
  update_at f (x ∷ xs) a = rw (a.0) (ap (λ t. x ∷ t) (update_at f xs a.1))

  count_at :
      (xs : List Operator)
      → All (λ o. p o ≡ false) xs
      → count_rows p (xs ++ r ∷ ys) ≡ (if p r then 1 else 0)
  count_at [] a = rw (count_none p ys behind) refl
  count_at (x ∷ xs) a = rw (a.0) (count_at xs a.1)

  find_at :
      (xs : List Operator)
      → All (λ o. p o ≡ false) xs
      → p r ≡ true
      → find_first p (xs ++ r ∷ ys) ≡ some r
  find_at [] a t = rw t refl
  find_at (x ∷ xs) a t = rw (a.0) (find_at xs a.1 t)

-- One row has the id.
module _ (w : OperatorDatabase) (id : ℕ) (xs ys : List Operator)
    (before : All (λ o. has_id id o ≡ false) xs) (behind : All (λ o. has_id id o ≡ false) ys) where
  abbrev at : Operator → OperatorDatabase
  at r = record w { operators = xs ++ r ∷ ys }

  conditional_none :
      (q : Option ℕ → Bool) (os : List Operator)
      → All (λ o. has_id id o ≡ false) os
      → All (λ (o : Operator). (has_id id o && q o.locked_until) ≡ false) os
  conditional_none q os a = All-map _ _ os (λ o h. rw h refl) a

  conditional_at :
      (q : Option ℕ → Bool) (f : Operator → Operator) (r : Operator)
      → has_id id r ≡ true
      → update_operators (λ o. has_id id o && q o.locked_until) f (at r)
        ≡ (if q r.locked_until then committed 1 (at (f r)) else committed 0 (at r))
  unfolding update_operators
  conditional_at q f r t =
      rw
        (
          count_at (λ o. has_id id o && q o.locked_until) r ys (conditional_none q ys behind) xs
              (conditional_none q xs before),
          update_at (λ o. has_id id o && q o.locked_until) r ys (conditional_none q ys behind) f xs
              (conditional_none q xs before),
        )
        (elim (Bool-cases (q r.locked_until)) [
          | inl y ↦ rw t (rw y refl)
          | inr n ↦ rw t (rw n refl)
        ])

  increment_at :
      (r : Operator)
      → has_id id r ≡ true
      → increment_count id (at r) ≡ committed (r.failed_login_count + 1) (at (one_more r))
  unfolding increment_count
  increment_at r t =
      rw
        (
          find_at (has_id id) r ys behind xs before t,
          update_at (has_id id) r ys behind one_more xs before,
        )
        (rw t refl)

  changed :
      (q : Option ℕ → Bool) (f : Operator → Operator) (r : Operator) (b : Bool)
      → has_id id r ≡ true
      → q r.locked_until ≡ b
      → update_operators (λ o. has_id id o && q o.locked_until) f (at r)
        ≡ (if b then committed 1 (at (f r)) else committed 0 (at r))
  changed q f r b t e =
      conditional_at q f r t ∙ ap (λ c. if c then committed 1 (at (f r)) else committed 0 (at r)) e

-- How a failed login ends, undisturbed.
abbrev Ends :
    ((q : OperatorRequest) → OperatorReply q)
    → OperatorDatabase
    → Operator
    → ℕ
    → List Operator
    → Type 0
Ends oracle w o now os =
    (w' : OperatorDatabase) × (drive oracle 5 w (register_failure o now) ≡ (w', pure tt))
    × (w'.operators ≡ os)

module _ (oracle : (q : OperatorRequest) → OperatorReply q) (w : OperatorDatabase) (o r : Operator)
    (xs ys : List Operator) (now : ℕ) (before : All (λ a. has_id o.id a ≡ false) xs)
    (behind : All (λ a. has_id o.id a ≡ false) ys) (same : has_id o.id r ≡ true) where
  abbrev with_row : Operator → OperatorDatabase
  with_row = at w o.id xs ys before behind

  abbrev Fails : Type 0
  Fails = Ends oracle (with_row r) o now (xs ++ with_state r (fail_at now (state_of r)) ∷ ys)

  fails_expired : is_expired now r.locked_until ≡ true → Fails
  unfolding drive register_failure
  fails_expired e = (
    with_row (restart_count r),
    drive-transaction oracle 4 _ _ _ _ _
        (changed w o.id xs ys before behind (is_expired now) restart_count r true same e),
    rw e refl,
  )

  module _ (running : is_expired now r.locked_until ≡ false) where
    -- `registerFailure` after the count
    abbrev counted_on : ℕ → OperatorTask (Unit {0})
    counted_on n =
        if ltb n max_failed_logins
        then pure tt
        else (transaction (lock o.id now) >>= λ locked.
            if locked == 0 then pure tt else record_locked o)

    counts :
        drive oracle 5 (with_row r) (register_failure o now)
        ≡ drive oracle 3 (with_row (one_more r)) (counted_on (r.failed_login_count + 1))
    unfolding drive register_failure
    counts =
        drive-transaction oracle 4 _ _ _ _ _
          (changed w o.id xs ys before behind (is_expired now) restart_count r false same running)
        ∙ drive-transaction oracle 3 _ _ _ _ _ (increment_at w o.id xs ys before behind r same)

    fails_few : ltb (r.failed_login_count + 1) max_failed_logins ≡ true → Fails
    unfolding drive
    fails_few few = (with_row (one_more r), counts ∙ rw few refl, rw running (rw few refl))

    module _ (many : ltb (r.failed_login_count + 1) max_failed_logins ≡ false) where
      fails_locking : is_unlocked now r.locked_until ≡ true → Fails
      unfolding drive execute record_event
      fails_locking free = (
        record (with_row (set_lock now (one_more r))) {
          audit_events = locked_event o ∷ w.audit_events;
        },
        counts
            ∙ rw many (
                drive-transaction oracle 2 _ _ _ _ _ (
                  changed w o.id xs ys before behind (is_unlocked now) (set_lock now) (one_more r)
                    true same free)),
        rw running (rw many (rw free refl)),
      )

      fails_locked : is_unlocked now r.locked_until ≡ false → Fails
      unfolding drive
      fails_locked closed = (
        with_row (one_more r),
        counts
            ∙ rw many (
                drive-transaction oracle 2 _ _ _ _ _ (
                  changed w o.id xs ys before behind (is_unlocked now) (set_lock now) (one_more r)
                    false same closed)),
        rw running (rw many (rw closed refl)),
      )

  -- Where one row has the operator's id: a wrong password, registered with nobody else in between,
  -- ends, changes that row as the description of the lock says, and changes no other row.
  pub register_failure-fail_at :
      (w' : OperatorDatabase) × (drive oracle 5
          (record w { operators = xs ++ r ∷ ys })
          (register_failure o now)
        ≡ (w', pure tt))
      × (w'.operators ≡ xs ++ with_state r (fail_at now (state_of r)) ∷ ys)
  register_failure-fail_at = elim (Bool-cases (is_expired now r.locked_until)) [
    | inl e ↦ fails_expired e
    | inr e ↦ elim (Bool-cases (ltb (r.failed_login_count + 1) max_failed_logins)) [
      | inl few ↦ fails_few e few
      | inr many ↦ elim (Bool-cases (is_unlocked now r.locked_until)) [
        | inl u ↦ fails_locking e many u
        | inr u ↦ fails_locked e many u
      ]
    ]
  ]
