-- ===== src/Drafts/Single/Stays.antt =====
-- What a call relies on stays: a version that was read as published is still there when its copy commits.
use aivirteach_server.Common.{
  ℕ, suc, ◌≤◌, ◌<◌, ◌≡◌, ◌⊎◌, refl, sym, ◌∙◌, true, String, Option, none, some, List, [], ◌∷◌,
  arith, ap, ltb, any, Bool-cases, inl, inr,
}
use aivirteach_server.Process.{
  HttpError, after, committed, not_found, attempt, ◌>>=◌, query, transaction,
}
use aivirteach_server.Process.Contract.{Contract}
use aivirteach_server.Process.Steady.{
  Steady, Steady-attempt, Steady-bind, Steady-query, Steady-transaction, Steady-if,
}
use aivirteach_server.Drafts.{
  DraftVersion, DraftDatabase, DraftRequest, DraftReply, DraftTask, DraftTransaction,
  is_published_of, latest, or_fail, create_action, later_version, then_do, record_event,
  include_modules, require_draft_ref,
}
use aivirteach_server.Drafts.Course.{
  after_modules, copy_version, create_version, copy_draft, is_unique_violation, winner_or,
  draft_exists, create_from, create_next, create_draft,
}
use aivirteach_server.Drafts.Single.{
  is_published_at, IsSingle, Grows-any, published_stays, published-version,
}
use aivirteach_server.Drafts.Single.Statements.{Keeps}
use aivirteach_server.Drafts.Single.Creation.{create_version-Keeps}
use aivirteach_server.Drafts.Single.Transactions.{
  Keeps-none, KeepsAll, continue-Keeps, then_do-Keeps, record_event-Keeps,
}

abbrev pub single_contract : Contract DraftDatabase DraftRequest DraftReply
single_contract = record { inv = IsSingle; allowed = λ q. Unit {0}; good = λ q r. Unit {0} }

abbrev pub Stays : {A : Type 0} → DraftDatabase → DraftTask A → Type 0
Stays = Steady single_contract published_stays

pub or_fail-Stays :
    {A : Type 0} (v : DraftDatabase) (e : HttpError) (o : Option A) → Stays v (or_fail e o)
or_fail-Stays v e none = tt
or_fail-Stays v e (some a) = tt

pub transaction-Stays :
    {A : Type 0} (t : DraftTransaction A) (v : DraftDatabase) → KeepsAll t → Stays v (transaction t)
transaction-Stays t v k = Steady-transaction single_contract published_stays v t (λ w g i. k w i)

pub bind-Stays :
    {A B : Type 0} (v : DraftDatabase) (m : DraftTask A) (f : A → DraftTask B)
    → Stays v m
    → ((w : DraftDatabase) (a : A) → published_stays.grows v w → Stays w (f a))
    → Stays v (m >>= f)
bind-Stays v m f = Steady-bind single_contract published_stays v m f

-- what follows does not rely on the answer
pub ask-Stays :
    {A B : Type 0} (v : DraftDatabase) (g : DraftDatabase → A) (f : A → DraftTask B)
    → ((w : DraftDatabase) (a : A) → Stays w (f a))
    → Stays v (query g >>= f)
ask-Stays v g f k = Steady-query single_contract published_stays v g f (λ w l i. k w (g w))

pub need-Stays :
    {A B : Type 0} (v : DraftDatabase) (e : HttpError) (o : Option A) (f : A → DraftTask B)
    → ((w : DraftDatabase) (a : A) → published_stays.grows v w → Stays w (f a))
    → Stays v (or_fail e o >>= f)
need-Stays v e o f k = bind-Stays v (or_fail e o) f (or_fail-Stays v e o) k

pub require_draft_ref-Stays : (slug : String) (v : DraftDatabase) → Stays v (require_draft_ref slug)
unfolding require_draft_ref
require_draft_ref-Stays slug v = ask-Stays v _ _ (λ w found.
    need-Stays w _ found _ (λ u course l. ask-Stays u _ _ (λ x draft. or_fail-Stays x _ draft)))

-- a draft is looked up, and one transaction changes it
pub edit-Stays :
    {A : Type 0} (slug : String) (t : DraftVersion → DraftTransaction A) (v : DraftDatabase)
    → ((draft : DraftVersion) → KeepsAll (t draft))
    → Stays v (require_draft_ref slug >>= (λ draft. transaction (t draft)))
edit-Stays slug t v k =
    bind-Stays v (require_draft_ref slug) (λ draft. transaction (t draft))
      (require_draft_ref-Stays slug v) (λ w draft l. transaction-Stays (t draft) w (k draft))

later_from :
    (x v : DraftVersion) (o : Option DraftVersion)
    → later_version x o ≡ some v
    → (x ≡ v) ⊎ (o ≡ some v)
later_from x v none h = inl cc
later_from x v (some u) h = elim (Bool-cases (ltb x.version u.version)) [
  | inl t ↦ inr (rw t at h)
  | inr f ↦ inl (inside (rw f at h))
]
  where
    inside : some x ≡ some v → x ≡ v
    inside e = cc

here_published :
    (c : ℕ) (x v : DraftVersion) (vs : List DraftVersion)
    → x ≡ v
    → is_published_of c x ≡ true
    → (v.course_id ≡ c) × (any (is_published_at c v.version) (x ∷ vs) ≡ true)
here_published c x v vs e t = (
  sym (ap (λ (k : DraftVersion). k.course_id) e) ∙ ground (arith, t),
  ground (arith, t, ap (λ (k : DraftVersion). k.version) e),
)

found_published :
    (c : ℕ) (vs : List DraftVersion) (v : DraftVersion)
    → latest (is_published_of c) vs ≡ some v
    → (v.course_id ≡ c) × (any (is_published_at c v.version) vs ≡ true)
unfolding latest
found_published c [] v h = cc
found_published c (x ∷ vs) v h = elim (Bool-cases (is_published_of c x)) [
  | inr f ↦ further (found_published c vs v (rw f at h))
  | inl t ↦ elim (later_from x v (latest (is_published_of c) vs) (rw t at h)) [
    | inl e ↦ here_published c x v vs e t
    | inr e ↦ further (found_published c vs v e)
  ]
]
  where
    further :
        (v.course_id ≡ c) × (any (is_published_at c v.version) vs ≡ true)
        → (v.course_id ≡ c) × (any (is_published_at c v.version) (x ∷ vs) ≡ true)
    further (e, a) = (e, ground (arith, a))

copy_draft-Keeps :
    (slug operator : String) (source : DraftVersion) (w : DraftDatabase)
    → any (is_published_at source.course_id source.version) w.versions ≡ true
    → IsSingle w
    → Keeps w (after w (copy_draft slug operator source w))
unfolding copy_draft copy_version
copy_draft-Keeps slug operator source w p i =
    continue-Keeps told told-Keeps w
      (create_version (copy_version w.next_id w.next_row source) (suc w.next_id) next_row w) i
      (create_version-Keeps (copy_version w.next_id w.next_row source) (suc w.next_id) next_row w i
        refl (omega arith) (omega arith) known (inl (source.version, refl, p)))
  where
    next_row : ℕ
    next_row = after_modules w.next_row (include_modules source)

    told : DraftVersion → DraftTransaction DraftVersion
    told created =
        then_do (record_event create_action operator created.id slug) (λ u. committed created)

    told-Keeps : (created : DraftVersion) → KeepsAll (told created)
    told-Keeps created =
        then_do-Keeps (λ u. committed created) (λ u w i. Keeps-none w i)
          (record_event create_action operator created.id slug)
          (record_event-Keeps create_action operator slug created.id)

    known : source.course_id < suc w.next_id
    known = elim (ge_or_lt w.next_id source.course_id) [
      | inl new ↦ cc (
          sym (published-version source.course_id source.version w.versions p)
          ∙ i.fresh_course source.course_id source.version new)
      | inr old ↦ omega (arith, old)
    ]
      where
        ge_or_lt : (a b : ℕ) → (a ≤ b) ⊎ (b < a)
        ge_or_lt a b = ground arith

pub draft_exists-Stays :
    (v : DraftDatabase) (course_id : ℕ) (e : HttpError) → Stays v (draft_exists course_id e)
draft_exists-Stays v course_id e =
    Steady-if single_contract published_stays v (is_unique_violation e) _ _
      (ask-Stays v _ _ (λ w o. winner_or-Stays w o)) tt
  where
    winner_or-Stays : (w : DraftDatabase) (o : Option DraftVersion) → Stays w (winner_or e o)
    winner_or-Stays w none = tt
    winner_or-Stays w (some x) = tt

pub create_from-Stays :
    (slug operator : String) (course_id : ℕ) (source : DraftVersion) (v : DraftDatabase)
    → any (is_published_at source.course_id source.version) v.versions ≡ true
    → Stays v (create_from slug operator course_id source)
create_from-Stays slug operator course_id source v p =
    Steady-attempt single_contract published_stays v (transaction (copy_draft slug operator source))
      _ (draft_exists course_id)
      (Steady-transaction single_contract published_stays v (copy_draft slug operator source)
        (λ w g i.
          copy_draft-Keeps slug operator source w
            (Grows-any source.course_id source.version v w g p) i))
      (λ w a g. tt) (λ w e g. draft_exists-Stays w course_id e)

pub create_next-Stays :
    (slug operator : String) (course_id : ℕ) (existing : Option DraftVersion) (v : DraftDatabase)
    → Stays v (create_next slug operator course_id existing)
unfolding attempt
create_next-Stays slug operator course_id (some d) v = tt
create_next-Stays slug operator course_id none v =
    Steady-query single_contract published_stays v _ _
      (λ w l i. from w (latest (is_published_of course_id) w.versions) refl)
  where
    from :
        (w : DraftDatabase) (o : Option DraftVersion)
        → latest (is_published_of course_id) w.versions ≡ o
        → Stays w (or_fail not_found o >>= create_from slug operator course_id)
    from w none e = tt
    from w (some source) e =
        let found = found_published course_id w.versions source e in
        create_from-Stays slug operator course_id source w
          (ap (λ k. any (is_published_at k source.version) w.versions) found.0 ∙ found.1)

pub create_draft-Stays :
    (slug operator : String) (v : DraftDatabase) → Stays v (create_draft slug operator)
unfolding create_draft
create_draft-Stays slug operator v = ask-Stays v _ _ (λ w found.
    need-Stays w _ found _ (λ u course l.
      ask-Stays u _ _ (λ x existing. create_next-Stays slug operator course.id existing x)))
