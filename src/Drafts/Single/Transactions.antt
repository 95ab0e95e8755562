-- ===== src/Drafts/Single/Transactions.antt =====
-- Transactions on the drafts keep what makes them single: their statements one after the other, and
-- the deletion of a draft.
use aivirteach_server.Common.{
  ℕ, ◌≤◌, ◌≡◌, refl, sym, ap, ◌∙◌, Bool, true, false, String, none, some, List, [], ◌∷◌, arith, any,
  count_rows, delete_rows, find_first, Bool-cases, inl, inr,
}
use aivirteach_server.Process.{Outcome, committed, aborted, after}
use aivirteach_server.Drafts.{
  DraftVersion, DraftDatabase, DraftAction, discard_action, DraftTransaction, continue, then_do,
  has_id, is_open, require_unpublished_version, record_event, update_version,
}
use aivirteach_server.Drafts.Course.{
  is_version, delete_version, discard, write_version, summary, summarised,
}
use aivirteach_server.Drafts.Single.{is_draft_at, is_published_at, IsSingle, IsIn, Grows, Grows-any}
use aivirteach_server.Drafts.Single.Statements.{Keeps, locked_other, SameRow, update_version-Keeps}

pub Keeps-none : (w : DraftDatabase) → IsSingle w → Keeps w w
Keeps-none w i = (i, λ r p h. h)

-- A change of other tables, which may take new ids.
pub elsewhere-Keeps :
    (w w' : DraftDatabase)
    → w'.versions ≡ w.versions
    → w.next_id ≤ w'.next_id
    → IsSingle w
    → Keeps w w'
elsewhere-Keeps w w' e l i = (
  record {
    ids = λ k. rw e (i.ids k);
    fresh_id = λ k h. rw e (i.fresh_id k (omega (arith, l, h)));
    fresh_course = λ c n h. rw e (i.fresh_course c n (omega (arith, l, h)));
    twin = λ c n. rw e (i.twin c n);
    tip = λ c n m. rw e (i.tip c n m);
    filled = λ c a b m. rw e (i.filled c a b m);
  },
  λ r p. rw e (λ h. h),
)

abbrev pub KeepsAll : {A : Type 0} → DraftTransaction A → Type 0
KeepsAll t = (w : DraftDatabase) → IsSingle w → Keeps w (after w (t w))

-- What comes later aborts all, or is kept too.
pub after-Keeps :
    {B : Type 0} (w v : DraftDatabase) (o : Outcome DraftDatabase B)
    → IsSingle w
    → Grows w v
    → Keeps v (after v o)
    → Keeps w (after w o)
after-Keeps w v (committed b u) i g k = (k.0, λ r p h. k.1 r p (g r p h))
after-Keeps w v (aborted e) i g k = Keeps-none w i

module _ {A B : Type 0} (f : A → DraftTransaction B) (rest : (a : A) → KeepsAll (f a)) where
  pub continue-Keeps :
      (w : DraftDatabase) (o : Outcome DraftDatabase A)
      → IsSingle w
      → Keeps w (after w o)
      → Keeps w (after w (continue o f))
  continue-Keeps w (committed a v) i k = after-Keeps w v (f a v) i k.1 (rest a v k.0)
  continue-Keeps w (aborted e) i k = k

  pub then_do-Keeps : (t : DraftTransaction A) → KeepsAll t → KeepsAll (then_do t f)
  then_do-Keeps t k w i = continue-Keeps w (t w) i (k w i)

pub record_event-Keeps :
    (action : DraftAction) (operator slug : String) (id : ℕ)
    → KeepsAll (record_event action operator id slug)
unfolding record_event
record_event-Keeps action operator slug id w i = elsewhere-Keeps w _ refl (omega arith) i

pub require_unpublished_version-Keeps : (id : ℕ) → KeepsAll (require_unpublished_version id)
unfolding require_unpublished_version
require_unpublished_version-Keeps id w i = elim (Bool-cases (any (is_open id) w.versions)) [
  | inl t ↦ rw t (Keeps-none w i)
  | inr f ↦ rw f (Keeps-none w i)
]

module _ (q : DraftVersion → Bool) where
  any-delete :
      (p : DraftVersion → Bool) (vs : List DraftVersion)
      → any q (delete_rows p vs) ≡ true
      → any q vs ≡ true
  any-delete p [] h = h
  any-delete p (v ∷ vs) h = ground (arith, any-delete p vs)

  count-delete :
      (p : DraftVersion → Bool) (vs : List DraftVersion)
      → count_rows q (delete_rows p vs) ≤ count_rows q vs
  count-delete p [] = omega arith
  count-delete p (v ∷ vs) = ground (arith, count-delete p vs)

-- What goes is the locked row.
rest_stays :
    (p : DraftVersion → Bool) (r : DraftVersion) (vs : List DraftVersion)
    → p r ≡ false
    → IsIn r vs
    → IsIn r (delete_rows p vs)
rest_stays p r [] h x = elim x [ ]
rest_stays p r (v ∷ vs) h (inl e) = let here = ap p e ∙ h in rw here (inl e)
rest_stays p r (v ∷ vs) h (inr i) = elim (Bool-cases (p v)) [
  | inl t ↦ rw t (rest_stays p r vs h i)
  | inr f ↦ rw f (inr (rest_stays p r vs h i))
]

not_there :
    (q p : DraftVersion → Bool) (vs : List DraftVersion)
    → any q vs ≡ false
    → any q (delete_rows p vs) ≡ false
not_there q p vs h = elim (Bool-cases (any q (delete_rows p vs))) [
  | inl t ↦ cc (sym (any-delete q p vs t) ∙ h)
  | inr f ↦ f
]

module _ (id : ℕ) (w : DraftDatabase) (i : IsSingle w)
    (draft : any (is_open id) w.versions ≡ true) where
  deleted-Keeps : Keeps w (record w { versions = delete_rows (has_id id) w.versions })
  deleted-Keeps = (
    record {
      ids = λ k. omega (arith, count-delete (has_id k) (has_id id) w.versions, i.ids k);
      fresh_id =
          λ k h. omega (arith, count-delete (has_id k) (has_id id) w.versions, i.fresh_id k h);
      fresh_course =
          λ c n h. not_there (is_version c n) (has_id id) w.versions (i.fresh_course c n h);
      twin = λ c n. omega (arith, count-delete (is_version c n) (has_id id) w.versions, i.twin c n);
      tip = λ c n m d e.
          i.tip c n m (any-delete (is_draft_at c n) (has_id id) w.versions d)
            (any-delete (is_version c m) (has_id id) w.versions e);
      filled = λ c a b m x y l u. published c m (
          i.filled c a b m (any-delete (is_version c a) (has_id id) w.versions x)
            (any-delete (is_version c b) (has_id id) w.versions y) l u);
    },
    stays,
  )
    where
      stays : Grows w (record w { versions = delete_rows (has_id id) w.versions })
      stays r p h =
          rest_stays (has_id id) r w.versions (locked_other id r w.versions draft (i.ids id) p h) h

      published :
          (c n : ℕ)
          → any (is_published_at c n) w.versions ≡ true
          → any (is_published_at c n) (delete_rows (has_id id) w.versions) ≡ true
      published c n =
          Grows-any c n w (record w { versions = delete_rows (has_id id) w.versions }) stays

  deleted_row :
      after w (delete_version id w) ≡ record w { versions = delete_rows (has_id id) w.versions }
  unfolding delete_version
  deleted_row = rw (there w.versions draft) refl
    where
      there : (vs : List DraftVersion) → any (is_open id) vs ≡ true → any (has_id id) vs ≡ true
      there [] d = cc
      there (v ∷ vs) d = ground (arith, there vs)

pub discard-Keeps : (slug operator : String) (id : ℕ) → KeepsAll (discard slug operator id)
unfolding discard require_unpublished_version
discard-Keeps slug operator id w i = elim (Bool-cases (any (is_open id) w.versions)) [
  | inl t ↦ rw t (
      continue-Keeps (λ u. record_event discard_action operator id slug)
        (λ u. record_event-Keeps discard_action operator slug id) w (delete_version id w) i
        (rw (deleted_row id w i t) (deleted-Keeps id w i t)))
  | inr f ↦ rw f (Keeps-none w i)
]

pub summary-Keeps : (id : ℕ) → KeepsAll (summary id)
summary-Keeps id w i =
    elim (find_first (has_id id) w.versions) as (λ x. Keeps w (after w (summarised w x))) [
      | none ↦ Keeps-none w i
      | some v ↦ Keeps-none w i
    ]

-- the shape of every content write: the lock, a write, its event, and the answer
abbrev pub KeepsLocked : {A : Type 0} → ℕ → DraftTransaction A → Type 0
KeepsLocked id t =
    (w : DraftDatabase) → IsSingle w → any (is_open id) w.versions ≡ true → Keeps w (after w (t w))

pub locked-Keeps :
    {A : Type 0} (id : ℕ) (t : DraftTransaction A)
    → KeepsLocked id t
    → KeepsAll (then_do (require_unpublished_version id) (λ u. t))
unfolding require_unpublished_version
locked-Keeps id t k w i = elim (Bool-cases (any (is_open id) w.versions)) [
  | inl open_row ↦ rw open_row (k w i open_row)
  | inr f ↦ rw f (Keeps-none w i)
]

module _ (action : DraftAction) (slug operator : String) (id : ℕ) where
  pub write_version-Keeps :
      (f : DraftVersion → DraftVersion)
      → SameRow f
      → KeepsAll (write_version action slug operator id f)
  unfolding write_version
  write_version-Keeps f same =
      locked-Keeps id (then_do (λ w. committed tt (update_version id f w)) (λ u. told))
        (λ w i open_row.
          continue-Keeps (λ u. told) (λ u. told-Keeps) w (committed tt (update_version id f w)) i
            (update_version-Keeps id f same w i open_row))
    where
      told : DraftTransaction DraftVersion
      told = then_do (record_event action operator id slug) (λ u. summary id)

      told-Keeps : KeepsAll told
      told-Keeps =
          then_do-Keeps (λ u. summary id) (λ u. summary-Keeps id)
            (record_event action operator id slug) (record_event-Keeps action operator slug id)
