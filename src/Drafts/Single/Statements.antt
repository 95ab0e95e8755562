-- ===== src/Drafts/Single/Statements.antt =====
-- Each statement on the versions keeps what makes drafts single, and unpublishes nothing.
use aivirteach_server.Common.{
  ℕ, ◌≤◌, ◌≡◌, refl, ap, ◌∙◌, Bool, true, false, List, [], ◌∷◌, arith, any, count_rows, update_rows,
  is_some, Bool-cases, inl, inr,
}
use aivirteach_server.Drafts.{DraftVersion, DraftDatabase, has_id, is_open, update_version}
use aivirteach_server.Drafts.Course.{is_version}
use aivirteach_server.Drafts.Single.{is_draft_at, is_published_at, IsSingle, IsIn, Grows}

abbrev pub Keeps : DraftDatabase → DraftDatabase → Type 0
Keeps w w' = IsSingle w' × Grows w w'

module _ (q : DraftVersion → Bool) where
  pub any-update :
      (p : DraftVersion → Bool) (f : DraftVersion → DraftVersion) (vs : List DraftVersion)
      → ((v : DraftVersion) → q (f v) ≡ q v)
      → any q (update_rows p f vs) ≡ any q vs
  any-update p f [] h = refl
  any-update p f (v ∷ vs) h = ground (arith, h v, any-update p f vs h)

  pub count-update :
      (p : DraftVersion → Bool) (f : DraftVersion → DraftVersion) (vs : List DraftVersion)
      → ((v : DraftVersion) → q (f v) ≡ q v)
      → count_rows q (update_rows p f vs) ≡ count_rows q vs
  count-update p f [] h = refl
  count-update p f (v ∷ vs) h = ground (arith, h v, count-update p f vs h)

open_counted :
    (id : ℕ) (vs : List DraftVersion) → any (is_open id) vs ≡ true → 1 ≤ count_rows (has_id id) vs
open_counted id [] d = cc
open_counted id (v ∷ vs) d = ground (arith, open_counted id vs)

in_counted :
    (p : DraftVersion → Bool) (r : DraftVersion) (vs : List DraftVersion)
    → IsIn r vs
    → p r ≡ true
    → 1 ≤ count_rows p vs
in_counted p r [] x t = elim x [ ]
in_counted p r (v ∷ vs) (inl e) t = let here = ap p e ∙ t in ground (arith, here)
in_counted p r (v ∷ vs) (inr i) t = ground (arith, in_counted p r vs i t)

-- A published row is not the one that is locked.
pub locked_other :
    (id : ℕ) (r : DraftVersion) (vs : List DraftVersion)
    → any (is_open id) vs ≡ true
    → count_rows (has_id id) vs ≤ 1
    → is_some r.published_at ≡ true
    → IsIn r vs
    → has_id id r ≡ false
locked_other id r [] d l p x = elim x [ ]
locked_other id r (v ∷ vs) d l p (inl e) = elim (Bool-cases (has_id id r)) [
  | inr f ↦ f
  | inl t ↦
      let here = ap (has_id id) e ∙ t in
      let done = ap (λ (k : DraftVersion). is_some k.published_at) e ∙ p in
      absurd (omega (arith, open_counted id vs (ground (arith, d, here, done)), rw here at l))
]
locked_other id r (v ∷ vs) d l p (inr i) = elim (Bool-cases (is_open id v)) [
  | inr f ↦ locked_other id r vs (rw f at d) (ground (arith, l)) p i
  | inl t ↦ elim (Bool-cases (has_id id r)) [
    | inr f ↦ f
    | inl same ↦
        let more = in_counted (has_id id) r vs i same in absurd (ground (arith, t, l, more))
  ]
]

pub kept_row :
    (p : DraftVersion → Bool) (f : DraftVersion → DraftVersion) (r : DraftVersion)
    (vs : List DraftVersion)
    → p r ≡ false
    → IsIn r vs
    → IsIn r (update_rows p f vs)
kept_row p f r [] h x = elim x [ ]
kept_row p f r (v ∷ vs) h (inl e) = let here = ap p e ∙ h in inl (rw here e)
kept_row p f r (v ∷ vs) h (inr i) = inr (kept_row p f r vs h i)

abbrev pub SameRow : (DraftVersion → DraftVersion) → Type 0
SameRow f =
    (v : DraftVersion)
    → ((f v).id ≡ v.id)
      × ((f v).course_id ≡ v.course_id)
      × ((f v).version ≡ v.version)
      × ((f v).published_at ≡ v.published_at)

-- A change that keeps a version's id, course, number and publication.
pub update_version-Keeps :
    (id : ℕ) (f : DraftVersion → DraftVersion)
    → SameRow f
    → (w : DraftDatabase) → IsSingle w
    → any (is_open id) w.versions ≡ true
    → Keeps w (update_version id f w)
unfolding update_version
update_version-Keeps id f same w i open_row = (
  record {
    ids = λ k.
        rw (count-update (has_id k) (has_id id) f w.versions (λ v. rw ((same v).0) refl)) (i.ids k);
    fresh_id = λ k l.
        rw (count-update (has_id k) (has_id id) f w.versions (λ v. rw ((same v).0) refl))
          (i.fresh_id k l);
    fresh_course = λ c n l. rw (versions c n) (i.fresh_course c n l);
    twin = λ c n.
        rw (count-update (is_version c n) (has_id id) f w.versions (λ v. number c n v))
          (i.twin c n);
    tip = λ c n m. rw (drafts c n, versions c m) (i.tip c n m);
    filled = λ c a b m. rw (versions c a, versions c b, published c m) (i.filled c a b m);
  },
  λ r p h.
      kept_row (has_id id) f r w.versions (locked_other id r w.versions open_row (i.ids id) p h) h,
)
  where
    number : (c n : ℕ) (v : DraftVersion) → is_version c n (f v) ≡ is_version c n v
    number c n v = rw ((same v).1, (same v).2) refl

    versions :
        (c n : ℕ)
        → any (is_version c n) (update_rows (has_id id) f w.versions)
          ≡ any (is_version c n) w.versions
    versions c n =
        any-update (is_version c n) (has_id id) f w.versions (λ v. rw ((same v).1, (same v).2) refl)

    drafts :
        (c n : ℕ)
        → any (is_draft_at c n) (update_rows (has_id id) f w.versions)
          ≡ any (is_draft_at c n) w.versions
    drafts c n =
        any-update (is_draft_at c n) (has_id id) f w.versions
          (λ v. rw ((same v).1, (same v).2, (same v).3) refl)

    published :
        (c n : ℕ)
        → any (is_published_at c n) (update_rows (has_id id) f w.versions)
          ≡ any (is_published_at c n) w.versions
    published c n =
        any-update (is_published_at c n) (has_id id) f w.versions
          (λ v. rw ((same v).1, (same v).2, (same v).3) refl)
