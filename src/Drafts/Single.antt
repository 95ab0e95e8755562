-- ===== src/Drafts/Single.antt =====
-- A course has one draft at most: the facts about the versions that every statement keeps.
pub mod Statements
pub mod Creation
pub mod Transactions
pub mod Writes
pub mod Stays
pub mod Calls
pub mod System
use aivirteach_server.Common.{
  ℕ, zero, suc, ◌+◌, ◌≤◌, ◌⊎◌, ◌<◌, ◌≡◌, refl, sym, ap, ◌∙◌, Bool, true, false, ◌&&◌, ◌||◌, not,
  Option, none, some, List, [], ◌∷◌, arith, if◌then◌else◌, ◌==◌, ==_iff, any, count_rows,
  update_rows, delete_rows, is_some, Bool-cases, inl, inr,
}
use aivirteach_server.Process.{Outcome, committed, aborted, after}
use aivirteach_server.Process.Steady.{Growth}
use aivirteach_server.Drafts.{DraftVersion, DraftDatabase, has_id, is_draft, is_draft_of}
use aivirteach_server.Drafts.Course.{is_version}

abbrev pub is_draft_at : ℕ → ℕ → DraftVersion → Bool
is_draft_at c n v = is_version c n v && is_draft v

abbrev pub is_published_at : ℕ → ℕ → DraftVersion → Bool
is_published_at c n v = is_version c n v && is_some v.published_at

-- `twin` is the unique index; drafts are the last versions, and versions below another are published.
pub record IsSingle (w : DraftDatabase) : Type 0 where
  pub ids : (i : ℕ) → count_rows (has_id i) w.versions ≤ 1
  pub fresh_id : (i : ℕ) → w.next_id ≤ i → count_rows (has_id i) w.versions ≡ 0
  pub fresh_course : (c n : ℕ) → w.next_id ≤ c → any (is_version c n) w.versions ≡ false
  pub twin : (c n : ℕ) → count_rows (is_version c n) w.versions ≤ 1
  pub tip :
      (c n m : ℕ)
      → any (is_draft_at c n) w.versions ≡ true
      → any (is_version c m) w.versions ≡ true
      → m ≤ n
  pub filled :
      (c a b m : ℕ)
      → any (is_version c a) w.versions ≡ true
      → any (is_version c b) w.versions ≡ true
      → a ≤ m
      → m < b
      → any (is_published_at c m) w.versions ≡ true

module _ (r : DraftVersion) where
  abbrev pub IsIn : List DraftVersion → Type 0
  IsIn [] = ⊥
  IsIn (v ∷ vs) = (v ≡ r) ⊎ IsIn vs

-- A version that is published stays as it is.
abbrev pub published_stays : Growth DraftDatabase
published_stays = record {
  grows = λ v w.
      (r : DraftVersion) → is_some r.published_at ≡ true → IsIn r v.versions → IsIn r w.versions;
  stays = λ w r p h. h;
  joins = λ u v w g h r p i. h r p (g r p i);
}

abbrev pub Grows : DraftDatabase → DraftDatabase → Type 0
Grows = published_stays.grows

row_at :
    (c n : ℕ) (vs : List DraftVersion)
    → any (is_published_at c n) vs ≡ true
    → (r : DraftVersion) × (is_published_at c n r ≡ true) × IsIn r vs
row_at c n [] h = cc
row_at c n (v ∷ vs) h = elim (Bool-cases (is_published_at c n v)) [
  | inl t ↦ (v, t, inl refl)
  | inr f ↦ let more = row_at c n vs (rw f at h) in (more.0, more.1, inr more.2)
]

at_row :
    (q : DraftVersion → Bool) (r : DraftVersion) (vs : List DraftVersion)
    → q r ≡ true
    → IsIn r vs
    → any q vs ≡ true
at_row q r [] t x = elim x [ ]
at_row q r (v ∷ vs) t (inl e) = let here = ap q e ∙ t in ground (arith, here)
at_row q r (v ∷ vs) t (inr i) = ground (arith, at_row q r vs t i)

pub Grows-any :
    (c n : ℕ) (v w : DraftDatabase)
    → Grows v w
    → any (is_published_at c n) v.versions ≡ true
    → any (is_published_at c n) w.versions ≡ true
Grows-any c n v w g h =
    let found = row_at c n v.versions h in
    at_row (is_published_at c n) found.0 w.versions found.1
      (g found.0 (published found.0 found.1) found.2)
  where
    published : (r : DraftVersion) → is_published_at c n r ≡ true → is_some r.published_at ≡ true
    published r t = ground (arith, t)

pub published-version :
    (c n : ℕ) (vs : List DraftVersion)
    → any (is_published_at c n) vs ≡ true
    → any (is_version c n) vs ≡ true
published-version c n [] h = cc
published-version c n (v ∷ vs) h = ground (arith, published-version c n vs)

pub any-counted :
    (p : DraftVersion → Bool) (vs : List DraftVersion) → any p vs ≡ true → 1 ≤ count_rows p vs
any-counted p [] h = cc
any-counted p (v ∷ vs) h = ground (arith, any-counted p vs)

pub draft-version :
    (c n : ℕ) (vs : List DraftVersion)
    → any (is_draft_at c n) vs ≡ true
    → any (is_version c n) vs ≡ true
draft-version c n [] h = cc
draft-version c n (v ∷ vs) h = ground (arith, draft-version c n vs)

pub two_kinds :
    (c n : ℕ) (vs : List DraftVersion)
    → any (is_draft_at c n) vs ≡ true
    → any (is_published_at c n) vs ≡ true
    → 2 ≤ count_rows (is_version c n) vs
two_kinds c n [] d p = cc
two_kinds c n (v ∷ vs) d p = ground (
  arith,
  two_kinds c n vs,
  any-counted (is_version c n) vs,
  published-version c n vs,
  draft-version c n vs,
)

-- Drafts of one course at one version are as many as that version's rows at most.
drafts_le :
    (c n : ℕ) (vs : List DraftVersion)
    → ((m : ℕ) → any (is_draft_at c m) vs ≡ true → m ≡ n)
    → count_rows (is_draft_of c) vs ≤ count_rows (is_version c n) vs
drafts_le c n [] h = omega arith
drafts_le c n (v ∷ vs) h =
    let rest = drafts_le c n vs (λ m e. h m (ground (arith, e))) in
    elim (Bool-cases (is_draft_of c v)) [
      | inl t ↦ ground (arith, t, rest, here t)
      | inr f ↦ ground (arith, f, rest)
    ]
  where
    here : is_draft_of c v ≡ true → v.version ≡ n
    here t = h v.version (ground (arith, t))

some_draft :
    (c : ℕ) (vs : List DraftVersion)
    → 1 ≤ count_rows (is_draft_of c) vs
    → (n : ℕ) × (any (is_draft_at c n) vs ≡ true)
some_draft c [] h = absurd (omega (arith, h))
some_draft c (v ∷ vs) h = elim (Bool-cases (is_draft_of c v)) [
  | inl t ↦ (v.version, ground (arith, t))
  | inr f ↦ let more = some_draft c vs (ground (arith, f, h)) in (more.0, ground (arith, more.1))
]

-- No course has two drafts.
pub IsSingle-one :
    (w : DraftDatabase) (c : ℕ) → IsSingle w → count_rows (is_draft_of c) w.versions ≤ 1
IsSingle-one w c i = elim (some_or_none (count_rows (is_draft_of c) w.versions)) [
  | inl none_here ↦ omega (arith, none_here)
  | inr some_here ↦
      let found = some_draft c w.versions some_here in
      let same : (m : ℕ) → any (is_draft_at c m) w.versions ≡ true → m ≡ found.0 = λ m e. omega (
        arith,
        i.tip c m found.0 e (draft-version c found.0 w.versions found.1),
        i.tip c found.0 m found.1 (draft-version c m w.versions e),
      ) in
      omega (arith, drafts_le c found.0 w.versions same, i.twin c found.0)
]
  where
    some_or_none : (n : ℕ) → (n ≡ 0) ⊎ (1 ≤ n)
    some_or_none zero = inl refl
    some_or_none (suc n) = inr (omega arith)
